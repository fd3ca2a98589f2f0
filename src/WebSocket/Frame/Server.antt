-- ===== src/WebSocket/Frame/Server.antt =====
-- A server's frames, and what the client's parser makes of them.
use wiznet_driver.Base.{ℕ, ◌+◌, ◌/◌, ◌%◌, ◌^◌, ◌≡◌, ◌<◌, refl, arith, bit_and, ◌&&◌}
use wiznet_driver.Base.{true, false, ◌==◌, ==_iff, if◌then◌else◌, ltb, some, ◌∙◌, ap}
use wiznet_driver.Base.{List, [], ◌∷◌, ◌++◌, length, take, drop, take-all}
use wiznet_driver.Base.Bits.{holds_below, holds_below_at}
use wiznet_driver.WebSocket.Frame.{parse_header, Header}

-- RFC 6455: a single frame without a mask, with a payload of less than 2^16 bytes.
abbrev pub server_frame : ℕ → List ℕ → List ℕ
server_frame op payload =
    let n = length payload in
    (128 + op) ∷ (if ltb n 126 then n ∷ [] else 126 ∷ n / 256 ∷ n % 256 ∷ []) ++ payload

abbrev pub server_header : ℕ → ℕ → Header
server_header op n = record {
  opcode = op;
  mask = false;
  key = 0 ∷ 0 ∷ 0 ∷ 0 ∷ [];
  payload_len = n;
  pos = if ltb n 126 then 2 else 4;
}

opcode_table : holds_below (λ x. bit_and (128 + x) 0x0F == x) 16 ≡ true
unfolding holds_below
opcode_table = refl

length_table : holds_below (λ x. (bit_and x 0x7F == x) && (bit_and x 0x80 == 0)) 128 ≡ true
unfolding holds_below
length_table = refl

opcode_bits : (x : ℕ) → x < 16 → bit_and (128 + x) 0x0F ≡ x
opcode_bits x h = (==_iff _ x).0 (holds_below_at _ 16 opcode_table x h)

length_bits : (x : ℕ) → x < 128 → (bit_and x 0x7F ≡ x) × (bit_and x 0x80 ≡ 0)
length_bits x h = ground (arith, holds_below_at _ 128 length_table x h)

pub parse_header-server_frame :
    (op : ℕ) (payload : List ℕ)
    → op < 16
    → length payload < 2 ^ 16
    → parse_header (server_frame op payload) ≡ some (server_header op (length payload))
unfolding parse_header
parse_header-server_frame op payload ho hn =
    ground (arith, opcode_bits op, length_bits (length payload), length_bits 126)

drop-server_frame :
    (op : ℕ) (payload : List ℕ)
    → drop (server_header op (length payload)).pos (server_frame op payload) ≡ payload
drop-server_frame op payload = ground arith

-- What the parser takes for the payload of a server's frame is its payload.
pub payload-server_frame :
    (op : ℕ) (payload : List ℕ)
    → let h = server_header op (length payload) in
      take h.payload_len (drop h.pos (server_frame op payload)) ≡ payload
payload-server_frame op payload =
    ap (take (length payload)) (drop-server_frame op payload)
    ∙ take-all (length payload) payload (omega arith)

pub length-server_frame :
    (op : ℕ) (payload : List ℕ) → length payload < length (server_frame op payload)
length-server_frame op payload = ground arith
