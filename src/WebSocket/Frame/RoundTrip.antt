-- ===== src/WebSocket/Frame/RoundTrip.antt =====
-- What the client writes as a frame is read back by the client's own parser.
use wiznet_driver.Base.{ℕ, zero, suc, ◌+◌, ◌≤◌, ◌%◌, ◌^◌, ◌≡◌, ◌<◌, refl, ap}
use wiznet_driver.Base.{◌∙◌, ◌&&◌, arith, bit_and, bit_or, Bool, true, ◌==◌, ==_iff}
use wiznet_driver.Base.{if◌then◌else◌, ltb, Option, some, List, [], ◌∷◌, ◌++◌, length}
use wiznet_driver.Base.{All, drop, take}
use mathlib.Core.Option
use wiznet_driver.Base.Bits.{IsByte, holds_below, holds_below_at}
use wiznet_driver.WebSocket.Frame.{create_frame_header, parse_header, Header}
use wiznet_driver.WebSocket.Frame.{mask_payload}
use wiznet_driver.WebSocket.Frame.Masking.{length-mask_from, mask_payload-mask_payload}

opcode_table : holds_below (λ x. bit_and (bit_or 0x80 (x % 16)) 0x0F == x) 16 ≡ true
unfolding holds_below
opcode_table = refl

opcode_bits : (x : ℕ) → x < 16 → bit_and (bit_or 0x80 (x % 16)) 0x0F ≡ x
opcode_bits x h = (==_iff _ x).0 (holds_below_at _ 16 opcode_table x h)

masked_table :
    holds_below
      (λ x. (bit_and (bit_or 0x80 x) 0x7F == x) && (bit_and (bit_or 0x80 x) 0x80 == 128))
      128
    ≡ true
unfolding holds_below
masked_table = refl

masked_bits :
    (x : ℕ) → x < 128 → (bit_and (bit_or 0x80 x) 0x7F ≡ x) × (bit_and (bit_or 0x80 x) 0x80 ≡ 128)
masked_bits x h = ground (arith, holds_below_at _ 128 masked_table x h)

-- The key as the four bytes that it has.
abbrev pub key_of : ℕ → ℕ → ℕ → ℕ → List ℕ
key_of a b c d = a ∷ b ∷ c ∷ d ∷ []

-- The length of the header that carries a payload of `n` bytes.
abbrev pub header_len : ℕ → Bool → ℕ
header_len n mask = (if ltb n 126 then 2 else 4) + (if mask then 4 else 0)

module _ (op n a b c d : ℕ) (rest : List ℕ) (ho : op < 16) (hn : n < 2 ^ 16)
    (hr : length rest ≡ n) where
  parse_masked :
      parse_header (create_frame_header op n true (some (key_of a b c d)) ++ rest)
      ≡ some record {
        opcode = op;
        mask = true;
        key = key_of a b c d;
        payload_len = n;
        pos = header_len n true;
      }
  unfolding parse_header create_frame_header
  parse_masked = ground (arith, opcode_bits op, masked_bits n, masked_bits 126)

-- The frame that the client sends: the header, and the payload masked in place.
abbrev pub client_frame : ℕ → List ℕ → List ℕ → List ℕ
client_frame op payload key =
    create_frame_header op (length payload) true (some key) ++ mask_payload payload key

drop-header :
    (op n a b c d : ℕ) (rest : List ℕ)
    → drop (header_len n true) (create_frame_header op n true (some (key_of a b c d)) ++ rest)
      ≡ rest
unfolding create_frame_header
drop-header op n a b c d rest = ground arith

-- What the parser and the unmasking make of a frame: the opcode, and the payload.
abbrev pub payload_of : List ℕ → Header → ℕ × List ℕ
payload_of rx h =
    let bytes = take h.payload_len (drop h.pos rx) in
    (h.opcode, if h.mask then mask_payload bytes h.key else bytes)

abbrev pub read_frame : List ℕ → Option (ℕ × List ℕ)
read_frame rx = Option.map (payload_of rx) (parse_header rx)

take-all : (n : ℕ) (xs : List ℕ) → length xs ≡ n → take n xs ≡ xs
take-all zero [] e = refl
take-all zero (x ∷ xs) e = absurd (omega arith)
take-all (suc n) [] e = refl
take-all (suc n) (x ∷ xs) e = ap (λ r. x ∷ r) (take-all n xs (omega arith))

length-mask_payload : (payload key : List ℕ) → length (mask_payload payload key) ≡ length payload
unfolding mask_payload
length-mask_payload payload key = length-mask_from 0 key payload

-- A header with a masking key has at most 8 bytes.
pub length-client_frame :
    (op : ℕ) (payload : List ℕ) (a b c d : ℕ)
    → length (client_frame op payload (key_of a b c d)) ≤ length payload + 8
unfolding create_frame_header
length-client_frame op payload a b c d =
    ground (arith, length-mask_payload payload (key_of a b c d))

-- The parser reads back every frame that the client writes: with an opcode of four bits, a payload
-- of at most 65535 bytes and a key of four bytes, it finds the opcode, and unmasking gives the
-- payload.
pub read_frame-client_frame :
    (op : ℕ) (payload : List ℕ) (a b c d : ℕ)
    → op < 16
    → length payload < 2 ^ 16
    → All IsByte payload
    → All IsByte (a ∷ b ∷ c ∷ d ∷ [])
    → read_frame (client_frame op payload (a ∷ b ∷ c ∷ d ∷ [])) ≡ some (op, payload)
read_frame-client_frame op payload a b c d ho hn hp hk =
    let key : List ℕ = key_of a b c d in
    let n : ℕ = length payload in
    let masked = mask_payload payload key in
    let e = length-mask_payload payload key in
    ap (Option.map (payload_of (client_frame op payload key)))
      (parse_masked op n a b c d masked ho hn e)
    ∙ ap (λ (bytes : List ℕ). some (op, mask_payload bytes key))
        (ap (take n) (drop-header op n a b c d masked) ∙ take-all n masked e)
    ∙ ap (λ p. some (op, p)) (mask_payload-mask_payload payload key hp hk)
