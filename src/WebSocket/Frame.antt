-- ===== src/WebSocket/Frame.antt =====
-- Frames: ws_create_frame_header, ws_mask_payload, ws_generate_masking_key, and the header parser
-- at the start of ws_process_internal. A buffer is the list of the bytes in it; a function that
-- writes a buffer from its start returns what it wrote, whose length is the C function's result.
pub mod Masking
pub mod RoundTrip
pub mod Server
use wiznet_driver.Base.{ℕ, zero, suc, ◌+◌, ◌%◌, ◌^◌, ◌≡◌, bit_and, bit_or, bit_xor}
use wiznet_driver.Base.{Bool, true, false, not, ◌&&◌, ltb, ◌==◌, if◌then◌else◌}
use wiznet_driver.Base.{Option, none, some, List, [], ◌∷◌, ◌++◌, length, take, drop, get_or}
use wiznet_driver.Base.Bits.{shr, low_bits, be16}

-- `ws_opcode_t` is any number in C: the parser casts four bits to it.
abbrev pub op_text : ℕ
op_text = 0x1

abbrev pub op_binary : ℕ
op_binary = 0x2

abbrev pub op_close : ℕ
op_close = 0x8

abbrev pub op_ping : ℕ
op_ping = 0x9

abbrev pub op_pong : ℕ
op_pong = 0xA

-- The masking key of one 32-bit random value, most significant byte first.
unfoldable pub generate_masking_key : ℕ → List ℕ
generate_masking_key rand_val =
    low_bits (shr rand_val 24) 8
    ∷ low_bits (shr rand_val 16) 8
    ∷ low_bits (shr rand_val 8) 8
    ∷ low_bits rand_val 8
    ∷ []

-- The base header: FIN and the opcode, then the mask bit and the length.
unfoldable pub base_header : ℕ → ℕ → Bool → List ℕ
base_header opcode payload_len mask =
    bit_or 0x80 (low_bits opcode 4)
    ∷ (if ltb payload_len 126
        then bit_or (if mask then 0x80 else 0x00) payload_len ∷ []
        else bit_or (if mask then 0x80 else 0x00) 126
          ∷ low_bits (shr payload_len 8) 8
          ∷ low_bits payload_len 8
          ∷ [])

-- `masking_key` is `none` for a null pointer; four bytes of it are copied.
unfoldable pub create_frame_header : ℕ → ℕ → Bool → Option (List ℕ) → List ℕ
unfolding base_header
create_frame_header opcode payload_len mask none = base_header opcode payload_len mask
create_frame_header opcode payload_len mask (some key) =
    base_header opcode payload_len mask ++ (if mask then take 4 key else [])

-- `payload[i] ^= mask[i % 4]`, from index `i` on.
unfoldable pub mask_from : ℕ → List ℕ → List ℕ → List ℕ
mask_from i key [] = []
mask_from i key (b ∷ payload) = bit_xor b (get_or key (i % 4) 0) ∷ mask_from (i + 1) key payload

unfoldable pub mask_payload : List ℕ → List ℕ → List ℕ
unfolding mask_from
mask_payload payload key = mask_from 0 key payload

-- What the parser has read of a frame. `pos` is where the payload starts.
pub record Header : Type 0 where
  pub opcode : ℕ
  pub mask : Bool
  pub key : List ℕ
  pub payload_len : ℕ
  pub pos : ℕ

-- The masking key, and the test for a whole payload. `none` is WS_ERR_INVALID_FRAME.
unfoldable pub parse_key : ℕ → Bool → ℕ → ℕ → List ℕ → Option Header
parse_key opcode mask payload_len pos rx =
    let received = length rx in
    let pos' = if mask then pos + 4 else pos in
    if mask && ltb received (pos + 4)
    then none
    else if ltb received (pos' + payload_len)
    then none
    else some record {
      opcode = opcode;
      mask = mask;
      key = if mask then take 4 (drop pos rx) else 0 ∷ 0 ∷ 0 ∷ 0 ∷ [];
      payload_len = payload_len;
      pos = pos';
    }

-- The `received` bytes of `ws_rx_temp`; ws_process_internal asks recv for at most the 2048 that it
-- holds. No byte behind them is read.
unfoldable pub parse_header : List ℕ → Option Header
unfolding parse_key
parse_header rx =
    let received = length rx in
    let opcode = bit_and (get_or rx 0 0) 0x0F in
    let mask = not (bit_and (get_or rx 1 0) 0x80 == 0) in
    let payload_len = bit_and (get_or rx 1 0) 0x7F in
    if ltb received 2
    then none
    else if payload_len == 126
    then if ltb received 4
      then none
      else parse_key opcode mask (be16 (get_or rx 2 0) (get_or rx 3 0)) 4 rx
    else if payload_len == 127
    then none
    else parse_key opcode mask payload_len 2 rx
