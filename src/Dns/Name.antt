-- ===== src/Dns/Name.antt =====
-- Src/dns_client.c: host names and their wire form: _dns_is_valid_hostname, _dns_encode_name,
-- _dns_decode_name and _dns_skip_name. A C string is the list of its characters before the NUL.
pub mod Encoded
pub mod Decoded
pub mod Skip
pub mod Reference
mod Examples
use wiznet_driver.Base.{ℕ, zero, suc, ◌+◌, ◌-◌, ◌*◌, ◌/◌, ◌%◌, ◌^◌, bit_and, Bool, true, false}
use wiznet_driver.Base.{◌&&◌, ◌||◌, not, ltb, leb, ◌==◌, if◌then◌else◌, Option, none, some}
use wiznet_driver.Base.{List, [], ◌∷◌, ◌++◌, length, take, get_or}
use wiznet_driver.Base.Bits.{low_bits, be16}
use wiznet_driver.Dns.Result.{Result, ok, err, ◌>>=◌, Error, invalid_param, format}
use wiznet_driver.Dns.Result.{dns_max_name_length, dns_max_label_length}

-- `isalnum` in the C locale.
abbrev pub isalnum : ℕ → Bool
isalnum c = (leb b'0' c && leb c b'9') || (leb b'A' c && leb c b'Z') || (leb b'a' c && leb c b'z')

-- The loop, with the length of the label so far.
unfoldable pub valid_from : ℕ → List ℕ → Bool
valid_from label_len [] = ltb 0 label_len && leb label_len dns_max_label_length
valid_from label_len (c ∷ cs) =
    let rest = valid_from (if c == b'.' then 0 else label_len + 1) cs in
    if c == b'.'
    then not (label_len == 0 || ltb dns_max_label_length label_len) && rest
    else (isalnum c || c == b'-') && not (ltb dns_max_label_length (label_len + 1)) && rest

unfoldable pub is_valid_hostname : List ℕ → Bool
unfolding valid_from
is_valid_hostname hostname =
    if length hostname == 0 || ltb dns_max_name_length (length hostname)
    then false
    else valid_from 0 hostname

-- `buffer[pos++] = label_len`, where `label_len` is a byte, and the copy of the label.
abbrev pub emit_label : List ℕ → List ℕ → List ℕ
emit_label label rest = (length label % 2 ^ 8) ∷ (take (length label % 2 ^ 8) label ++ rest)

-- The loop over the characters and the NUL behind them. `label` is what lies between `label_start`
-- and `i`.
unfoldable pub encode_from : List ℕ → List ℕ → Result (List ℕ)
encode_from label [] =
    if length label % 2 ^ 8 == 0 then err format else ok (emit_label label (0 ∷ []))
encode_from label (c ∷ cs) =
    let rest = encode_from (if c == b'.' then [] else label ++ (c ∷ [])) cs in
    if c == b'.'
    then (if length label % 2 ^ 8 == 0
        then err format
        else rest >>= λ bytes. ok (emit_label label bytes))
    else rest

-- What is written to the buffer. A null host name is `none`.
unfoldable pub encode_name : Option (List ℕ) → Result (List ℕ)
unfolding is_valid_hostname encode_from
encode_name none = err invalid_param
encode_name (some hostname) =
    if is_valid_hostname hostname then encode_from [] hostname else err invalid_param

-- The copy of a label: at most `left` characters, while the packet and the name have room.
unfoldable pub copy_label : ℕ → List ℕ → ℕ → ℕ → ℕ → List ℕ → ℕ × List ℕ
copy_label zero buffer buffer_len name_len pos name = (pos, name)
copy_label (suc left) buffer buffer_len name_len pos name =
    let rest =
      copy_label left buffer buffer_len name_len (pos + 1) (name ++ (get_or buffer pos 0 ∷ [])) in
    if ltb pos buffer_len && ltb (length name) (name_len - 1) then rest else (pos, name)

-- `if (name_pos > 0 && name_pos < name_len - 1) name[name_pos++] = '.'`
abbrev pub add_dot : ℕ → List ℕ → List ℕ
add_dot name_len name =
    if ltb 0 (length name) && ltb (length name) (name_len - 1) then name ++ (b'.' ∷ []) else name

-- `(len & 0xC0) == 0xC0`
abbrev pub is_pointer : ℕ → Bool
is_pointer len = bit_and len 0xC0 == 0xC0

-- The loop of _dns_decode_name. `jumps` counts down from 10. Every round but a jump moves on in the
-- packet, so that `fuel` rounds are enough between two jumps, where `fuel` is `buffer_len`.
-- The result is the name and the offset behind it.
unfoldable pub decode_loop : ℕ → ℕ → List ℕ → ℕ → ℕ → ℕ → List ℕ → Bool → ℕ → List ℕ × ℕ
unfolding copy_label
decode_loop zero fuel buffer buffer_len name_len pos name jumped offset = (name, offset)
decode_loop (suc jumps) zero buffer buffer_len name_len pos name jumped offset = (name, offset)
decode_loop (suc jumps) (suc fuel) buffer buffer_len name_len pos name jumped offset =
    let len = get_or buffer pos 0 in
    let target = low_bits len 6 * 2 ^ 8 + get_or buffer (pos + 1) 0 in
    let jump =
      decode_loop jumps buffer_len buffer buffer_len name_len target name true
        (if jumped then offset else (pos + 2) % 2 ^ 16) in
    let (pos', name') =
      copy_label len buffer buffer_len name_len (pos + 1) (add_dot name_len name) in
    let next = decode_loop (suc jumps) fuel buffer buffer_len name_len pos' name' jumped offset in
    if not (ltb pos buffer_len)
    then (name, offset)
    else if len == 0
    then (name, if jumped then offset else (pos + 1) % 2 ^ 16)
    else if is_pointer len
    then jump
    else next

-- The decoded characters, and the new offset.
unfoldable pub decode_name : List ℕ → ℕ → ℕ → ℕ → List ℕ × ℕ
unfolding decode_loop
decode_name buffer buffer_len offset name_len =
    decode_loop 10 buffer_len buffer buffer_len name_len offset [] false offset

-- The loop of _dns_skip_name: the position behind the name. Every round moves on, so that `len`
-- rounds are enough.
unfoldable pub skip_loop : ℕ → List ℕ → ℕ → ℕ → Result ℕ
skip_loop zero buffer len pos = err format
skip_loop (suc fuel) buffer len pos =
    let label_len = get_or buffer pos 0 in
    let pos' = (pos + (1 + label_len)) % 2 ^ 16 in
    let next = skip_loop fuel buffer len pos' in
    if not (ltb pos len)
    then err format
    else if is_pointer label_len
    then ok ((pos + 2) % 2 ^ 16)
    else if label_len == 0
    then ok ((pos + 1) % 2 ^ 16)
    else if leb len pos'
    then err format
    else next

unfoldable pub skip_name : List ℕ → ℕ → ℕ → Result ℕ
unfolding skip_loop
skip_name buffer len pos = if leb len pos then err invalid_param else skip_loop len buffer len pos
