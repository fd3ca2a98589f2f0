-- ===== src/Dns/Name/Decoded.antt =====
-- _dns_decode_name reads back what _dns_encode_name wrote, wherever it stands in a packet.
use wiznet_driver.Base.{ℕ, zero, suc, ◌+◌, ◌%◌, ◌^◌, ◌≡◌, ◌<◌, ◌≤◌, refl}
use wiznet_driver.Base.{◌∙◌, arith, true, false, not, ltb}
use wiznet_driver.Base.{if◌then◌else◌, some, List, [], ◌∷◌, ◌++◌, length, drop, get_or, All}
use wiznet_driver.Base.{append-nil, append_assoc, length-append}
use wiznet_driver.Base.Bits.{holds_below, holds_below_at}
use wiznet_driver.Dns.Result.{ok}
use wiznet_driver.Dns.Name.{is_valid_hostname, encode_name, is_pointer, copy_label, add_dot}
use wiznet_driver.Dns.Name.{decode_loop, decode_name}
use wiznet_driver.Dns.Name.Encoded.{split, wire, IsLabel, join, join-split, encode_name-wire}

-- One byte of a packet whose rest from `pos` on is known.
pub drop-cons :
    (pos : ℕ) (buffer : List ℕ) (x : ℕ) (r : List ℕ)
    → drop pos buffer ≡ x ∷ r
    → (get_or buffer pos 0 ≡ x) × (drop (pos + 1) buffer ≡ r)
drop-cons zero [] x r e = cc
drop-cons zero (y ∷ buffer) x r e = (ground arith, ground arith)
drop-cons (suc pos) [] x r e = cc
drop-cons (suc pos) (y ∷ buffer) x r e =
    let (a, b) = drop-cons pos buffer x r e in
    let shift : suc pos + 1 ≡ suc (pos + 1) = omega arith in (a, rw shift b)

plain_table : holds_below (λ x. not (is_pointer x)) 64 ≡ true
unfolding holds_below
plain_table = refl

pub label-not_pointer : (x : ℕ) → x < 64 → is_pointer x ≡ false
label-not_pointer x h = ground (arith, holds_below_at _ 64 plain_table x h)

abbrev dotted : List ℕ → List ℕ
dotted name = if ltb 0 (length name) then name ++ (b'.' ∷ []) else name

length-dotted : (name : List ℕ) → length name ≤ length (dotted name)
length-dotted name = ground (arith, length-append name (b'.' ∷ []))

join-length :
    (ls : List (List ℕ)) (name l : List ℕ) → length (dotted name ++ l) ≤ length (join name (l ∷ ls))
join-length [] name l = omega arith
join-length (m ∷ ls) name l =
    let next : List ℕ = dotted name ++ l in
    omega (arith, join-length ls next m, length-append (dotted next) m, length-dotted next)

-- Where the label behind it fits, the dot does too.
add_dot-fits :
    (name_len : ℕ) (name l : List ℕ)
    → 0 < length l
    → length (dotted name ++ l) < name_len
    → add_dot name_len name ≡ dotted name
add_dot-fits name_len name l pos h =
    ground (arith, length-append (dotted name) l, length-append name (b'.' ∷ []))

module _ (buffer : List ℕ) (buffer_len name_len : ℕ) where
  copy_label-copies :
      (l rest : List ℕ) (pos : ℕ) (name : List ℕ)
      → drop pos buffer ≡ l ++ rest
      → pos + length l ≤ buffer_len
      → length name + length l < name_len
      → (copy_label (length l) buffer buffer_len name_len pos name ≡ (pos + length l, name ++ l))
        × (drop (pos + length l) buffer ≡ rest)
  unfolding copy_label
  copy_label-copies [] rest pos name e h k =
      let z : pos + 0 ≡ pos = omega arith in (rw (z, append-nil), rw z e)
  copy_label-copies (x ∷ l) rest pos name e h k =
      let (hd, tl) = drop-cons pos buffer x (l ++ rest) e in
      let (ih, left) =
        copy_label-copies l rest (pos + 1) (name ++ (x ∷ [])) tl (omega arith)
          (omega (arith, length-append name (x ∷ []))) in
      let on : pos + 1 + length l ≡ pos + length (x ∷ l) = omega arith in
      (ground (arith, ih, on, hd, append_assoc name (x ∷ []) l), rw (← on) left)

  -- What the labels add to a name, in characters.
  abbrev Fits : List ℕ → List (List ℕ) → Type 0
  Fits name ls = length (join name ls) < name_len

  decode_loop-wire :
      (ls : List (List ℕ)) (rest : List ℕ) (jumps fuel pos : ℕ) (name : List ℕ) (offset : ℕ)
      → All IsLabel ls
      → drop pos buffer ≡ wire ls ++ rest
      → pos + length (wire ls) ≤ buffer_len
      → length (wire ls) ≤ fuel
      → Fits name ls
      → decode_loop (suc jumps) fuel buffer buffer_len name_len pos name false offset
        ≡ (join name ls, (pos + length (wire ls)) % 2 ^ 16)
  unfolding decode_loop
  decode_loop-wire [] rest jumps zero pos name offset hl e hb hf hn = absurd (omega arith)
  decode_loop-wire [] rest jumps (suc fuel) pos name offset hl e hb hf hn =
      ground (arith, drop-cons pos buffer 0 rest e)
  decode_loop-wire (l ∷ ls) rest jumps zero pos name offset hl e hb hf hn = absurd (omega arith)
  decode_loop-wire (l ∷ ls) rest jumps (suc fuel) pos name offset hl e hb hf hn =
      let (hd, tl) = drop-cons pos buffer (length l) ((l ++ wire ls) ++ rest) e in
      let room = join-length ls name l in
      let dot = add_dot-fits name_len name l hl.0.0 (omega arith) in
      let (copied, left) =
        copy_label-copies l (wire ls ++ rest) (pos + 1) (dotted name)
          (tl ∙ append_assoc l (wire ls) rest) (omega (arith, length-append l (wire ls)))
          (omega (arith, length-append (dotted name) l)) in
      let ih =
        decode_loop-wire ls rest jumps fuel (pos + 1 + length l) (dotted name ++ l) offset hl.1 left
          (omega (arith, length-append l (wire ls))) (omega (arith, length-append l (wire ls)))
          hn in
      ground (arith, hd, dot, copied, ih, label-not_pointer (length l), length-append l (wire ls))

-- A valid host name that stands encoded at `pos` in a packet is decoded to itself, and the offset
-- moves behind it. The packet is shorter than 65536 bytes, and `name_len` leaves room for the name
-- and its NUL.
pub decode_name-encode_name :
    (hostname buffer bytes rest : List ℕ) (pos name_len : ℕ)
    → is_valid_hostname hostname ≡ true
    → encode_name (some hostname) ≡ ok bytes
    → drop pos buffer ≡ bytes ++ rest
    → pos + length bytes ≤ length buffer
    → length buffer < 2 ^ 16
    → length hostname < name_len
    → decode_name buffer (length buffer) pos name_len ≡ (hostname, pos + length bytes)
unfolding decode_name
decode_name-encode_name hostname buffer bytes rest pos name_len v e at_pos inside small room =
    let (labels, enc) = encode_name-wire hostname v in
    let ls : List (List ℕ) = split [] hostname in
    let same : wire ls ≡ bytes = ground (arith, enc, e) in
    let name = join-split [] hostname labels in
    decode_loop-wire buffer (length buffer) name_len ls rest 9 (length buffer) pos [] pos labels
      (rw same at_pos) (rw same inside) (rw same (omega arith)) (rw name room)
    ∙ ground (arith, name, same)
