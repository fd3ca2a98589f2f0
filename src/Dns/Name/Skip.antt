-- ===== src/Dns/Name/Skip.antt =====
-- _dns_skip_name goes to where a name ends, and both loops over names end by their own tests.
use wiznet_driver.Base.{ℕ, zero, suc, ◌+◌, ◌%◌, ◌^◌, ◌≡◌, ◌<◌, ◌≤◌, refl, ◌∙◌, arith}
use wiznet_driver.Base.{Bool, true}
use wiznet_driver.Base.{
  some, List, [], ◌∷◌, ◌++◌, length, drop, get_or, All, length-append, append_assoc,
}
use wiznet_driver.Dns.Result.{ok}
use wiznet_driver.Dns.Name.{is_valid_hostname, encode_name, copy_label, add_dot}
use wiznet_driver.Dns.Name.{decode_loop, skip_loop, skip_name}
use wiznet_driver.Dns.Name.Encoded.{split, wire, IsLabel, encode_name-wire}
use wiznet_driver.Dns.Name.Decoded.{drop-cons, label-not_pointer}

drop-append :
    (l : List ℕ) (buffer r : List ℕ) (pos : ℕ)
    → drop pos buffer ≡ l ++ r
    → drop (pos + length l) buffer ≡ r
drop-append [] buffer r pos e = let z : pos + 0 ≡ pos = omega arith in rw z e
drop-append (x ∷ l) buffer r pos e =
    let on : pos + length (x ∷ l) ≡ pos + 1 + length l = omega arith in
    rw on (drop-append l buffer r (pos + 1) (drop-cons pos buffer x (l ++ r) e).1)

wire_pos : (ls : List (List ℕ)) → 0 < length (wire ls)
wire_pos [] = omega arith
wire_pos (l ∷ ls) = omega arith

skip_loop-wire :
    (ls : List (List ℕ)) (buffer rest : List ℕ) (len fuel pos : ℕ)
    → All IsLabel ls
    → drop pos buffer ≡ wire ls ++ rest
    → pos + length (wire ls) ≤ len
    → len < 2 ^ 16
    → length (wire ls) ≤ fuel
    → skip_loop fuel buffer len pos ≡ ok ((pos + length (wire ls)) % 2 ^ 16)
unfolding skip_loop
skip_loop-wire ls buffer rest len zero pos hl e hb hs hf = absurd (omega (arith, wire_pos ls))
skip_loop-wire [] buffer rest len (suc fuel) pos hl e hb hs hf =
    ground (arith, drop-cons pos buffer 0 rest e)
skip_loop-wire (l ∷ ls) buffer rest len (suc fuel) pos hl e hb hs hf =
    let (hd, tl) = drop-cons pos buffer (length l) ((l ++ wire ls) ++ rest) e in
    let left =
      drop-append l buffer (wire ls ++ rest) (pos + 1) (tl ∙ append_assoc l (wire ls) rest) in
    let wl = length-append l (wire ls) in
    let ih =
      skip_loop-wire ls buffer rest len fuel (pos + 1 + length l) hl.1 left (omega arith) hs
        (omega arith) in
    let there : (pos + (1 + get_or buffer pos 0)) % 2 ^ 16 ≡ pos + 1 + length l = omega arith in
    let more : pos + 1 + length l < len = omega (arith, wire_pos ls) in
    ground (arith, hd, there, ih, label-not_pointer (length l))

-- Skipping a valid host name that stands encoded at `pos` in the first `len` bytes of a packet goes
-- to the byte behind it, where `len` is below 65536.
pub skip_name-encode_name :
    (hostname buffer bytes rest : List ℕ) (len pos : ℕ)
    → is_valid_hostname hostname ≡ true
    → encode_name (some hostname) ≡ ok bytes
    → drop pos buffer ≡ bytes ++ rest
    → pos + length bytes ≤ len
    → len < 2 ^ 16
    → skip_name buffer len pos ≡ ok (pos + length bytes)
unfolding skip_name
skip_name-encode_name hostname buffer bytes rest len pos v e at_pos inside small =
    let (labels, enc) = encode_name-wire hostname v in
    let ls : List (List ℕ) = split [] hostname in
    let same : wire ls ≡ bytes = ground (arith, enc, e) in
    let full = wire_pos ls in
    let loop =
      skip_loop-wire ls buffer rest len len pos labels (rw same at_pos) (rw same inside) small
        (rw same (omega arith)) in
    ground (arith, loop, same, full)

copy_label-moves :
    (left : ℕ) (buffer : List ℕ) (buffer_len name_len pos : ℕ) (name : List ℕ)
    → pos ≤ (copy_label left buffer buffer_len name_len pos name).0
unfolding copy_label
copy_label-moves zero buffer buffer_len name_len pos name = omega arith
copy_label-moves (suc left) buffer buffer_len name_len pos name = ground (
  arith,
  copy_label-moves left buffer buffer_len name_len (pos + 1) (name ++ (get_or buffer pos 0 ∷ [])),
)

-- The loop of _dns_decode_name ends by its own test on every packet: any two numbers of rounds
-- that reach from `pos` to the end of the packet give the same, whatever jumps lie between.
decode_loop-enough :
    (f g jumps : ℕ) (buffer : List ℕ) (buffer_len name_len pos : ℕ) (name : List ℕ) (jumped : Bool)
    (offset : ℕ)
    → buffer_len ≤ pos + f
    → buffer_len ≤ pos + g
    → decode_loop (suc jumps) f buffer buffer_len name_len pos name jumped offset
      ≡ decode_loop (suc jumps) g buffer buffer_len name_len pos name jumped offset
unfolding decode_loop
decode_loop-enough zero zero jumps buffer buffer_len name_len pos name jumped offset h k = refl
decode_loop-enough zero (suc g) jumps buffer buffer_len name_len pos name jumped offset h k =
    ground arith
decode_loop-enough (suc f) zero jumps buffer buffer_len name_len pos name jumped offset h k =
    ground arith
decode_loop-enough (suc f) (suc g) jumps buffer buffer_len name_len pos name jumped offset h k =
    let r =
      copy_label (get_or buffer pos 0) buffer buffer_len name_len (pos + 1)
        (add_dot name_len name) in
    let on =
      copy_label-moves (get_or buffer pos 0) buffer buffer_len name_len (pos + 1)
        (add_dot name_len name) in
    ground (
      arith,
      decode_loop-enough f g jumps buffer buffer_len name_len r.0 r.1 jumped offset (omega arith)
          (omega arith),
    )

-- The loop of _dns_skip_name too: any two numbers of rounds that reach the end of a packet of less
-- than 65000 bytes give the same, the bytes of the packet being below 256.
skip_loop-enough :
    (f g : ℕ) (buffer : List ℕ) (len pos : ℕ)
    → ((i : ℕ) → get_or buffer i 0 < 256)
    → len < 65000
    → len ≤ pos + f
    → len ≤ pos + g
    → skip_loop f buffer len pos ≡ skip_loop g buffer len pos
unfolding skip_loop
skip_loop-enough zero zero buffer len pos b s h k = refl
skip_loop-enough zero (suc g) buffer len pos b s h k = ground arith
skip_loop-enough (suc f) zero buffer len pos b s h k = ground arith
skip_loop-enough (suc f) (suc g) buffer len pos b s h k =
    ground (
      arith,
      b pos,
      skip_loop-enough f g buffer len ((pos + (1 + get_or buffer pos 0)) % 2 ^ 16) b s,
    )
