-- ===== src/WebSocket/Base64.antt =====
-- ws_base64_encode and ws_generate_key.
use Prim.Native.Char.{code}
use Prim.Native.String.{String}
use wiznet_driver.Base.{ℕ, suc, ◌+◌, ◌*◌, ◌/◌, ◌%◌, ◌^◌, ◌≡◌, ◌<◌, ◌≤◌, ◌∙◌, refl, ap, arith}
use wiznet_driver.Base.{Bool, true, false, not, ◌&&◌, ◌==◌, if◌then◌else◌}
use wiznet_driver.Base.{List, [], ◌∷◌, length, take, drop, take-all, drop-all, ◌++◌, get_or, All}
use wiznet_driver.Base.Bits.{shr, low_bits, IsByte, holds_below, holds_below_at}

abbrev pub codes : String → List ℕ
codes String.[] = []
codes (String.◌∷◌ c s) = code c ∷ codes s

abbrev base64_table : List ℕ
base64_table = codes "ABCDEFGHIJKLMNOPQRSTUVWXYZabcdefghijklmnopqrstuvwxyz0123456789+/"

unfoldable pub base64_char : ℕ → ℕ
base64_char v = get_or base64_table v 0

-- One round of the loop: `two` and `three` say that the input reaches `i + 1` and `i + 2`.
unfoldable pub encode_group : ℕ → ℕ → ℕ → Bool → Bool → List ℕ → List ℕ
encode_group a b c two three rest =
    let triple = a * 2 ^ 16 + b * 2 ^ 8 + c in
    base64_char (low_bits (shr triple 18) 6)
    ∷ base64_char (low_bits (shr triple 12) 6)
    ∷ (if two then base64_char (low_bits (shr triple 6) 6) else b'=')
    ∷ (if three then base64_char (low_bits triple 6) else b'=')
    ∷ rest

-- The characters of all rounds. The list is the input from index `i` on; `i` goes up by three.
unfoldable pub encode_groups : List ℕ → List ℕ
unfolding encode_group
encode_groups [] = []
encode_groups (a ∷ []) = encode_group a 0 0 false false []
encode_groups (a ∷ b ∷ []) = encode_group a b 0 true false []
encode_groups (a ∷ b ∷ c ∷ rest) = encode_group a b c true true (encode_groups rest)

-- The output array: its index `j` has 16 bits, so that the characters from the 2^16th on, of which
-- there are fewer than 2^16, replace the first ones.
unfoldable pub base64_encode : List ℕ → List ℕ
unfolding encode_groups
base64_encode input =
    let written = encode_groups input in
    let again = drop (2 ^ 16) written in again ++ drop (length again) (take (2 ^ 16) written)

-- The reference decoder of RFC 4648: the place of each digit in the alphabet, four digits at a
-- time, with `=` for what is missing at the end.
index_of : ℕ → List ℕ → ℕ
index_of c [] = 0
index_of c (x ∷ xs) = if c == x then 0 else suc (index_of c xs)

digit : ℕ → ℕ
unfolding index_of
digit c = index_of c base64_table

pub base64_decode : List ℕ → List ℕ
unfolding digit
base64_decode [] = []
base64_decode (w ∷ []) = []
base64_decode (w ∷ x ∷ []) = []
base64_decode (w ∷ x ∷ y ∷ []) = []
base64_decode (w ∷ x ∷ y ∷ z ∷ rest) =
    let first = digit w * 4 + digit x / 16 in
    let second = digit x % 16 * 16 + digit y / 4 in
    let third = digit y % 4 * 64 + digit z in
    if y == b'='
    then first ∷ []
    else if z == b'='
    then first ∷ second ∷ []
    else first ∷ second ∷ third ∷ base64_decode rest

char_table :
    holds_below (λ v. (digit (base64_char v) == v) && not (base64_char v == b'=')) 64 ≡ true
unfolding holds_below digit base64_char
char_table = refl

digit-base64_char :
    (v : ℕ) → v < 64 → (digit (base64_char v) ≡ v) × ((base64_char v == b'=') ≡ false)
digit-base64_char v h = ground (arith, holds_below_at _ 64 char_table v h)

-- One group, decoded: with all three octets, with two, and with one.
group_decodes :
    (a b c : ℕ) (rest : List ℕ)
    → IsByte a
    → IsByte b
    → IsByte c
    → (base64_decode (encode_group a b c true true rest) ≡ a ∷ b ∷ c ∷ base64_decode rest)
      × (base64_decode (encode_group a b 0 true false []) ≡ a ∷ b ∷ [])
      × (base64_decode (encode_group a 0 0 false false []) ≡ a ∷ [])
unfolding base64_decode encode_group
group_decodes a b c rest ha hb hc = (
  ground (arith, digits (a * 2 ^ 16 + b * 2 ^ 8 + c)),
  ground (arith, digits (a * 2 ^ 16 + b * 2 ^ 8 + 0)),
  ground (arith, digits (a * 2 ^ 16 + 0 * 2 ^ 8 + 0)),
)
  where
    shown : ℕ → Type 0
    shown v = (digit (base64_char v) ≡ v) × ((base64_char v == b'=') ≡ false)

    digits :
        (t : ℕ)
        → shown (low_bits (shr t 18) 6)
          × shown (low_bits (shr t 12) 6)
          × shown (low_bits (shr t 6) 6)
          × shown (low_bits t 6)
    digits t = (
      digit-base64_char _ (omega arith),
      digit-base64_char _ (omega arith),
      digit-base64_char _ (omega arith),
      digit-base64_char _ (omega arith),
    )

base64_decode-encode_groups :
    (input : List ℕ) → All IsByte input → base64_decode (encode_groups input) ≡ input
unfolding encode_groups
base64_decode-encode_groups [] h = unfold base64_decode in refl
base64_decode-encode_groups (a ∷ []) (ha, h) =
    (group_decodes a 0 0 [] ha (omega arith) (omega arith)).2
base64_decode-encode_groups (a ∷ b ∷ []) (ha, (hb, h)) =
    (group_decodes a b 0 [] ha hb (omega arith)).1
base64_decode-encode_groups (a ∷ b ∷ c ∷ rest) (ha, (hb, (hc, hr))) =
    (group_decodes a b c (encode_groups rest) ha hb hc).0
    ∙ ap (λ l. a ∷ b ∷ c ∷ l) (base64_decode-encode_groups rest hr)

length-encode_groups : (input : List ℕ) → length (encode_groups input) ≡ (length input + 2) / 3 * 4
unfolding encode_groups encode_group
length-encode_groups [] = refl
length-encode_groups (a ∷ []) = refl
length-encode_groups (a ∷ b ∷ []) = refl
length-encode_groups (a ∷ b ∷ c ∷ rest) = omega (arith, length-encode_groups rest)

-- Up to 49152 bytes of input the index does not wrap.
unwrapped : (input : List ℕ) → length input ≤ 49152 → base64_encode input ≡ encode_groups input
unfolding base64_encode
unwrapped input h =
    let written = encode_groups input in
    let short : length written ≤ 2 ^ 16 = omega (arith, length-encode_groups input) in
    rw (drop-all (2 ^ 16) written short) (take-all (2 ^ 16) written short)

-- Decoding what was encoded gives the bytes back, where there are at most 49152 of them.
pub base64_decode-base64_encode :
    (input : List ℕ)
    → length input ≤ 49152
    → All IsByte input
    → base64_decode (base64_encode input) ≡ input
base64_decode-base64_encode input h bytes =
    ap base64_decode (unwrapped input h) ∙ base64_decode-encode_groups input bytes

-- The output has four characters for every three input bytes or fewer.
pub length-base64_encode :
    (input : List ℕ)
    → length input ≤ 49152
    → length (base64_encode input) ≡ (length input + 2) / 3 * 4
length-base64_encode input h = ap length (unwrapped input h) ∙ length-encode_groups input
