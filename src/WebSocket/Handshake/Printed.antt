-- ===== src/WebSocket/Handshake/Printed.antt =====
-- What the request of the opening handshake says.
use wiznet_driver.Base.{
  ℕ, zero, suc, ◌+◌, ◌*◌, ◌-◌, ◌/◌, ◌%◌, ◌^◌, ◌≡◌, ◌<◌, ◌≤◌, refl, ap, ◌∙◌, arith,
}
use wiznet_driver.Base.{
  List, [], ◌∷◌, ◌++◌, length, length-append, take-all, ltb, Bool-cases, inl, inr,
}
use native.Mathlib.Nat.{pow-suc}
use wiznet_driver.Base.{All}
use wiznet_driver.Base.Bits.{IsByte}
use wiznet_driver.WebSocket.Client.{Config}
use wiznet_driver.WebSocket.Handshake.{decimal, concat, pieces, request, handshake}

-- The number that a text of digits stands for, read from the left.
read_decimal : ℕ → List ℕ → ℕ
read_decimal acc [] = acc
read_decimal acc (c ∷ cs) = read_decimal (acc * 10 + (c - 48)) cs

read_decimal-append :
    (acc : ℕ) (xs ys : List ℕ) → read_decimal acc (xs ++ ys) ≡ read_decimal (read_decimal acc xs) ys
unfolding read_decimal
read_decimal-append acc [] ys = refl
read_decimal-append acc (x ∷ xs) ys = read_decimal-append (acc * 10 + (x - 48)) xs ys

-- A number that has at most that many digits is printed as itself.
read_decimal-decimal : (digits n : ℕ) → n < 10 ^ digits → read_decimal 0 (decimal digits n) ≡ n
unfolding decimal read_decimal
read_decimal-decimal zero n small = omega arith
read_decimal-decimal (suc digits) n small = elim (Bool-cases (ltb n 10)) [
  | inl e ↦ rw e (ground arith)
  | inr e ↦ rw e (
      read_decimal-append 0 (decimal digits (n / 10)) ((48 + n % 10) ∷ [])
      ∙ ap (λ k. k * 10 + (48 + n % 10 - 48))
          (read_decimal-decimal digits (n / 10) (omega (arith, pow-suc 10 digits)))
      ∙ omega arith)
]

-- It has no more digits than it needs.
length-decimal : (digits k n : ℕ) → n < 10 ^ k → 0 < k → length (decimal digits n) ≤ k
unfolding decimal
length-decimal zero k n small pos = omega arith
length-decimal (suc digits) zero n small pos = absurd (omega arith)
length-decimal (suc digits) (suc k) n small pos = elim (Bool-cases (ltb n 10)) [
  | inl e ↦ rw e (omega arith)
  | inr e ↦ rw e (
      omega (
        arith,
        length-append (decimal digits (n / 10)) ((48 + n % 10) ∷ []),
        length-decimal digits k (n / 10) (omega (arith, pow-suc 10 k))
            (more k (ground arith) small),
      ))
]
  where
    more : (k : ℕ) → 10 ≤ n → n < 10 ^ suc k → 0 < k
    more zero big small = absurd (omega arith)
    more (suc k) big small = omega arith

-- The lengths of the pieces, added up.
abbrev total : List (List ℕ) → ℕ
total [] = 0
total (part ∷ parts) = length part + total parts

length-concat : (parts : List (List ℕ)) → length (concat parts) ≡ total parts
length-concat [] = refl
length-concat (part ∷ parts) = omega (arith, length-append part (concat parts), length-concat parts)

-- The request is sent whole, up to its empty line, for a path of at most 352 characters, a port of
-- 16 bits, an address of four bytes and a key of 24 characters.
pub handshake-whole :
    (c : Config) (key : List ℕ) (a b d e : ℕ)
    → c.host ≡ a ∷ b ∷ d ∷ e ∷ []
    → All IsByte (a ∷ b ∷ d ∷ e ∷ [])
    → c.port < 2 ^ 16
    → length key ≡ 24
    → length c.path ≤ 352
    → handshake c key ≡ concat (pieces c key)
unfolding handshake request
handshake-whole c key a b d e host bytes port key_len path = take-all 511 (concat (pieces c key)) (
    rw host (
      omega (
        arith,
        length-concat (pieces (record c { host = a ∷ b ∷ d ∷ e ∷ [] }) key),
        length-decimal 5 3 a (omega arith) (omega arith),
        length-decimal 5 3 b (omega arith) (omega arith),
        length-decimal 5 3 d (omega arith) (omega arith),
        length-decimal 5 3 e (omega arith) (omega arith),
        length-decimal 5 5 c.port (omega arith) (omega arith),
      )))
