-- ===== src/WebSocket/Frame/Masking.antt =====
-- Masking is its own inverse.
use wiznet_driver.Base.{ℕ, zero, suc, ◌+◌, ◌%◌, ◌≡◌, refl, ap₂, bit_xor, arith}
use wiznet_driver.Base.{true, ◌==◌, ==_iff, List, [], ◌∷◌, length, get_or, All}
use wiznet_driver.Base.Bits.{IsByte, holds_below, holds_below_at}
use wiznet_driver.WebSocket.Frame.{mask_from, mask_payload}

xor_table : holds_below (λ a. holds_below (λ b. bit_xor (bit_xor a b) b == a) 256) 256 ≡ true
unfolding holds_below
xor_table = refl

pub xor_twice : (a b : ℕ) → IsByte a → IsByte b → bit_xor (bit_xor a b) b ≡ a
xor_twice a b ha hb =
    (==_iff _ a).0 (holds_below_at _ 256 (holds_below_at _ 256 xor_table a ha) b hb)

get_or-IsByte : (key : List ℕ) (i : ℕ) → All IsByte key → IsByte (get_or key i 0)
get_or-IsByte [] i h = omega arith
get_or-IsByte (k ∷ key) zero h = h.0
get_or-IsByte (k ∷ key) (suc i) h = get_or-IsByte key i h.1

pub mask_from-mask_from :
    (i : ℕ) (key payload : List ℕ)
    → All IsByte key
    → All IsByte payload
    → mask_from i key (mask_from i key payload) ≡ payload
unfolding mask_from
mask_from-mask_from i key [] hk hp = refl
mask_from-mask_from i key (b ∷ payload) hk (hb, hp) =
    ap₂ ◌∷◌ (xor_twice b (get_or key (i % 4) 0) hb (get_or-IsByte key (i % 4) hk))
      (mask_from-mask_from (i + 1) key payload hk hp)

-- Masking a payload of bytes twice with one key of bytes gives the payload back.
pub mask_payload-mask_payload :
    (payload key : List ℕ)
    → All IsByte payload
    → All IsByte key
    → mask_payload (mask_payload payload key) key ≡ payload
unfolding mask_payload
mask_payload-mask_payload payload key hp hk = mask_from-mask_from 0 key payload hk hp

pub length-mask_from :
    (i : ℕ) (key payload : List ℕ) → length (mask_from i key payload) ≡ length payload
unfolding mask_from
length-mask_from i key [] = refl
length-mask_from i key (b ∷ payload) = omega (arith, length-mask_from (i + 1) key payload)
