-- ===== src/Base/Bits.antt =====
-- Masks, shifts and words on the native numbers.
use Prim.Native.Nat.{ℕ, zero, suc, ◌+◌, ◌*◌, ◌/◌, ◌%◌, ◌^◌, ◌<◌}
use mathlib.Core.Path.{◌≡◌}
use mathlib.Core.Bool.{Bool, true, ◌&&◌}
use native.Mathlib.Omega.{arith}

-- `x >> k` and `x & (2^k - 1)`.
abbrev pub shr : ℕ → ℕ → ℕ
shr x k = x / 2 ^ k

abbrev pub low_bits : ℕ → ℕ → ℕ
low_bits x k = x % 2 ^ k

-- `(a << 8) | b` for two bytes.
abbrev pub be16 : ℕ → ℕ → ℕ
be16 a b = a * 256 + b

abbrev pub IsByte : ℕ → Type 0
IsByte b = b < 256

-- A Boolean test at every number below a bound, and the check of it by evaluation.
unfoldable pub holds_below : (ℕ → Bool) → ℕ → Bool
holds_below test zero = true
holds_below test (suc bound) = holds_below test bound && test bound

pub holds_below_at :
    (test : ℕ → Bool) (bound : ℕ)
    → holds_below test bound ≡ true
    → (x : ℕ) → x < bound
    → test x ≡ true
unfolding holds_below
holds_below_at test zero all x below = absurd (omega arith)
holds_below_at test (suc bound) all x below =
    let earlier : holds_below test bound ≡ true → x < bound → test x ≡ true =
      λ h. holds_below_at test bound h x in
    ground (arith, earlier)
