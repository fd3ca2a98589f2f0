-- ===== src/Driver/Buffers/Layout.antt =====
-- How the queued segments lie in a socket's buffer, and where the next one is placed.
use wiznet_driver.Base.{ℕ, ◌+◌, ◌^◌, ◌≡◌, ◌<◌, ◌≤◌, ◌⊎◌, inl, inr, arith}
use wiznet_driver.Base.{List, [], ◌∷◌, ◌++◌, All}
use wiznet_driver.Base.Int.{pos, negsuc}
use wiznet_driver.Driver.{Segment}
use wiznet_driver.Driver.Buffers.{place}

-- The segments lie one behind the other between `lo` and `hi`, in the order of the list.
abbrev pub IsChain : ℕ → List Segment → ℕ → Type 0
IsChain lo [] hi = lo ≤ hi
IsChain lo (g ∷ gs) hi =
    (lo ≤ g.start_index) × (g.start_index < g.end_index) × IsChain g.end_index gs hi

-- Where the last segment ends.
abbrev pub last_end : ℕ → List Segment → ℕ
last_end lo [] = lo
last_end lo (g ∷ gs) = last_end g.end_index gs

-- The `len` bytes from `i` on share none with the segment.
abbrev pub IsApart : ℕ → ℕ → Segment → Type 0
IsApart i len g = (i + len ≤ g.start_index) ⊎ (g.end_index ≤ i)

pub chain-bounds :
    (gs : List Segment) (lo hi : ℕ)
    → IsChain lo gs hi
    → (lo ≤ last_end lo gs) × (last_end lo gs ≤ hi)
chain-bounds [] lo hi c = omega arith
chain-bounds (g ∷ gs) lo hi c = omega (arith, chain-bounds gs g.end_index hi c.2)

pub behind-IsApart :
    (gs : List Segment) (lo hi i len : ℕ)
    → IsChain lo gs hi
    → last_end lo gs ≤ i
    → All (IsApart i len) gs
behind-IsApart [] lo hi i len c h = tt
behind-IsApart (g ∷ gs) lo hi i len c h = (
  inr (omega (arith, chain-bounds gs g.end_index hi c.2)),
  behind-IsApart gs g.end_index hi i len c.2 h,
)

pub before-IsApart :
    (gs : List Segment) (lo hi i len : ℕ) → IsChain lo gs hi → i + len ≤ lo → All (IsApart i len) gs
before-IsApart [] lo hi i len c h = tt
before-IsApart (g ∷ gs) lo hi i len c h =
    (inl (omega arith), before-IsApart gs g.end_index hi i len c.2 (omega arith))

pub All-append :
    (P : Segment → Type 0) (xs ys : List Segment) → All P xs → All P ys → All P (xs ++ ys)
All-append P [] ys p q = q
All-append P (x ∷ xs) ys p q = (p.0, All-append P xs ys p.1 q)

-- What the choice does where the data does not wrap, and where it wraps and leaves room.
pub place-unwrapped :
    (s e buf_len len i : ℕ)
    → s < e
    → e ≤ buf_len
    → buf_len < 2 ^ 15
    → place (pos s) (pos e) buf_len len ≡ pos i
    → ((i ≡ e) × (e + len ≤ buf_len)) ⊎ ((i ≡ 0) × (len ≤ s))
unfolding place
place-unwrapped s e buf_len len i se el small p = ground arith

-- Between indices that are not negative, the one negative answer is -1.
pub place-minus_one : (s e buf_len len n : ℕ) → place (pos s) (pos e) buf_len len ≡ negsuc n → n ≡ 0
unfolding place
place-minus_one s e buf_len len n p = ground arith

pub place-wrapped :
    (s e buf_len len i : ℕ)
    → e < s
    → place (pos s) (pos e) buf_len len ≡ pos i
    → (i ≡ e) × (e + len ≤ s)
unfolding place
place-wrapped s e buf_len len i es p = ground arith
