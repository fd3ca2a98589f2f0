-- ===== src/Memory.antt =====
-- Memory that the driver reaches through pointers: the register copies, which are packed structs of
-- bytes, and the buffers that the application hands over. A region is a function of the offset.
use wiznet_driver.Base.{
  ℕ, zero, suc, ◌+◌, ◌-◌, ◌%◌, ◌^◌, ◌≡◌, ◌<◌, ◌≤◌, ◌⊎◌, inl, inr, refl, ap₂, ◌∙◌, arith,
}
use wiznet_driver.Base.{Bool, true, false, ◌==◌, if◌then◌else◌, List, [], ◌∷◌, length}

pub data Region : Type 0 where
  common_regs : Region
  socket_regs : ℕ → Region
  user : ℕ → Region

abbrev pub same_region : Region → Region → Bool
same_region common_regs common_regs = true
same_region (socket_regs m) (socket_regs n) = m == n
same_region (user m) (user n) = m == n
same_region _ _ = false

-- A pointer into a region; `none` where a null pointer may stand.
pub record Pointer : Type 0 where
  pub region : Region
  pub offset : ℕ

abbrev pub Memory : Type 0
Memory = Region → ℕ → ℕ

-- The bytes that go to `f` from index `i` on.
unfoldable pub write_bytes : (ℕ → ℕ) → ℕ → List ℕ → ℕ → ℕ
write_bytes f i [] = f
write_bytes f i (b ∷ bs) = write_bytes (λ j. if i == j then b else f j) (i + 1) bs

unfoldable pub read_bytes : (ℕ → ℕ) → ℕ → ℕ → List ℕ
read_bytes f i zero = []
read_bytes f i (suc n) = f i ∷ read_bytes f (i + 1) n

-- `memcpy` of bytes to a pointer, and of `n` bytes from one.
unfoldable pub store : Memory → Pointer → List ℕ → Memory
unfolding write_bytes
store m p bs r = if same_region p.region r then write_bytes (m r) p.offset bs else m r

unfoldable pub load : Memory → Pointer → ℕ → List ℕ
unfolding read_bytes
load m p n = read_bytes (m p.region) p.offset n

abbrev pub advance : Pointer → ℕ → Pointer
advance p n = record p { offset = p.offset + n }

-- `p - n`, where an address has 32 bits.
abbrev pub retreat : Pointer → ℕ → Pointer
retreat p n = record p { offset = (p.offset + 2 ^ 32 - n) % 2 ^ 32 }

-- A write leaves the bytes before it and behind it as they were.
pub write_bytes-outside :
    (f : ℕ → ℕ) (i : ℕ) (bs : List ℕ) (j : ℕ) → (j < i) → write_bytes f i bs j ≡ f j
unfolding write_bytes
write_bytes-outside f i [] j h = refl
write_bytes-outside f i (b ∷ bs) j h =
    write_bytes-outside (λ k. if i == k then b else f k) (i + 1) bs j (omega arith) ∙ ground arith

pub write_bytes-behind :
    (f : ℕ → ℕ) (i : ℕ) (bs : List ℕ) (j : ℕ) → i + length bs ≤ j → write_bytes f i bs j ≡ f j
unfolding write_bytes
write_bytes-behind f i [] j h = refl
write_bytes-behind f i (b ∷ bs) j h =
    write_bytes-behind (λ k. if i == k then b else f k) (i + 1) bs j (omega arith) ∙ ground arith

-- What was written is read back.
pub read_bytes-write_bytes :
    (f : ℕ → ℕ) (i : ℕ) (bs : List ℕ) → read_bytes (write_bytes f i bs) i (length bs) ≡ bs
unfolding read_bytes write_bytes
read_bytes-write_bytes f i [] = refl
read_bytes-write_bytes f i (b ∷ bs) =
    ap₂ ◌∷◌
      (write_bytes-outside (λ k. if i == k then b else f k) (i + 1) bs i (omega arith)
        ∙ ground arith)
      (read_bytes-write_bytes (λ k. if i == k then b else f k) (i + 1) bs)

same_region_refl : (r : Region) → same_region r r ≡ true
same_region_refl common_regs = refl
same_region_refl (socket_regs n) = ground arith
same_region_refl (user n) = ground arith

-- The same through pointers: what was stored is loaded, and a byte of the same region that lies
-- before or behind it is as it was.
pub load-store : (m : Memory) (p : Pointer) (bs : List ℕ) → load (store m p bs) p (length bs) ≡ bs
unfolding load store
load-store m p bs = rw (same_region_refl p.region) (read_bytes-write_bytes (m p.region) p.offset bs)

pub store-apart :
    (m : Memory) (p : Pointer) (i : ℕ) (bs : List ℕ) (k : ℕ)
    → (k < i) ⊎ (i + length bs ≤ k)
    → store m (advance p i) bs p.region (p.offset + k) ≡ m p.region (p.offset + k)
unfolding store
store-apart m p i bs k (inl h) =
    rw (same_region_refl p.region)
      (write_bytes-outside (m p.region) (p.offset + i) bs (p.offset + k) (omega arith))
store-apart m p i bs k (inr h) =
    rw (same_region_refl p.region)
      (write_bytes-behind (m p.region) (p.offset + i) bs (p.offset + k) (omega arith))
