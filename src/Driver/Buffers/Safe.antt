-- ===== src/Driver/Buffers/Safe.antt =====
-- getTXBufferIndex and getRXBufferIndex place data where no queued segment lies.
use wiznet_driver.Base.{
  ℕ, ◌+◌, ◌-◌, ◌^◌, ◌≡◌, ◌≢◌, ◌<◌, ◌≤◌, ◌⊎◌, inl, inr, arith, refl, sym, ap, ap₂, ◌∙◌,
}
use wiznet_driver.Base.{List, [], ◌∷◌, ◌++◌, All, length, leb, ◌==◌, if◌then◌else◌}
use wiznet_driver.Base.{false}
use wiznet_driver.Base.Int.{pos, minus_one, to_int16}
use wiznet_driver.Queue.{Queue, before}
use wiznet_driver.Queue.Valid.{IsValid}
use wiznet_driver.Queue.Window.{contents, length-window, window, window_pos}
use wiznet_driver.Queue.Refine.{contents-snoc}
use wiznet_driver.Driver.{Segment, QueueCallback, socket_queue_size}
use wiznet_driver.Driver.Buffers.{place, buffer_index}
use wiznet_driver.Driver.Buffers.Layout.{IsChain, last_end, IsApart, chain-bounds, behind-IsApart}
use wiznet_driver.Driver.Buffers.Layout.{before-IsApart, All-append, place-unwrapped, place-wrapped}

last_end-snoc :
    (gs : List Segment) (g : Segment) (lo : ℕ) → last_end lo (gs ++ (g ∷ [])) ≡ g.end_index
last_end-snoc [] g lo = refl
last_end-snoc (x ∷ gs) g lo = last_end-snoc gs g x.end_index

last_end-append :
    (xs ys : List Segment) (lo : ℕ) → last_end lo (xs ++ ys) ≡ last_end (last_end lo xs) ys
last_end-append [] ys lo = refl
last_end-append (x ∷ xs) ys lo = last_end-append xs ys x.end_index

abbrev first : Segment → List Segment → Segment
first d [] = d
first d (x ∷ xs) = x

-- The queued segments lie in the buffer: first those of `f ∷ a`, then, from the buffer's start on
-- and before `f`, those of `b`.
pub record IsLayout (q : Queue Segment QueueCallback) (buf_len : ℕ) (f : Segment)
    (a b : List Segment) : Type 0 where
  pub queue-IsValid : IsValid socket_queue_size q
  pub queued : contents socket_queue_size q ≡ (f ∷ a) ++ b
  pub front_part : IsChain 0 (f ∷ a) buf_len
  pub wrapped_part : IsChain 0 b f.start_index
  pub small : buf_len < 2 ^ 15

module _ (q : Queue Segment QueueCallback) (buf_len : ℕ) (f : Segment) (a b : List Segment)
    (r : IsLayout q buf_len f a b) where
  pub nonempty : q.count ≢ 0
  nonempty e =
      omega (arith, ap length r.queued, length-window socket_queue_size q.slots q.head q.count)

  pub front_eq : q.slots q.head ≡ f
  front_eq =
      ap (first f) (sym (window_pos socket_queue_size q.slots q.head q.count nonempty) ∙ r.queued)

  pub back_eq :
      (q.slots (before socket_queue_size q.tail)).end_index ≡ last_end (last_end f.end_index a) b
  back_eq =
      sym (
        last_end-snoc (window socket_queue_size q.slots q.head (q.count - 1))
          (q.slots (before socket_queue_size q.tail)) 0)
      ∙ ap (last_end 0)
          (sym (contents-snoc socket_queue_size q r.queue-IsValid nonempty) ∙ r.queued)
      ∙ last_end-append (f ∷ a) b 0

  pub index_eq :
      (len : ℕ)
      → buffer_index q buf_len len
        ≡ place (pos f.start_index) (pos (last_end (last_end f.end_index a) b)) buf_len len
  unfolding buffer_index
  index_eq len =
      let bounds = chain-bounds a f.end_index buf_len r.front_part.2 in
      let wrapped_bounds = chain-bounds b 0 f.start_index r.wrapped_part in
      let count_eq : (q.count == 0) ≡ false = ground (arith, nonempty) in
      let start : to_int16 (q.slots q.head).start_index ≡ pos f.start_index =
        rw front_eq (ground arith) in
      let end : to_int16 (q.slots (before socket_queue_size q.tail)).end_index
          ≡ pos (last_end (last_end f.end_index a) b) =
        rw back_eq (ground (arith, back_small b r.wrapped_part)) in
      ap
        (λ t.
          if t
          then (if leb len buf_len then pos 0 else minus_one)
          else place (to_int16 (q.slots q.head).start_index)
              (to_int16 (q.slots (before socket_queue_size q.tail)).end_index) buf_len len)
        count_eq
      ∙ ap₂ (λ s e. place s e buf_len len) start end
    where
      back_small :
          (c : List Segment)
          → IsChain 0 c f.start_index
          → last_end (last_end f.end_index a) c < 2 ^ 15
      back_small [] e = omega (arith, chain-bounds a f.end_index buf_len r.front_part.2)
      back_small (g ∷ gs) e = omega (
        arith,
        chain-bounds (g ∷ gs) 0 f.start_index e,
        chain-bounds a f.end_index buf_len r.front_part.2,
      )

module _ (q : Queue Segment QueueCallback) (buf_len : ℕ) (f : Segment) (a : List Segment)
    (len i : ℕ) where
  -- Where nothing wraps.
  unwrapped-safe :
      IsLayout q buf_len f a []
      → buffer_index q buf_len len ≡ pos i
      → (i + len ≤ buf_len) × All (IsApart i len) ((f ∷ a) ++ [])
  unwrapped-safe r p =
      let bounds = chain-bounds a f.end_index buf_len r.front_part.2 in
      elim (place-unwrapped f.start_index (last_end f.end_index a) buf_len len i (omega arith)
        (omega arith) r.small (sym (index_eq q buf_len f a [] r len) ∙ p)) [
          | inl h ↦ (
            omega arith,
            All-append (IsApart i len) (f ∷ a) []
                (behind-IsApart (f ∷ a) 0 buf_len i len r.front_part (omega arith)) tt,
          )
          | inr h ↦ (
            omega arith,
            All-append (IsApart i len) (f ∷ a) []
                (before-IsApart (f ∷ a) f.start_index buf_len i len
                  (omega arith, r.front_part.1, r.front_part.2) (omega arith))
                tt,
          )
        ]

  -- Where the data wraps and leaves room before the front.
  wrapped-safe :
      (b : List Segment) (g : Segment)
      → IsLayout q buf_len f a (g ∷ b)
      → last_end 0 (g ∷ b) < f.start_index
      → buffer_index q buf_len len ≡ pos i
      → (i + len ≤ buf_len) × All (IsApart i len) ((f ∷ a) ++ (g ∷ b))
  wrapped-safe b g r room p =
      let bounds = chain-bounds a f.end_index buf_len r.front_part.2 in
      let (at_end, fits) =
        place-wrapped f.start_index (last_end 0 (g ∷ b)) buf_len len i room
          (sym (index_eq q buf_len f a (g ∷ b) r len) ∙ p) in
      (
        omega arith,
        All-append (IsApart i len) (f ∷ a) (g ∷ b)
            (before-IsApart (f ∷ a) f.start_index buf_len i len
              (omega arith, r.front_part.1, r.front_part.2) (omega arith))
            (behind-IsApart (g ∷ b) 0 f.start_index i len r.wrapped_part (omega arith)),
      )

-- The index that is chosen for `len` bytes in a buffer of less than 2^15 bytes leaves room for them
-- in the buffer, and they share no byte with a queued segment, as long as the wrapped segments do
-- not reach up to the front segment.
pub buffer_index-IsApart :
    (q : Queue Segment QueueCallback) (buf_len : ℕ) (f : Segment) (a b : List Segment) (len i : ℕ)
    → IsLayout q buf_len f a b
    → (b ≡ []) ⊎ (last_end 0 b < f.start_index)
    → buffer_index q buf_len len ≡ pos i
    → (i + len ≤ buf_len) × All (IsApart i len) (contents socket_queue_size q)
buffer_index-IsApart q buf_len f a [] len i r room p =
    let (inside, apart) = unwrapped-safe q buf_len f a len i r p in (inside, rw r.queued apart)
buffer_index-IsApart q buf_len f a (g ∷ b) len i r room p =
    let (inside, apart) = wrapped-safe q buf_len f a len i b g r (ground (arith, room)) p in
    (inside, rw r.queued apart)

-- Where they do reach up to it, the buffer is taken for one that does not wrap: with `len` bytes or
-- more behind the front's start, the index is that of the front segment, which is still queued.
pub buffer_index-overlaps :
    (q : Queue Segment QueueCallback) (buf_len : ℕ) (f : Segment) (a b : List Segment) (g : Segment)
    (len : ℕ)
    → IsLayout q buf_len f a (g ∷ b)
    → last_end 0 (g ∷ b) ≡ f.start_index
    → f.start_index + len ≤ buf_len
    → buffer_index q buf_len len ≡ pos f.start_index
unfolding place
buffer_index-overlaps q buf_len f a b g len r full fits =
    index_eq q buf_len f a (g ∷ b) r len ∙ ground (arith, r.small)
