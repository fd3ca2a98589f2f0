-- ===== src/Queue/Valid.antt =====
-- The representation invariant of the queue, and that every operation keeps it.
use wiznet_driver.Base.{ℕ, ◌+◌, ◌-◌, ◌%◌, ◌^◌, ◌≤◌, ◌<◌, ◌≡◌, ◌⊎◌, inl, inr, arith}
use native.Mathlib.Decide.{dec_lt}
use native.Mathlib.Nat.{mod-eq_of_lt, mod-eq-sub-mod}
use wiznet_driver.Queue.{Queue, before, init, clear, push_back, push_front, pop_front, pop_back}

-- `head` and `tail` are `count` apart, round the array.
pub record IsValid {A C : Type 0} (size : ℕ) (q : Queue A C) : Type 0 where
  pub fits : size < 2 ^ 16
  pub head_in : q.head < size
  pub count_in : q.count ≤ size
  pub apart : q.tail ≡ (q.head + q.count) % size

-- The index `n` places past `h`, without `%`.
pub wrapped :
    (size h n : ℕ)
    → h < size
    → n ≤ size
    → ((h + n < size) × ((h + n) % size ≡ h + n))
      ⊎ ((size ≤ h + n) × ((h + n) % size ≡ h + n - size))
wrapped size h n hh hn = elim (dec_lt (h + n) size) [
  | yes p ↦ inl (p, mod-eq_of_lt p)
  | no p ↦ inr (
    omega arith,
    omega (
      arith,
      mod-eq-sub-mod {n = h + n} {m = size} (omega arith),
      mod-eq_of_lt {n = h + n - size} {m = size} (omega arith),
    ),
  )
]

module _ {A C : Type 0} (size : ℕ) (q : Queue A C) where
  -- `queueInit` gives a valid empty queue.
  pub init-IsValid : 0 < size → size < 2 ^ 16 → IsValid size (init q) × ((init q).count ≡ 0)
  unfolding init
  init-IsValid pos small = omega (arith, mod-eq_of_lt {n = 0 + 0} {m = size} (omega arith))

  pub clear-IsValid : IsValid size q → IsValid size (clear q)
  unfolding clear
  clear-IsValid v = omega (arith, mod-eq_of_lt {n = 0 + 0} {m = size} (omega arith))

  pub push_back-IsValid : (x : A) → IsValid size q → IsValid size (push_back size q x).queue
  unfolding push_back
  push_back-IsValid x v =
      ground (
        arith,
        wrapped size q.head q.count,
        wrapped size q.tail 1,
        wrapped size q.head (q.count + 1),
      )

  pub push_front-IsValid : (x : A) → IsValid size q → IsValid size (push_front size q x).queue
  unfolding push_front
  push_front-IsValid x v =
      ground (arith, wrapped size q.head q.count, wrapped size (before size q.head) (q.count + 1))

  pub pop_front-IsValid : IsValid size q → IsValid size (pop_front size q).1
  unfolding pop_front
  pop_front-IsValid v = ground (
    arith,
    wrapped size q.head q.count,
    wrapped size q.head 1,
    wrapped size ((q.head + 1) % size) (q.count - 1),
  )

  pub pop_back-IsValid : IsValid size q → IsValid size (pop_back size q).1
  unfolding pop_back
  pop_back-IsValid v =
      ground (arith, wrapped size q.head q.count, wrapped size q.head (q.count - 1))
