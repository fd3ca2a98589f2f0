-- ===== src/Queue/Window.antt =====
-- The items of a circular queue as a list: windows into its array, and writes to it.
use wiznet_driver.Base.{ℕ, zero, suc, ◌+◌, ◌-◌, ◌%◌, ◌≤◌, ◌<◌, ◌≡◌, ◌≢◌, refl, sym, ap, ap₂, ◌∙◌}
use wiznet_driver.Base.{arith}
use wiznet_driver.Base.{some, List, [], ◌∷◌, ◌++◌, length, take, get_elem?}
use wiznet_driver.Base.{length-append, take-length-append}
use wiznet_driver.Queue.{Queue, update, before}
use wiznet_driver.Queue.Valid.{wrapped}
use wiznet_driver.Queue.Spec
use wiznet_driver.Queue.Spec.{Op, Reply, answer, op_push_back, op_push_front, op_pop_front}
use wiznet_driver.Queue.Spec.{op_pop_back, op_peek_front, op_peek_back, op_clear}

-- One step on, an index that is `m + 1` places away is `m` places away.
step_on : (size h m : ℕ) → h < size → m < size → ((h + 1) % size + m) % size ≡ (h + suc m) % size
step_on size h m hh hm = omega (
  arith,
  wrapped size h 1 hh (omega arith),
  wrapped size h (suc m) hh (omega arith),
  wrapped size ((h + 1) % size) m (omega arith) (omega arith),
)

module _ {A : Type 0} (size : ℕ) where
  -- the `n` items from index `h` on, going round at `size`
  abbrev pub window : (ℕ → A) → ℕ → ℕ → List A
  window f h zero = []
  window f h (suc n) = f h ∷ window f ((h + 1) % size) n

  pub length-window : (f : ℕ → A) (h n : ℕ) → length (window f h n) ≡ n
  length-window f h zero = refl
  length-window f h (suc n) = ap suc (length-window f ((h + 1) % size) n)

  -- A write `m` places past a window of at most `m` items leaves it alone.
  window-update :
      (f : ℕ → A) (x : A) (i n h m : ℕ)
      → h < size
      → m < size
      → n ≤ m
      → i ≡ (h + m) % size
      → window (update f i x) h n ≡ window f h n
  window-update f x i zero h m hh hm nm e = refl
  window-update f x i (suc n) h zero hh hm nm e = absurd (omega arith)
  window-update f x i (suc n) h (suc m) hh hm nm e =
      ap₂ ◌∷◌ (ground (arith, wrapped size h (suc m) hh)) (
        window-update f x i n ((h + 1) % size) m (omega arith) (omega arith) (omega arith)
          (e ∙ sym (step_on size h m hh (omega arith))))

  -- A window is one item shorter, and then the item behind it.
  pub window-snoc :
      (f : ℕ → A) (n h : ℕ)
      → h < size
      → n < size
      → window f h (suc n) ≡ window f h n ++ (f ((h + n) % size) ∷ [])
  window-snoc f zero h hh hn = ap (λ k. f k ∷ []) (omega (arith, wrapped size h 0 hh))
  window-snoc f (suc n) h hh hn =
      ap (λ l. f h ∷ l)
        (window-snoc f n ((h + 1) % size) (omega arith) (omega arith)
          ∙ ap (λ k. window f ((h + 1) % size) n ++ (f k ∷ [])) (step_on size h n hh (omega arith)))

  pub window-push_back :
      (f : ℕ → A) (x : A) (i h n k : ℕ)
      → h < size
      → n < size
      → i ≡ (h + n) % size
      → k ≡ suc n
      → window (update f i x) h k ≡ window f h n ++ (x ∷ [])
  window-push_back f x i h n k hh hn hi hk =
      ap (window (update f i x) h) hk
      ∙ window-snoc (update f i x) n h hh hn
      ∙ ap₂ (λ l y. l ++ (y ∷ [])) (window-update f x i n h n hh hn (omega arith) hi) (ground arith)

  pub window-push_front :
      (f : ℕ → A) (x : A) (h n k : ℕ)
      → h < size
      → n < size
      → k ≡ suc n
      → window (update f (before size h) x) (before size h) k ≡ x ∷ window f h n
  window-push_front f x h n k hh hn hk =
      ap (window (update f i x) i) hk
      ∙ ap₂ ◌∷◌ (ground arith) (
          ap (λ j. window (update f i x) j n) (ground (arith, wrapped size i 1))
          ∙ window-update f x i n h (size - 1) hh (omega arith) (omega arith)
              (ground (arith, wrapped size h (size - 1))))
    where
      i : ℕ
      i = before size h

  pub window_pos :
      (f : ℕ → A) (h n : ℕ) → n ≢ 0 → window f h n ≡ f h ∷ window f ((h + 1) % size) (n - 1)
  window_pos f h zero p = absurd (p refl)
  window_pos f h (suc n) p = ap (λ k. window f h (suc k)) (omega arith)

module _ {A : Type 0} where
  get_elem?-length : (l : List A) (x : A) → get_elem? (l ++ (x ∷ [])) (length l) ≡ some x
  get_elem?-length [] x = refl
  get_elem?-length (y ∷ l) x = get_elem?-length l x

  pub last?-snoc : (l : List A) (x : A) → Spec.last? (l ++ (x ∷ [])) ≡ some x
  last?-snoc l x =
      ap (get_elem? (l ++ (x ∷ []))) (omega (arith, length-append l (x ∷ [])))
      ∙ get_elem?-length l x

  pub init-snoc : (l : List A) (x : A) → Spec.init (l ++ (x ∷ [])) ≡ l
  init-snoc l x =
      ap (λ n. take n (l ++ (x ∷ []))) (omega (arith, length-append l (x ∷ [])))
      ∙ take-length-append l (x ∷ [])

-- The items that a queue holds, from its front.
abbrev pub contents : {A C : Type 0} → ℕ → Queue A C → List A
contents size q = window size q.slots q.head q.count
