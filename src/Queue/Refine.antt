-- ===== src/Queue/Refine.antt =====
-- A valid queue behaves as the double-ended list of the items that it holds.
use wiznet_driver.Base.{ℕ, suc, ◌+◌, ◌-◌, ◌%◌, ◌^◌, ◌≡◌, ◌≢◌, refl, ap, ◌∙◌}
use wiznet_driver.Base.{arith, true, ◌==◌, Bool-cases, inl, inr}
use wiznet_driver.Base.{none, List, [], ◌∷◌, ◌++◌}
use wiznet_driver.Queue
use wiznet_driver.Queue.{Queue, Push, update, before, is_full, is_empty}
use wiznet_driver.Queue.Valid.{IsValid, wrapped, push_back-IsValid, push_front-IsValid}
use wiznet_driver.Queue.Valid.{pop_front-IsValid, pop_back-IsValid, clear-IsValid}
use wiznet_driver.Queue.Spec
use wiznet_driver.Queue.Spec.{Op, Reply, answer, op_push_back, op_push_front, op_pop_front}
use wiznet_driver.Queue.Spec.{op_pop_back, op_peek_front, op_peek_back, op_clear}
use wiznet_driver.Queue.Window.{
  window, length-window, window-snoc, window-push_back, window-push_front, window_pos, last?-snoc,
  init-snoc, contents,
}

-- One operation of the interface on the circular queue, and a sequence of them.
abbrev pub exec : {A C : Type 0} → ℕ → Op A → Queue A C → Reply A × Queue A C
exec size (op_push_back x) q = let p = Queue.push_back size q x in ((p.success, none), p.queue)
exec size (op_push_front x) q = let p = Queue.push_front size q x in ((p.success, none), p.queue)
exec size op_pop_front q = let (o, q') = Queue.pop_front size q in (answer o, q')
exec size op_pop_back q = let (o, q') = Queue.pop_back size q in (answer o, q')
exec size op_peek_front q = (answer (Queue.peek_front q), q)
exec size op_peek_back q = (answer (Queue.peek_back size q), q)
exec size op_clear q = ((true, none), Queue.clear q)

unfoldable pub exec_all : {A C : Type 0} → ℕ → List (Op A) → Queue A C → List (Reply A) × Queue A C
exec_all size [] q = ([], q)
exec_all size (o ∷ os) q =
    let (r, q') = exec size o q in let (rs, q'') = exec_all size os q' in (r ∷ rs, q'')

module _ {A C : Type 0} (size : ℕ) (q : Queue A C) (v : IsValid size q) where
  push_back_refines :
      (x : A)
      → let p = Queue.push_back size q x in
        ((p.success, none), contents size p.queue)
        ≡ Spec.step size (op_push_back x) (contents size q)
  unfolding Queue.push_back
  push_back_refines x = ground (
    arith,
    length-window size q.slots q.head q.count,
    window-push_back size q.slots x q.tail q.head q.count ((q.count + 1) % 2 ^ 16),
  )

  push_front_refines :
      (x : A)
      → let p = Queue.push_front size q x in
        ((p.success, none), contents size p.queue)
        ≡ Spec.step size (op_push_front x) (contents size q)
  unfolding Queue.push_front
  push_front_refines x = ground (
    arith,
    length-window size q.slots q.head q.count,
    window-push_front size q.slots x q.head q.count ((q.count + 1) % 2 ^ 16),
  )

  pop_front_refines :
      let (o, q') = Queue.pop_front size q in
      (answer o, contents size q') ≡ Spec.step size op_pop_front (contents size q)
  unfolding Queue.pop_front
  pop_front_refines = ground (arith, window_pos size q.slots q.head q.count)

  -- a nonempty queue ends in the item before its tail
  pub contents-snoc :
      q.count ≢ 0
      → contents size q
        ≡ window size q.slots q.head (q.count - 1) ++ (q.slots (before size q.tail) ∷ [])
  contents-snoc p =
      ap (window size q.slots q.head) {x = q.count} {y = suc (q.count - 1)} (omega arith)
      ∙ window-snoc size q.slots (q.count - 1) q.head (omega arith) (omega arith)
      ∙ ap (λ k. window size q.slots q.head (q.count - 1) ++ (q.slots k ∷ []))
          (ground (arith, wrapped size q.head q.count, wrapped size q.head (q.count - 1)))

  contents-nil : q.count ≡ 0 → contents size q ≡ []
  contents-nil e = ap (window size q.slots q.head) e

  pop_back_refines :
      let (o, q') = Queue.pop_back size q in
      (answer o, contents size q') ≡ Spec.step size op_pop_back (contents size q)
  unfolding Queue.pop_back
  pop_back_refines = elim (Bool-cases (q.count == 0)) [
    | inl e ↦ rw (e, contents-nil (ground arith)) refl
    | inr e ↦
        rw
          (
            e,
            contents-snoc (ground arith),
            last?-snoc (window size q.slots q.head (q.count - 1)) _,
            init-snoc (window size q.slots q.head (q.count - 1)) _,
          )
          refl
  ]

  peek_front_refines :
      (answer (Queue.peek_front q), contents size q)
      ≡ Spec.step size op_peek_front (contents size q)
  unfolding Queue.peek_front
  peek_front_refines = ground (arith, window_pos size q.slots q.head q.count)

  peek_back_refines :
      (answer (Queue.peek_back size q), contents size q)
      ≡ Spec.step size op_peek_back (contents size q)
  unfolding Queue.peek_back
  peek_back_refines = elim (Bool-cases (q.count == 0)) [
    | inl e ↦ rw (e, contents-nil (ground arith)) refl
    | inr e ↦
        rw
          (e, contents-snoc (ground arith), last?-snoc (window size q.slots q.head (q.count - 1)) _)
          refl
  ]

  -- Each operation, on a valid queue, answers and acts as it does on the list of its items.
  pub exec_refines :
      (o : Op A)
      → let (r, q') = exec size o q in (r, contents size q') ≡ Spec.step size o (contents size q)
  exec_refines (op_push_back x) = push_back_refines x
  exec_refines (op_push_front x) = push_front_refines x
  exec_refines op_pop_front = pop_front_refines
  exec_refines op_pop_back = pop_back_refines
  exec_refines op_peek_front = peek_front_refines
  exec_refines op_peek_back = peek_back_refines
  exec_refines op_clear = unfold Queue.clear in refl

  pub exec-IsValid : (o : Op A) → IsValid size (exec size o q).1
  exec-IsValid (op_push_back x) = push_back-IsValid size q x v
  exec-IsValid (op_push_front x) = push_front-IsValid size q x v
  exec-IsValid op_pop_front = pop_front-IsValid size q v
  exec-IsValid op_pop_back = pop_back-IsValid size q v
  exec-IsValid op_peek_front = v
  exec-IsValid op_peek_back = v
  exec-IsValid op_clear = clear-IsValid size q v

-- Any sequence of operations on a valid queue gives the answers that the bounded double-ended
-- list gives, ends with the same items in it, and leaves the queue valid.
pub exec_all_refines :
    {A C : Type 0} (size : ℕ) (os : List (Op A)) (q : Queue A C)
    → IsValid size q
    → let (rs, q') = exec_all size os q in
      ((rs, contents size q') ≡ Spec.run size os (contents size q)) × IsValid size q'
unfolding exec_all Spec.run
exec_all_refines size [] q v = (refl, v)
exec_all_refines size (o ∷ os) q v =
    let (e, v') = exec_all_refines size os (exec size o q).1 (exec-IsValid size q v o) in
    (rw (← exec_refines size q v o) (ap (λ t. ((exec size o q).0 ∷ t.0, t.1)) e), v')
