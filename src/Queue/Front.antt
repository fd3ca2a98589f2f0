-- ===== src/Queue/Front.antt =====
-- The front of a queue whose items are known.
use wiznet_driver.Base.{◌≡◌, refl, ap, ◌∙◌, Option, none, some, List, ℕ}
use wiznet_driver.Queue
use wiznet_driver.Queue.{Queue}
use wiznet_driver.Queue.Valid.{IsValid}
use wiznet_driver.Queue.Window.{contents}
use wiznet_driver.Queue.Refine.{exec_refines}
use wiznet_driver.Queue.Spec.{answer, head?, tail, op_pop_front, op_peek_front}

answer_inj : {A : Type 0} (o o' : Option A) → answer o ≡ answer o' → o ≡ o'
answer_inj none none e = refl
answer_inj none (some x) e = absurd (cc (ap (λ t. t.0) e))
answer_inj (some x) none e = absurd (cc (ap (λ t. t.0) e))
answer_inj (some x) (some y) e = ap (λ t. t.1) e

module _ {A C : Type 0} (size : ℕ) (q : Queue A C) (l : List A) (v : IsValid size q)
    (e : contents size q ≡ l) where
  pub peek_front-head? : Queue.peek_front q ≡ head? l
  peek_front-head? =
      answer_inj (Queue.peek_front q) (head? l)
        (ap (λ t. t.0) (exec_refines size q v op_peek_front) ∙ ap (λ k. answer (head? k)) e)

  pub pop_front-head? : (Queue.pop_front size q).0 ≡ head? l
  pop_front-head? =
      answer_inj (Queue.pop_front size q).0 (head? l)
        (ap (λ t. t.0) (exec_refines size q v op_pop_front) ∙ ap (λ k. answer (head? k)) e)

  pub pop_front-tail : contents size (Queue.pop_front size q).1 ≡ tail l
  pop_front-tail = ap (λ t. t.1) (exec_refines size q v op_pop_front) ∙ ap tail e
