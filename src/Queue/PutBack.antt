-- ===== src/Queue/PutBack.antt =====
-- Pushes, seen from the items of the queue: an item that is popped from the front and pushed back
-- there leaves them as they were, and there is room for it; a push to the back appends.
use wiznet_driver.Base.{◌++◌, ◌<◌, ℕ, Bool, ◌≡◌, ◌≤◌, refl, sym, ap, ◌∙◌, arith, true, false, ◌==◌}
use wiznet_driver.Base.{if◌then◌else◌, Option, none, some, List, [], ◌∷◌, length}
use wiznet_driver.Queue
use wiznet_driver.Queue.{is_full, Push, update, before, is_empty}
use wiznet_driver.Queue.{Queue}
use wiznet_driver.Queue.Valid.{IsValid, pop_front-IsValid}
use wiznet_driver.Queue.Window.{contents, length-window}
use wiznet_driver.Queue.Refine.{exec_refines}
use wiznet_driver.Queue.Spec.{Reply, answer, head?, tail, op_pop_front, op_push_front, op_push_back}

module _ {A : Type 0} (size : ℕ) (x : A) where
  abbrev pushed : List A → Reply A × List A
  pushed l = if length l == size then ((false, none), l) else ((true, none), x ∷ l)

  put_back_list :
      (l l' : List A) (o : Option A)
      → ◌≡◌ {A = Reply A × List A} (answer o, l') (answer (head? l), tail l)
      → o ≡ some x
      → length l ≤ size
      → (pushed l').1 ≡ l
  put_back_list [] l' o step e fits = absurd (cc (sym (ap answer e) ∙ ap (λ t. t.0) step))
  put_back_list (y ∷ l) l' o step e fits =
      let rest : l' ≡ l = ap (λ t. t.1) step in
      let same : some x ≡ some y = ap (λ t. t.0.1) (sym (ap (λ o. (answer o, l')) e) ∙ step) in
      let short : (length l == size) ≡ false = ground arith in
      ap (λ k. (pushed k).1) rest ∙ rw short (ap (λ z. z ∷ l) (cc same))

module _ {A C : Type 0} (size : ℕ) (q : Queue A C) (v : IsValid size q) where
  length-contents : length (contents size q) ≤ size
  length-contents = omega (arith, length-window size q.slots q.head q.count)

  pub put_back-contents :
      (x : A)
      → (Queue.pop_front size q).0 ≡ some x
      → contents size (Queue.push_front size (Queue.pop_front size q).1 x).queue ≡ contents size q
  put_back-contents x e =
      let r = Queue.pop_front size q in
      ap (λ t. t.1) (exec_refines size r.1 (pop_front-IsValid size q v) (op_push_front x))
      ∙ put_back_list size x (contents size q) (contents size r.1) r.0
          (exec_refines size q v op_pop_front) e length-contents

  pub push_front-contents :
      (x : A)
      → contents size (Queue.push_front size q x).queue
        ≡ (if q.count == size then contents size q else x ∷ contents size q)
  push_front-contents x =
      ap (λ t. t.1) (exec_refines size q v (op_push_front x))
      ∙ inside (length (contents size q) == size)
      ∙ ap (λ n. if n == size then contents size q else x ∷ contents size q)
          (length-window size q.slots q.head q.count)
    where
      inside :
          (b : Bool)
          → (if◌then◌else◌ {A = Reply A × List A} b
              ((false, none), contents size q)
              ((true, none), x ∷ contents size q)).1
            ≡ (if b then contents size q else x ∷ contents size q)
      inside true = refl
      inside false = refl

  pub pop_front-not_full :
      (x : A)
      → (Queue.pop_front size q).0 ≡ some x
      → is_full size (Queue.pop_front size q).1 ≡ false
  unfolding Queue.pop_front
  pop_front-not_full x e = ground arith

  pub push_front-success :
      (x : A) → is_full size q ≡ false → (Queue.push_front size q x).success ≡ true
  unfolding Queue.push_front
  push_front-success x e = ground arith

  pub pop_front-push_front :
      (x : A)
      → is_full size q ≡ false
      → ((Queue.push_front size q x).success ≡ true)
        × ((Queue.pop_front size (Queue.push_front size q x).queue).0 ≡ some x)
  unfolding Queue.pop_front Queue.push_front
  pop_front-push_front x e = ground arith

  -- A push that succeeds appends its item, and one with room succeeds.
  pub push_back-contents :
      (x : A)
      → (Queue.push_back size q x).success ≡ true
      → contents size (Queue.push_back size q x).queue ≡ contents size q ++ (x ∷ [])
  push_back-contents x e =
      appended (length (contents size q) == size) (Queue.push_back size q x).success
        (contents size (Queue.push_back size q x).queue) (exec_refines size q v (op_push_back x)) e
    where
      l : List A
      l = contents size q

      appended :
          (full success : Bool) (l' : List A)
          → ◌≡◌ {A = Reply A × List A}
              ((success, none), l')
              (if full then ((false, none), l) else ((true, none), l ++ (x ∷ [])))
          → success ≡ true
          → l' ≡ l ++ (x ∷ [])
      appended true success l' step e = absurd (cc (ap (λ t. t.0.0) step))
      appended false success l' step e = ap (λ t. t.1) step

  pub push_back-success : (x : A) → q.count < size → (Queue.push_back size q x).success ≡ true
  unfolding Queue.push_back
  push_back-success x e = ground arith

  pub push_back-fired :
      (x : A) → contents size q ≡ [] → (Queue.push_back size q x).fired ≡ q.on_first_push
  unfolding Queue.push_back
  push_back-fired x e =
      let none_in : q.count ≡ 0 = sym (length-window size q.slots q.head q.count) ∙ ap length e in
      ground arith
