-- ===== src/Queue/Spec.antt =====
-- What the queue promises: a double-ended list of at most `size` items. `last` and `front` are the
-- list without and with its last item. An operation answers with a success flag and an item.
use wiznet_driver.Base.{ℕ, ◌-◌, Bool, true, false, ◌==◌, if◌then◌else◌}
use wiznet_driver.Base.{Option, none, some, List, [], ◌∷◌, ◌++◌, length, take, get_elem?}

pub data Op (A : Type 0) : Type 0 where
  op_push_back op_push_front : A → Op A
  op_pop_front op_pop_back op_peek_front op_peek_back op_clear : Op A

abbrev pub Reply : Type 0 → Type 0
Reply A = Bool × Option A

abbrev pub answer : {A : Type 0} → Option A → Reply A
answer none = (false, none)
answer (some x) = (true, some x)

module _ {A : Type 0} where
  abbrev pub head? : List A → Option A
  head? [] = none
  head? (x ∷ xs) = some x

  abbrev pub tail : List A → List A
  tail [] = []
  tail (x ∷ xs) = xs

  abbrev pub last? : List A → Option A
  last? xs = get_elem? xs (length xs - 1)

  abbrev pub init : List A → List A
  init xs = take (length xs - 1) xs

  abbrev pub step : ℕ → Op A → List A → Reply A × List A
  step size (op_push_back x) l =
      if length l == size then ((false, none), l) else ((true, none), l ++ (x ∷ []))
  step size (op_push_front x) l =
      if length l == size then ((false, none), l) else ((true, none), x ∷ l)
  step size op_pop_front l = (answer (head? l), tail l)
  step size op_pop_back l = (answer (last? l), init l)
  step size op_peek_front l = (answer (head? l), l)
  step size op_peek_back l = (answer (last? l), l)
  step size op_clear l = ((true, none), [])

  unfoldable pub run : ℕ → List (Op A) → List A → List (Reply A) × List A
  run size [] l = ([], l)
  run size (o ∷ os) l =
      let (r, l') = step size o l in let (rs, l'') = run size os l' in (r ∷ rs, l'')
