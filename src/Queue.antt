-- ===== src/Queue.antt =====
-- Inc/queue.hpp: the circular queue template. `size` is the template's SIZE, the array is a
-- function of the index, and an item that goes out through a pointer is an `Option` (`none` where
-- the function returns false or a null pointer). `C` stands for the callback pointer's type: a push
-- hands the callback that it would call back to its caller, which runs it.
pub mod Valid
pub mod Spec
pub mod Window
pub mod Refine
pub mod Front
pub mod PutBack
mod Examples
use wiznet_driver.Base.{ℕ, ◌+◌, ◌-◌, ◌%◌, ◌^◌, Bool, true, false, ◌==◌, if◌then◌else◌}
use wiznet_driver.Base.{Option, none, some}

pub record Queue (A : Type 0) (C : Type 0) : Type 0 where
  pub slots : ℕ → A
  pub head : ℕ
  pub tail : ℕ
  pub count : ℕ
  pub on_first_push : Option C

abbrev pub update : {A : Type 0} → (ℕ → A) → ℕ → A → ℕ → A
update f i x j = if i == j then x else f j

-- `(i == 0) ? (SIZE - 1) : (i - 1)`
abbrev pub before : ℕ → ℕ → ℕ
before size i = if i == 0 then size - 1 else i - 1

-- What a push does: its result, the new queue, and the callback that it runs.
pub record Push (A : Type 0) (C : Type 0) : Type 0 where
  pub success : Bool
  pub queue : Queue A C
  pub fired : Option C

module _ {A C : Type 0} where
  unfoldable pub init : Queue A C → Queue A C
  init q = record q { head = 0; tail = 0; count = 0; on_first_push = none }

  unfoldable pub set_first_push_callback : Queue A C → C → Queue A C
  set_first_push_callback q callback = record q { on_first_push = some callback }

  abbrev pub is_empty : Queue A C → Bool
  is_empty q = q.count == 0

  unfoldable pub clear : Queue A C → Queue A C
  clear q = record q { head = 0; tail = 0; count = 0 }

  unfoldable pub pop_front : ℕ → Queue A C → Option A × Queue A C
  pop_front size q =
      if is_empty q
      then (none, q)
      else (some (q.slots q.head), record q { head = (q.head + 1) % size; count = q.count - 1 })

  unfoldable pub peek_front : Queue A C → Option A
  peek_front q = if is_empty q then none else some (q.slots q.head)

  abbrev pub is_full : ℕ → Queue A C → Bool
  is_full size q = q.count == size

  abbrev pub size_of : Queue A C → ℕ
  size_of q = q.count

  abbrev pub capacity : ℕ → Queue A C → ℕ
  capacity size q = size

  unfoldable pub push_back : ℕ → Queue A C → A → Push A C
  push_back size q item =
      if is_full size q then record { success = false; queue = q; fired = none } else record {
        success = true;
        queue = record q {
          slots = update q.slots q.tail item;
          tail = (q.tail + 1) % size;
          count = (q.count + 1) % 2 ^ 16;
        };
        fired = if is_empty q then q.on_first_push else none;
      }

  unfoldable pub push_front : ℕ → Queue A C → A → Push A C
  push_front size q item =
      if is_full size q then record { success = false; queue = q; fired = none } else record {
        success = true;
        queue = record q {
          slots = update q.slots (before size q.head) item;
          head = before size q.head;
          count = (q.count + 1) % 2 ^ 16;
        };
        fired = if is_empty q then q.on_first_push else none;
      }

  unfoldable pub pop_back : ℕ → Queue A C → Option A × Queue A C
  pop_back size q = if is_empty q then (none, q) else (
    some (q.slots (before size q.tail)),
    record q { tail = before size q.tail; count = q.count - 1 },
  )

  unfoldable pub peek_back : ℕ → Queue A C → Option A
  peek_back size q = if is_empty q then none else some (q.slots (before size q.tail))

  -- A pointer into the array is the index that it points to.
  unfoldable pub front : Queue A C → Option ℕ
  front q = if is_empty q then none else some q.head

  unfoldable pub back : ℕ → Queue A C → Option ℕ
  back size q = if is_empty q then none else some (before size q.tail)
