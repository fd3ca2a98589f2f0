-- ===== src/Queue/Examples.antt =====
-- Runs of the queue on concrete contents.
use wiznet_driver.Base.{ℕ, ◌≡◌, refl, arith, true, false, none, some}
use wiznet_driver.Base.{List, [], ◌∷◌, ◌==◌, if◌then◌else◌}
use wiznet_driver.Queue.{
  Queue, init, set_first_push_callback, push_back, push_front, pop_front, pop_back,
}
use wiznet_driver.Queue.{peek_front, peek_back}
use wiznet_driver.Queue.Valid.{IsValid}
use wiznet_driver.Queue.Spec.{
  Op, op_push_back, op_push_front, op_pop_front, op_pop_back, op_peek_back,
}
use wiznet_driver.Queue.Spec.{op_clear, op_peek_front}
use wiznet_driver.Queue.Spec
use wiznet_driver.Queue.Window.{contents}
use wiznet_driver.Queue.Refine.{exec_all, exec_all_refines}

-- 8, then 9, round the end of the three slots
abbrev wrapped_queue : Queue ℕ ℕ
wrapped_queue = record {
  slots = λ i. if i == 0 then 9 else 8;
  head = 2;
  tail = 1;
  count = 2;
  on_first_push = some 5;
}

abbrev script : List (Op ℕ)
script =
    op_push_front 7
    ∷ op_push_back 6
    ∷ op_pop_back
    ∷ op_peek_back
    ∷ op_pop_front
    ∷ op_pop_front
    ∷ op_pop_front
    ∷ []

contents-wrapped_queue : contents 3 wrapped_queue ≡ 8 ∷ 9 ∷ []
contents-wrapped_queue = refl

exec_all-script :
    (exec_all 3 script wrapped_queue).0
    ≡ (true, none)
      ∷ (false, none)
      ∷ (true, some 9)
      ∷ (true, some 8)
      ∷ (true, some 7)
      ∷ (true, some 8)
      ∷ (false, none)
      ∷ []
unfolding exec_all push_back push_front pop_front pop_back peek_back peek_front
exec_all-script = refl

callback_fires_on_first_push :
    ((push_back 3 (set_first_push_callback (init wrapped_queue) 4) 1).fired ≡ some 4)
    × ((push_back 3 wrapped_queue 1).fired ≡ none)
unfolding push_back set_first_push_callback init
callback_fires_on_first_push = (refl, refl)

wrapped_queue-IsValid : IsValid 3 wrapped_queue
wrapped_queue-IsValid = omega arith

exec_all_refines_example :
    let (rs, q') = exec_all 3 script wrapped_queue in
    ((rs, contents 3 q') ≡ Spec.run 3 script (contents 3 wrapped_queue)) × IsValid 3 q'
exec_all_refines_example = exec_all_refines 3 script wrapped_queue wrapped_queue-IsValid
