-- ===== src/Driver/Blocking.antt =====
-- Src/w5500.cpp: the functions that tasks call: enqueueSetReg, enqueueGetReg, pollRegNoIT and
-- pollRegWithIT. Interrupts and other tasks run while a task waits: `Os.delay` is osDelay together
-- with all that happens during it.
pub mod Poll
mod Examples
use wiznet_driver.Base.{ℕ, zero, suc, ◌+◌, ◌-◌, ◌%◌, ◌^◌, Bool, false, not, ◌&&◌, ltb}
use wiznet_driver.Base.{◌==◌, if◌then◌else◌, List}
use mathlib.Core.Bool.{xor}
use wiznet_driver.Memory.{Pointer}
use wiznet_driver.Net.{SockResult, sock_ok, sockerr_timeout, sockerr_queue_full}
use wiznet_driver.Driver.{World, Hal, command_buffer_size}
use wiznet_driver.Driver.Encode.{generate_set_reg_cmd, generate_get_reg_cmd}
use wiznet_driver.Driver.Engine.{push_command_back}

-- osKernelGetTickCount and HAL_GetTick, osDelay, and the application's ws_rand.
pub record Os : Type 0 where
  pub tick : World → ℕ
  pub delay : ℕ → World → World
  pub rand : World → ℕ × World

-- Unsigned 32-bit difference.
abbrev pub sub32 : ℕ → ℕ → ℕ
sub32 a b = (a + 2 ^ 32 - b % 2 ^ 32) % 2 ^ 32

-- `*reg`
abbrev pub value_at : Pointer → World → ℕ
value_at p w = w.memory p.region p.offset

-- `(*reg != val) ^ inv`, the test of both loops.
abbrev pub waits : Pointer → ℕ → Bool → World → Bool
waits reg val inv w = xor (not (value_at reg w == val)) inv

-- What both functions return behind their loop.
abbrev pub poll_result : Pointer → ℕ → Bool → World → SockResult × World
poll_result reg val inv w =
    (if xor (value_at reg w == val) inv then sock_ok else sockerr_timeout, w)

module _ (hal : Hal) where
  unfoldable pub enqueue_set_reg : ℕ → ℕ → List ℕ → ℕ → World → Bool × World
  unfolding generate_set_reg_cmd push_command_back
  enqueue_set_reg sn addr bytes len w =
      if ltb (command_buffer_size - 3) len
      then (false, w)
      else push_command_back hal (generate_set_reg_cmd hal.raw_command sn addr bytes len) w

  unfoldable pub enqueue_get_reg : ℕ → ℕ → Pointer → ℕ → World → Bool × World
  unfolding generate_get_reg_cmd push_command_back
  enqueue_get_reg sn addr buffer len w =
      if ltb (command_buffer_size - 3) len
      then (false, w)
      else push_command_back hal (generate_get_reg_cmd hal.raw_command sn addr buffer len) w

  module _ (os : Os) (reg : Pointer) (val : ℕ) (inv : Bool) (timeout start_time : ℕ) where
    abbrev pub keeps_waiting : World → Bool
    keeps_waiting w = ltb (sub32 (os.tick w) start_time) timeout && waits reg val inv w

    -- The loops, for at most `fuel` rounds.
    unfoldable pub poll_no_it_loop : ℕ → ℕ → ℕ → World → SockResult × World
    unfolding enqueue_get_reg
    poll_no_it_loop sn addr zero w = poll_result reg val inv w
    poll_no_it_loop sn addr (suc fuel) w =
        let (success, w') = enqueue_get_reg sn addr reg 1 w in
        let rest = poll_no_it_loop sn addr fuel (os.delay 100 w') in
        if keeps_waiting w
        then if success then rest else (sockerr_queue_full, w')
        else poll_result reg val inv w

    unfoldable pub poll_with_it_loop : ℕ → World → SockResult × World
    poll_with_it_loop zero w = poll_result reg val inv w
    poll_with_it_loop (suc fuel) w =
        let rest = poll_with_it_loop fuel (os.delay 100 w) in
        if keeps_waiting w then rest else poll_result reg val inv w

  -- A round takes a tick at least, so that `timeout` rounds are enough.
  unfoldable pub poll_reg_no_it : Os → ℕ → ℕ → Pointer → ℕ → Bool → ℕ → World → SockResult × World
  unfolding poll_no_it_loop
  poll_reg_no_it os sn addr reg val inv timeout w =
      poll_no_it_loop os reg val inv timeout (os.tick w) sn addr timeout w

  unfoldable pub poll_reg_with_it : Os → Pointer → ℕ → Bool → World → SockResult × World
  unfolding poll_with_it_loop
  poll_reg_with_it os reg val inv w = poll_with_it_loop os reg val inv 60000 (os.tick w) 60000 w
