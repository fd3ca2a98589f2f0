-- ===== src/Driver/Init/Queued.antt =====
-- What a series of register settings leaves in the command queue and in the driver's copies of the
-- registers.
use wiznet_driver.Base.{◌+◌, ◌-◌, ◌≡◌, ◌<◌, ◌≤◌, refl, sym, ap, ◌∙◌, arith, true, false, ltb}
use wiznet_driver.Base.{Bool, List, [], ◌∷◌, ◌++◌, All, length, length-append, append_assoc}
use wiznet_driver.Base.{append-nil}
use wiznet_driver.Memory.{Memory, store}
use wiznet_driver.Net.{sockerr_queue_full}
use wiznet_driver.Base.{suc, take, none, ◌==◌}
use native.Mathlib.Decide.{dec_lt}
use wiznet_driver.Queue
use wiznet_driver.Queue.Valid.{IsValid, push_back-IsValid}
use wiznet_driver.Queue.Window.{contents, length-window}
use wiznet_driver.Queue.PutBack.{push_back-contents, push_back-success}
use wiznet_driver.Driver.{Command, World, Hal, is_idle, command_buffer_size, command_queue_size}
use wiznet_driver.Driver.Encode.{generate_set_reg_cmd}
use wiznet_driver.Driver.Engine.{push_command_back, pushed, kick_start}
use wiznet_driver.Driver.Engine.Keeps.{Commands}
use wiznet_driver.Driver.Isr.Pushed.{queued, push-queued}
use wiznet_driver.Driver.Blocking.{enqueue_set_reg}
use wiznet_driver.Driver.Init.{Setting, set_all, store_setting}

-- Every setting stored, in the order of the list.
abbrev pub store_all : List Setting → Memory → Memory
store_all [] m = m
store_all (s ∷ rest) m = store_all rest (store m s.copy s.bytes)

-- The bytes of a setting fit into a command, behind its header.
abbrev pub IsShort : Setting → Type 0
IsShort s = length s.bytes ≤ command_buffer_size - 3

module _ (hal : Hal) where
  abbrev pub command_of : Setting → Command
  command_of s = generate_set_reg_cmd hal.raw_command s.sn s.addr s.bytes (length s.bytes)

  abbrev pub commands_of : List Setting → List Command
  commands_of [] = []
  commands_of (s ∷ rest) = command_of s ∷ commands_of rest

  push_command_back-success :
      (w : World) (c : Command)
      → IsValid command_queue_size w.command_queue
      → w.command_queue.count < command_queue_size
      → (push_command_back hal c w).0 ≡ true
  unfolding push_command_back
  push_command_back-success w c valid room =
      push_back-success command_queue_size w.command_queue valid c room

  -- The register write of a setting, while a command runs and the queue has room.
  record IsPushed (s : Setting) (w : World) (r : Bool × World) : Type 0 where
    success : r.0 ≡ true
    world : r.1 ≡ queued hal (command_of s) w

  enqueue-IsPushed :
      (s : Setting) (w : World)
      → is_idle w.running_cmd.cmd_type ≡ false
      → IsShort s
      → w.command_queue.count < command_queue_size
      → IsValid command_queue_size w.command_queue
      → IsPushed s w (enqueue_set_reg hal s.sn s.addr s.bytes (length s.bytes) w)
  unfolding enqueue_set_reg
  enqueue-IsPushed s w busy short room valid =
      let small : ltb (command_buffer_size - 3) (length s.bytes) ≡ false = ground arith in
      rw small record { success = pushed_well; world = push-queued hal (command_of s) w busy }
    where
      pushed_well : (push_command_back hal (command_of s) w).0 ≡ true
      pushed_well = push_command_back-success w (command_of s) valid room

  -- A command behind the others.
  record IsBehind (c : Command) (w : World) : Type 0 where
    counted : (queued hal c w).command_queue.count ≡ w.command_queue.count + 1
    waiting :
        (rest : List Command)
        → contents command_queue_size (queued hal c w).command_queue ++ rest
          ≡ contents command_queue_size w.command_queue ++ (c ∷ rest)
    valid : IsValid command_queue_size (queued hal c w).command_queue

  queued-IsBehind :
      (c : Command) (w : World)
      → IsValid command_queue_size w.command_queue
      → w.command_queue.count < command_queue_size
      → IsBehind c w
  queued-IsBehind c w valid fits =
      let q = w.command_queue in
      let q' = (queued hal c w).command_queue in
      let success = push_back-success command_queue_size q valid c fits in
      let now = push_back-contents command_queue_size q valid c success in
      record {
        counted = omega (
          arith,
          ap length now,
          length-append (contents command_queue_size q) (c ∷ []),
          length-window command_queue_size q.slots q.head q.count,
          length-window command_queue_size q'.slots q'.head q'.count,
        );
        waiting = λ rest.
            ap (λ l. l ++ rest) now ∙ append_assoc (contents command_queue_size q) (c ∷ []) rest;
        valid = push_back-IsValid command_queue_size q c valid;
      }

  -- A push to a full queue changes nothing.
  push_back-full :
      (q : Commands) (c : Command)
      → q.count ≡ command_queue_size
      → Queue.push_back command_queue_size q c ≡ record { success = false; queue = q; fired = none }
  unfolding Queue.push_back
  push_back-full q c full =
      let e : (q.count == command_queue_size) ≡ true = ground arith in rw e refl

  enqueue-full :
      (s : Setting) (w : World)
      → IsShort s
      → w.command_queue.count ≡ command_queue_size
      → enqueue_set_reg hal s.sn s.addr s.bytes (length s.bytes) w ≡ (false, w)
  unfolding enqueue_set_reg push_command_back
  enqueue-full s w short full =
      let small : ltb (command_buffer_size - 3) (length s.bytes) ≡ false = ground arith in
      rw small (ap (pushed (kick_start hal) w) (push_back-full w.command_queue (command_of s) full))

  -- A series of settings while a command runs and the command queue has no room for all of them:
  -- it ends with SOCKERR_QUEUE_FULL, and behind the commands that waited stand the register writes
  -- of the first settings, as many as there was room for.
  pub set_all-full :
      (settings : List Setting) (w : World)
      → is_idle w.running_cmd.cmd_type ≡ false
      → IsValid command_queue_size w.command_queue
      → All IsShort settings
      → command_queue_size < w.command_queue.count + length settings
      → let r = set_all hal settings w in
        (r.0 ≡ sockerr_queue_full)
        × (contents command_queue_size r.1.command_queue
            ≡ contents command_queue_size w.command_queue
              ++ commands_of (take (command_queue_size - w.command_queue.count) settings))
  unfolding set_all
  set_all-full [] w busy valid short over = absurd (omega (arith, valid.count_in))
  set_all-full (s ∷ rest) w busy valid short over =
      elim (dec_lt w.command_queue.count command_queue_size) [
        | yes fits ↦
            (let stored = store_setting hal s w in
              let push = enqueue-IsPushed s stored busy short.0 fits valid in
              let behind = queued-IsBehind (command_of s) stored valid fits in
              let (full, waiting) =
                set_all-full rest (queued hal (command_of s) stored) busy behind.valid short.1
                  (omega (arith, behind.counted)) in
              let left : command_queue_size - w.command_queue.count
                  ≡ suc (
                      command_queue_size - (queued hal (command_of s) stored).command_queue.count) =
                omega (arith, behind.counted) in
              rw (push.success, push.world, left) (full, waiting ∙ behind.waiting _))
        | no none_left ↦
            (let full : w.command_queue.count ≡ command_queue_size =
                omega (arith, valid.count_in) in
              let none : command_queue_size - w.command_queue.count ≡ 0 = omega arith in
              rw (enqueue-full s (store_setting hal s w) short.0 full, none)
                (refl, sym (append-nil (contents command_queue_size w.command_queue))))
      ]
