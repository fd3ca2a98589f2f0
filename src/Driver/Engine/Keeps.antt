-- ===== src/Driver/Engine/Keeps.antt =====
-- What the command engine may change: the command queue, by pushes and pops, the running command,
-- the counters, and the events. It writes no memory and no socket.
use wiznet_driver.Base.{ℕ, ◌+◌, ◌%◌, ◌^◌, Bool, true, false, not, ◌==◌, if◌then◌else◌}
use wiznet_driver.Base.{Option, none, some}
use wiznet_driver.Memory.{Memory, socket_regs}
use wiznet_driver.Queue.{Queue, Push}
use wiznet_driver.Queue
use wiznet_driver.Driver.Reg
use wiznet_driver.Driver.{Command, CommandType, World, Hal, Socket, QueueCallback, is_idle, reg}
use wiznet_driver.Driver.{write_reg, write_buf, read_reg, read_buf, read_sir, read_soc, check_rcv}
use wiznet_driver.Driver.{check_tx_fsr, idle, idle_command, command_queue_size, Event, Target}
use wiznet_driver.Driver.{emit, cs_low, cs_high, transmit, transmit_receive, nowhere}
use wiznet_driver.Driver.{local_variable, inline_bytes, count_fail}
use wiznet_driver.Driver.Encode.{generate_get_reg_cmd}
use wiznet_driver.Driver.Engine.{pushed, push_front_counted, handle_spi_failure_with, start_dma}
use wiznet_driver.Driver.Engine.{write_cr, dispatch, dma_tx_complete_with, kick_start}
use wiznet_driver.Driver.Engine.{dma_tx_complete, bytes_at, target_of, is_cr_write, inline_of}
use wiznet_driver.Driver.Engine.{push_command_back, push_command_front, push_back_isr}
use wiznet_driver.Driver.Engine.{push_front_isr, handle_spi_failure}
use wiznet_driver.Driver.Engine.Reentry.{dma_tx_complete_within-eq}

abbrev pub Commands : Type 0
Commands = Queue Command QueueCallback

-- A predicate of the memory, the sockets and the command queue, and of a world.
abbrev pub Predicate : Type 1
Predicate = Memory → (ℕ → Socket) → Commands → Type 0

abbrev pub Holds : Predicate → World → Type 0
Holds P w = P w.memory w.sockets w.command_queue

-- The pushes and pops of the command queue keep it.
pub record IsStable (P : Predicate) : Type 0 where
  pub push_back :
      (m : Memory) (s : ℕ → Socket) (q : Commands) (c : Command)
      → P m s q
      → P m s (Queue.push_back command_queue_size q c).queue
  pub push_front :
      (m : Memory) (s : ℕ → Socket) (q : Commands) (c : Command)
      → P m s q
      → P m s (Queue.push_front command_queue_size q c).queue
  pub pop_front :
      (m : Memory) (s : ℕ → Socket) (q : Commands)
      → P m s q
      → P m s (Queue.pop_front command_queue_size q).1

abbrev pub Keeps : Predicate → (World → World) → Type 0
Keeps P f = (w : World) → Holds P w → Holds P (f w)

module _ (P : Predicate) where
  pub if-Holds : (b : Bool) (u v : World) → Holds P u → Holds P v → Holds P (if b then u else v)
  if-Holds true u v p q = p
  if-Holds false u v p q = q

  pub if-Keeps :
      (b : Bool) (f g : World → World)
      → Keeps P f
      → Keeps P g
      → Keeps P (λ w. if b then f w else g w)
  if-Keeps b f g keeps_f keeps_g w p = if-Holds b (f w) (g w) (keeps_f w p) (keeps_g w p)

  pub count_fail-Holds : (w : World) (b : Bool) → Holds P w → Holds P (count_fail w b)
  count_fail-Holds w true p = p
  count_fail-Holds w false p = p

  pushed-Holds :
      (kick : World → World) (w : World) (p : Push Command QueueCallback)
      → Keeps P kick
      → P w.memory w.sockets p.queue
      → Holds P (pushed kick w p).1
  pushed-Holds kick w p keeps h = fired-Holds p.fired
    where
      fired-Holds :
          (o : Option QueueCallback)
          → let w' : World = record w { command_queue = p.queue } in
            Holds P (elim o [ none ↦ w' | some c ↦ kick w' ])
      fired-Holds none = h
      fired-Holds (some c) = keeps (record w { command_queue = p.queue }) h

module _ (P : Predicate) (stable : IsStable P) (hal : Hal) where
  abbrev unkicked : World → World
  unkicked w = w

  counted-Keeps :
      (kick : World → World) (c : Command) → Keeps P kick → Keeps P (push_front_counted hal kick c)
  counted-Keeps kick c keeps w h =
      let p = Queue.push_front command_queue_size w.command_queue c in
      count_fail-Holds P (pushed kick w p).1 p.success
        (pushed-Holds P kick w p keeps (stable.push_front w.memory w.sockets w.command_queue c h))

  failure-Keeps : (kick : World → World) → Keeps P kick → Keeps P (handle_spi_failure_with hal kick)
  unfolding handle_spi_failure_with
  failure-Keeps kick keeps w h = counted-Keeps kick w.running_cmd keeps (emit w cs_high) h

  start_dma-Keeps :
      (e : Event) (t : Target) (go : World → World)
      → Keeps P go
      → Keeps P (start_dma hal unkicked e t go)
  start_dma-Keeps e t go keeps w h =
      if-Holds P (hal.accepts (emit w e).events) (go (record (emit w e) { target = t }))
        (handle_spi_failure_with hal unkicked (emit w e))
        (keeps (record (emit w e) { target = t }) h)
        (failure-Keeps unkicked (λ v p. p) (emit w e) h)

  write_cr-Keeps : Keeps P (write_cr hal unkicked)
  unfolding write_cr
  write_cr-Keeps w h =
      let c : Command = w.running_cmd in
      let read_cmd : Command =
        generate_get_reg_cmd hal.raw_command c.sn (Reg.sn_cr c.sn)
          (record { region = socket_regs c.sn; offset = Reg.cr }) 1 in
      let w1 : World = record w { command_retries = (w.command_retries + 1) % 2 ^ 32 } in
      if-Holds P (not (reg w c.sn Reg.cr == 0x00))
        (start_dma hal unkicked (transmit_receive (inline_of read_cmd)) local_variable
          (push_front_counted hal unkicked c) w1)
        (start_dma hal unkicked (transmit (inline_of c)) nowhere
          (push_front_counted hal unkicked read_cmd) w)
        (start_dma-Keeps (transmit_receive (inline_of read_cmd)) local_variable
          (push_front_counted hal unkicked c) (counted-Keeps unkicked c (λ v p. p)) w1 h)
        (start_dma-Keeps (transmit (inline_of c)) nowhere (push_front_counted hal unkicked read_cmd)
          (counted-Keeps unkicked read_cmd (λ v p. p)) w h)

  started-Keeps : (e : Event) (t : Target) → Keeps P (start_dma hal unkicked e t unkicked)
  started-Keeps e t = start_dma-Keeps e t unkicked (λ v p. p)

  dispatch-Keeps : (t : CommandType) → Keeps P (dispatch hal unkicked t)
  dispatch-Keeps write_reg w h =
      if-Holds P (is_cr_write w.running_cmd) (write_cr hal unkicked w)
        (start_dma hal unkicked (transmit (inline_of w.running_cmd)) nowhere unkicked w)
        (write_cr-Keeps w h) (started-Keeps (transmit (inline_of w.running_cmd)) nowhere w h)
  dispatch-Keeps write_buf w h = started-Keeps (transmit (bytes_at w w.running_cmd)) nowhere w h
  dispatch-Keeps read_reg w h =
      started-Keeps (transmit_receive (inline_of w.running_cmd)) inline_bytes w h
  dispatch-Keeps read_buf w h =
      started-Keeps (transmit_receive (bytes_at w w.running_cmd)) (target_of w.running_cmd) w h
  dispatch-Keeps read_sir w h =
      started-Keeps (transmit_receive (inline_of w.running_cmd)) inline_bytes w h
  dispatch-Keeps read_soc w h =
      started-Keeps (transmit_receive (bytes_at w w.running_cmd)) (target_of w.running_cmd) w h
  dispatch-Keeps check_rcv w h =
      started-Keeps (transmit_receive (inline_of w.running_cmd)) inline_bytes w h
  dispatch-Keeps check_tx_fsr w h =
      started-Keeps (transmit_receive (inline_of w.running_cmd)) inline_bytes w h
  dispatch-Keeps idle w h = h

  complete-Keeps : Keeps P (dma_tx_complete_with hal unkicked)
  unfolding dma_tx_complete_with
  complete-Keeps w h = popped-Holds (Queue.pop_front command_queue_size w.command_queue).0
    where
      q' : Commands
      q' = (Queue.pop_front command_queue_size w.command_queue).1

      h' : P w.memory w.sockets q'
      h' = stable.pop_front w.memory w.sockets w.command_queue h

      popped-Holds :
          (o : Option Command)
          → Holds P (elim o [
            | none ↦ record w { command_queue = q'; running_cmd = idle_command }
            | some c ↦
                dispatch hal unkicked c.cmd_type
                  (emit (record w { command_queue = q'; running_cmd = c }) cs_low)
          ])
      popped-Holds none = h'
      popped-Holds (some c) =
          dispatch-Keeps c.cmd_type (emit (record w { command_queue = q'; running_cmd = c }) cs_low)
            h'

  -- The public operations of the engine.
  pub dma_tx_complete-Keeps : Keeps P (dma_tx_complete hal)
  dma_tx_complete-Keeps w h = rw (dma_tx_complete_within-eq hal 0 w).1 (complete-Keeps w h)

  pub kick_start-Keeps : Keeps P (kick_start hal)
  unfolding kick_start
  kick_start-Keeps w h =
      if-Holds P (is_idle w.running_cmd.cmd_type) (dma_tx_complete hal w) w
        (dma_tx_complete-Keeps w h) h

  pub push_command_back-Keeps : (c : Command) → Keeps P (λ w. (push_command_back hal c w).1)
  unfolding push_command_back
  push_command_back-Keeps c w h =
      pushed-Holds P (kick_start hal) w (Queue.push_back command_queue_size w.command_queue c)
        kick_start-Keeps (stable.push_back w.memory w.sockets w.command_queue c h)

  pub push_command_front-Keeps : (c : Command) → Keeps P (λ w. (push_command_front hal c w).1)
  unfolding push_command_front
  push_command_front-Keeps c w h =
      pushed-Holds P (kick_start hal) w (Queue.push_front command_queue_size w.command_queue c)
        kick_start-Keeps (stable.push_front w.memory w.sockets w.command_queue c h)

  pub push_back_isr-Keeps : (c : Command) → Keeps P (push_back_isr hal c)
  unfolding push_back_isr
  push_back_isr-Keeps c w h =
      let r = push_command_back hal c w in
      count_fail-Holds P r.1 r.0 (push_command_back-Keeps c w h)

  pub push_front_isr-Keeps : (c : Command) → Keeps P (push_front_isr hal c)
  unfolding push_front_isr
  push_front_isr-Keeps c w h =
      let r = push_command_front hal c w in
      count_fail-Holds P r.1 r.0 (push_command_front-Keeps c w h)

  pub handle_spi_failure-Keeps : Keeps P (handle_spi_failure hal)
  unfolding handle_spi_failure
  handle_spi_failure-Keeps = failure-Keeps (kick_start hal) kick_start-Keeps
