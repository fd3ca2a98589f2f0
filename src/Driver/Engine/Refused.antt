-- ===== src/Driver/Engine/Refused.antt =====
-- Transfers that the HAL refuses and transfers that end with an error: handleSPIFailure puts the
-- running command back, and no command is lost.
use wiznet_driver.Base.{◌+◌, ◌%◌, ◌^◌, ◌≡◌, refl, ap, ◌∙◌}
use wiznet_driver.Base.{Bool, true, false, not, ◌==◌, if◌then◌else◌, Option, none, some}
use wiznet_driver.Base.{List, ◌∷◌}
use wiznet_driver.Memory.{socket_regs}
use wiznet_driver.Queue
use wiznet_driver.Queue.{Queue, Push, is_full}
use wiznet_driver.Queue.Valid.{IsValid}
use wiznet_driver.Queue.Window.{contents}
use wiznet_driver.Queue.PutBack.{put_back-contents, push_front-contents}
use wiznet_driver.Driver.Engine.Reentry.{failure-eq, kick_start_with-WaitsFor}
use wiznet_driver.Driver.Reg
use wiznet_driver.Driver.{Command, CommandType, World, Hal, QueueCallback, is_idle, reg, emit}
use wiznet_driver.Driver.{write_reg, write_buf, read_reg, read_buf, read_sir, read_soc, check_rcv}
use wiznet_driver.Driver.{check_tx_fsr, idle, idle_command, command_queue_size, Event, Target}
use wiznet_driver.Driver.{cs_low, cs_high, transmit, transmit_receive, nowhere, inline_bytes}
use wiznet_driver.Driver.{local_variable, count_fail}
use wiznet_driver.Driver.Encode.{generate_get_reg_cmd}
use wiznet_driver.Driver.Engine.{pushed, push_front_counted, handle_spi_failure_with, start_dma}
use wiznet_driver.Driver.Engine.{write_cr, dispatch, dma_tx_complete_with, dma_tx_complete}
use wiznet_driver.Driver.Engine.{bytes_at, target_of, is_cr_write, inline_of, handle_spi_failure}
use wiznet_driver.Driver.Engine.{kick_start}
use wiznet_driver.Driver.Engine.Reentry.{dma_tx_complete_within-eq}
use wiznet_driver.Driver.Engine.Keeps.{Commands}

-- The command `c` is back at the front of the queue `q`, and nothing runs.
pub record IsPutBack (c : Command) (q : Commands) (w : World) : Type 0 where
  pub queue_eq : w.command_queue ≡ (Queue.push_front command_queue_size q c).queue
  pub stopped : is_idle w.running_cmd.cmd_type ≡ true

module _ (hal : Hal) where
  abbrev unkicked : World → World
  unkicked w = w

  count_fail-queue : (w : World) (b : Bool) → (count_fail w b).command_queue ≡ w.command_queue
  count_fail-queue w true = refl
  count_fail-queue w false = refl

  fired-queue :
      (o : Option QueueCallback) (w : World)
      → (elim o as (λ o. World) [ none ↦ w | some c ↦ unkicked w ]).command_queue ≡ w.command_queue
  fired-queue none w = refl
  fired-queue (some c) w = refl

  failure-IsPutBack :
      (w : World) → IsPutBack w.running_cmd w.command_queue (handle_spi_failure_with hal unkicked w)
  unfolding handle_spi_failure_with
  failure-IsPutBack w =
      let p = Queue.push_front command_queue_size w.command_queue w.running_cmd in
      record {
        queue_eq =
            count_fail-queue (pushed unkicked (emit w cs_high) p).1 p.success
            ∙ fired-queue p.fired (record (emit w cs_high) { command_queue = p.queue });
        stopped = refl;
      }

  module _ (refuses : (es : List Event) → hal.accepts es ≡ false) where
    start_dma-IsPutBack :
        (e : Event) (t : Target) (go : World → World) (w : World)
        → IsPutBack w.running_cmd w.command_queue (start_dma hal unkicked e t go w)
    start_dma-IsPutBack e t go w =
        tested (hal.accepts (emit w e).events) (refuses (emit w e).events)
      where
        tested :
            (b : Bool)
            → b ≡ false
            → IsPutBack w.running_cmd w.command_queue (
                if b
                then go (record (emit w e) { target = t })
                else handle_spi_failure_with hal unkicked (emit w e))
        tested true e' = absurd (cc e')
        tested false e' = failure-IsPutBack (emit w e)

    if-IsPutBack :
        (c : Command) (q : Commands) (b : Bool) (u v : World)
        → IsPutBack c q u
        → IsPutBack c q v
        → IsPutBack c q (if b then u else v)
    if-IsPutBack c q true u v h k = h
    if-IsPutBack c q false u v h k = k

    write_cr-IsPutBack :
        (w : World) → IsPutBack w.running_cmd w.command_queue (write_cr hal unkicked w)
    unfolding write_cr
    write_cr-IsPutBack w =
        let c : Command = w.running_cmd in
        let read_cmd : Command =
          generate_get_reg_cmd hal.raw_command c.sn (Reg.sn_cr c.sn)
            (record { region = socket_regs c.sn; offset = Reg.cr }) 1 in
        let w1 : World = record w { command_retries = (w.command_retries + 1) % 2 ^ 32 } in
        if-IsPutBack c w.command_queue (not (reg w c.sn Reg.cr == 0x00)) _ _
          (start_dma-IsPutBack (transmit_receive (inline_of read_cmd)) local_variable
            (push_front_counted hal unkicked c) w1)
          (start_dma-IsPutBack (transmit (inline_of c)) nowhere
            (push_front_counted hal unkicked read_cmd) w)

    dispatch-IsPutBack :
        (t : CommandType) (w : World)
        → is_idle t ≡ false
        → IsPutBack w.running_cmd w.command_queue (dispatch hal unkicked t w)
    dispatch-IsPutBack write_reg w e =
        if-IsPutBack w.running_cmd w.command_queue (is_cr_write w.running_cmd) _ _
          (write_cr-IsPutBack w)
          (start_dma-IsPutBack (transmit (inline_of w.running_cmd)) nowhere unkicked w)
    dispatch-IsPutBack write_buf w e =
        start_dma-IsPutBack (transmit (bytes_at w w.running_cmd)) nowhere unkicked w
    dispatch-IsPutBack read_reg w e =
        start_dma-IsPutBack (transmit_receive (inline_of w.running_cmd)) inline_bytes unkicked w
    dispatch-IsPutBack read_buf w e =
        start_dma-IsPutBack (transmit_receive (bytes_at w w.running_cmd)) (target_of w.running_cmd)
          unkicked w
    dispatch-IsPutBack read_sir w e =
        start_dma-IsPutBack (transmit_receive (inline_of w.running_cmd)) inline_bytes unkicked w
    dispatch-IsPutBack read_soc w e =
        start_dma-IsPutBack (transmit_receive (bytes_at w w.running_cmd)) (target_of w.running_cmd)
          unkicked w
    dispatch-IsPutBack check_rcv w e =
        start_dma-IsPutBack (transmit_receive (inline_of w.running_cmd)) inline_bytes unkicked w
    dispatch-IsPutBack check_tx_fsr w e =
        start_dma-IsPutBack (transmit_receive (inline_of w.running_cmd)) inline_bytes unkicked w
    dispatch-IsPutBack idle w e = absurd (cc e)

    complete-IsPutBack :
        (w : World) (c : Command)
        → (Queue.pop_front command_queue_size w.command_queue).0 ≡ some c
        → is_idle c.cmd_type ≡ false
        → IsPutBack c
            (Queue.pop_front command_queue_size w.command_queue).1
            (dma_tx_complete_with hal unkicked w)
    unfolding dma_tx_complete_with
    complete-IsPutBack w c popped busy =
        went (Queue.pop_front command_queue_size w.command_queue).0 popped
      where
        q' : Commands
        q' = (Queue.pop_front command_queue_size w.command_queue).1

        went :
            (o : Option Command)
            → o ≡ some c
            → IsPutBack c q' (elim o [
              | none ↦ record w { command_queue = q'; running_cmd = idle_command }
              | some d ↦
                  dispatch hal unkicked d.cmd_type
                    (emit (record w { command_queue = q'; running_cmd = d }) cs_low)
            ])
        went o e = rw e (
            dispatch-IsPutBack c.cmd_type
              (emit (record w { command_queue = q'; running_cmd = c }) cs_low) busy)

    -- Where the HAL refuses the start of the transfer, dmaTXCompleteCallback loses no command: a
    -- valid queue holds the same commands as before, in the same order, and nothing runs.
    pub dma_tx_complete-refused :
        (w : World) (c : Command)
        → IsValid command_queue_size w.command_queue
        → (Queue.pop_front command_queue_size w.command_queue).0 ≡ some c
        → is_idle c.cmd_type ≡ false
        → let w' = dma_tx_complete hal w in
          (contents command_queue_size w'.command_queue
            ≡ contents command_queue_size w.command_queue)
          × (is_idle w'.running_cmd.cmd_type ≡ true)
    dma_tx_complete-refused w c v popped busy =
        let r = complete-IsPutBack w c popped busy in
        rw (dma_tx_complete_within-eq hal 0 w).1 (
          ap (contents command_queue_size) r.queue_eq
              ∙ put_back-contents command_queue_size w.command_queue v c popped,
          r.stopped,
        )

  -- Where a transfer fails while a command runs and the queue is valid, handle_spi_failure puts the
  -- command back in front of the others, unless the queue is full, and nothing runs after it.
  pub handle_spi_failure-put_back :
      (w : World)
      → IsValid command_queue_size w.command_queue
      → is_idle w.running_cmd.cmd_type ≡ false
      → let w' = handle_spi_failure hal w in
        (is_idle w'.running_cmd.cmd_type ≡ true)
        × (contents command_queue_size w'.command_queue ≡ (
            if w.command_queue.count == command_queue_size
            then contents command_queue_size w.command_queue
            else w.running_cmd ∷ contents command_queue_size w.command_queue))
  unfolding handle_spi_failure kick_start
  handle_spi_failure-put_back w v busy =
      let r = failure-IsPutBack w in
      let same =
        failure-eq hal (kick_start hal) (kick_start_with-WaitsFor (dma_tx_complete hal)) w busy in
      (
        ap (λ (u : World). is_idle u.running_cmd.cmd_type) same ∙ r.stopped,
        ap (λ (u : World). contents command_queue_size u.command_queue) same
            ∙ ap (contents command_queue_size) r.queue_eq
            ∙ push_front-contents command_queue_size w.command_queue v w.running_cmd,
      )
