-- ===== src/Driver/Engine/Reentry.antt =====
-- The calls between dmaTXCompleteCallback and the queue's callback do not nest: while a command
-- runs, kickStartCommands returns at once.
use wiznet_driver.Base.{ℕ, suc, ◌+◌, ◌≡◌, refl, ap, ap₂, ◌∙◌, sym, Bool, false, Option, none, some}
use wiznet_driver.Queue.{Queue, Push}
use wiznet_driver.Queue
use wiznet_driver.Driver.{Command, CommandType, World, Hal, QueueCallback, is_idle}
use wiznet_driver.Driver.{write_reg, write_buf, read_reg, read_buf, read_sir, read_soc, check_rcv}
use wiznet_driver.Driver.{
  check_tx_fsr, idle, idle_command, command_queue_size, Event, Target, cs_low, emit,
}
use wiznet_driver.Driver.Engine.{pushed, push_front_counted, handle_spi_failure_with, start_dma}
use wiznet_driver.Driver.Engine.{write_cr, dispatch, dma_tx_complete_with, kick_start_with}
use wiznet_driver.Driver.Reg
use wiznet_driver.Base.{not, ◌==◌, if◌then◌else◌, ◌%◌, ◌^◌}
use wiznet_driver.Driver.{reg, count_fail, cs_high, transmit, transmit_receive, nowhere}
use wiznet_driver.Driver.{local_variable, inline_bytes}
use wiznet_driver.Driver.Encode.{generate_get_reg_cmd}
use wiznet_driver.Memory.{read_bytes, socket_regs}
use wiznet_driver.Driver.Engine.{bytes_at, target_of, is_cr_write}
use wiznet_driver.Driver.Engine.{dma_tx_complete_within, dma_tx_complete}

-- What a callback that waits for the running command does to a push, to a failure and to the start
-- of a transfer: nothing.
abbrev pub WaitsFor : (World → World) → Type 0
WaitsFor kick = (w : World) → is_idle w.running_cmd.cmd_type ≡ false → kick w ≡ w

pub kick_start_with-WaitsFor : (complete : World → World) → WaitsFor (kick_start_with complete)
kick_start_with-WaitsFor complete w busy = rw busy refl

module _ (hal : Hal) (kick : World → World) (waits : WaitsFor kick) where
  abbrev unkicked : World → World
  unkicked w = w

  fired-eq :
      (o : Option QueueCallback) (w : World)
      → is_idle w.running_cmd.cmd_type ≡ false
      → elim o [ none ↦ w | some c ↦ kick w ] ≡ elim o [ none ↦ w | some c ↦ unkicked w ]
  fired-eq none w busy = refl
  fired-eq (some c) w busy = waits w busy

  pushed-eq :
      (w : World) (p : Push Command QueueCallback)
      → is_idle w.running_cmd.cmd_type ≡ false
      → pushed kick w p ≡ pushed unkicked w p
  pushed-eq w p busy =
      ap (λ v. (p.success, v)) (fired-eq p.fired (record w { command_queue = p.queue }) busy)

  push_front_counted-eq :
      (w : World) (c : Command)
      → is_idle w.running_cmd.cmd_type ≡ false
      → push_front_counted hal kick c w ≡ push_front_counted hal unkicked c w
  push_front_counted-eq w c busy =
      ap (λ (r : Bool × World). count_fail r.1 r.0)
        (pushed-eq w (Queue.push_front command_queue_size w.command_queue c) busy)

  pub failure-eq :
      (w : World)
      → is_idle w.running_cmd.cmd_type ≡ false
      → handle_spi_failure_with hal kick w ≡ handle_spi_failure_with hal unkicked w
  unfolding handle_spi_failure_with
  failure-eq w busy =
      ap
        (λ (v : World). record v {
          running_cmd = record v.running_cmd { cmd_type = idle };
          spi_err_count = (v.spi_err_count + 1) % 2 ^ 32;
        })
        (push_front_counted-eq (emit w cs_high) w.running_cmd busy)

  start_dma-eq :
      (e : Event) (t : Target) (go go' : World → World) (w : World)
      → is_idle w.running_cmd.cmd_type ≡ false
      → ((v : World) → is_idle v.running_cmd.cmd_type ≡ false → go v ≡ go' v)
      → start_dma hal kick e t go w ≡ start_dma hal unkicked e t go' w
  start_dma-eq e t go go' w busy same =
      ap₂ (λ (x y : World). if hal.accepts (emit w e).events then x else y)
        (same (record (emit w e) { target = t }) busy) (failure-eq (emit w e) busy)

  write_cr-eq :
      (w : World)
      → is_idle w.running_cmd.cmd_type ≡ false
      → write_cr hal kick w ≡ write_cr hal unkicked w
  unfolding write_cr
  write_cr-eq w busy =
      let c : Command = w.running_cmd in
      let read_cmd : Command =
        generate_get_reg_cmd hal.raw_command c.sn (Reg.sn_cr c.sn)
          (record { region = socket_regs c.sn; offset = Reg.cr }) 1 in
      ap₂ (λ (x y : World). if not (reg w c.sn Reg.cr == 0x00) then x else y)
        (start_dma-eq (transmit_receive (read_bytes read_cmd.inline_buf 0 read_cmd.len))
          local_variable (push_front_counted hal kick c) (push_front_counted hal unkicked c)
          (record w { command_retries = (w.command_retries + 1) % 2 ^ 32 }) busy
          (λ v b. push_front_counted-eq v c b))
        (start_dma-eq (transmit (read_bytes c.inline_buf 0 c.len)) nowhere
          (push_front_counted hal kick read_cmd) (push_front_counted hal unkicked read_cmd) w busy
          (λ v b. push_front_counted-eq v read_cmd b))

  receives :
      (w : World)
      → is_idle w.running_cmd.cmd_type ≡ false
      → dispatch hal kick read_reg w ≡ dispatch hal unkicked read_reg w
  receives w busy =
      start_dma-eq (transmit_receive (read_bytes w.running_cmd.inline_buf 0 w.running_cmd.len))
        inline_bytes unkicked unkicked w busy (λ v b. refl)

  receives_at :
      (w : World)
      → is_idle w.running_cmd.cmd_type ≡ false
      → dispatch hal kick read_buf w ≡ dispatch hal unkicked read_buf w
  receives_at w busy =
      start_dma-eq (transmit_receive (bytes_at w w.running_cmd)) (target_of w.running_cmd) unkicked
        unkicked w busy (λ v b. refl)

  -- Every case of the switch, for the command that runs.
  dispatch-eq :
      (t : CommandType) (w : World)
      → w.running_cmd.cmd_type ≡ t
      → dispatch hal kick t w ≡ dispatch hal unkicked t w
  dispatch-eq write_reg w e =
      ap₂ (λ (x y : World). if is_cr_write w.running_cmd then x else y)
        (write_cr-eq w (ap is_idle e))
        (start_dma-eq (transmit (read_bytes w.running_cmd.inline_buf 0 w.running_cmd.len)) nowhere
          unkicked unkicked w (ap is_idle e) (λ v b. refl))
  dispatch-eq write_buf w e =
      start_dma-eq (transmit (bytes_at w w.running_cmd)) nowhere unkicked unkicked w (ap is_idle e)
        (λ v b. refl)
  dispatch-eq read_reg w e = receives w (ap is_idle e)
  dispatch-eq read_buf w e = receives_at w (ap is_idle e)
  dispatch-eq read_sir w e = receives w (ap is_idle e)
  dispatch-eq read_soc w e = receives_at w (ap is_idle e)
  dispatch-eq check_rcv w e = receives w (ap is_idle e)
  dispatch-eq check_tx_fsr w e = receives w (ap is_idle e)
  dispatch-eq idle w e = refl

  complete-eq : (w : World) → dma_tx_complete_with hal kick w ≡ dma_tx_complete_with hal unkicked w
  unfolding dma_tx_complete_with
  complete-eq w = popped-eq (Queue.pop_front command_queue_size w.command_queue).0
    where
      q' : Queue Command QueueCallback
      q' = (Queue.pop_front command_queue_size w.command_queue).1

      popped-eq :
          (o : Option Command)
          → elim o [
            | none ↦ record w { command_queue = q'; running_cmd = idle_command }
            | some c ↦
                dispatch hal kick c.cmd_type
                  (emit (record w { command_queue = q'; running_cmd = c }) cs_low)
          ]
            ≡ elim o [
              | none ↦ record w { command_queue = q'; running_cmd = idle_command }
              | some c ↦
                  dispatch hal unkicked c.cmd_type
                    (emit (record w { command_queue = q'; running_cmd = c }) cs_low)
            ]
      popped-eq none = refl
      popped-eq (some c) =
          dispatch-eq c.cmd_type (emit (record w { command_queue = q'; running_cmd = c }) cs_low)
            refl

-- The calls of dmaTXCompleteCallback through the queue's callback never nest: with any depth allowed
-- it does the same as with depth 1, and as with a queue that has a callback which does nothing.
pub dma_tx_complete_within-eq :
    (hal : Hal) (depth : ℕ) (w : World)
    → (dma_tx_complete_within hal (suc depth) w ≡ dma_tx_complete hal w)
      × (dma_tx_complete hal w ≡ dma_tx_complete_with hal (λ v. v) w)
unfolding dma_tx_complete dma_tx_complete_within
dma_tx_complete_within-eq hal depth w =
    let once = complete-eq hal (kick_start_with (λ v. v)) (kick_start_with-WaitsFor (λ v. v)) w in
    let any =
      complete-eq hal (kick_start_with (dma_tx_complete_within hal depth))
        (kick_start_with-WaitsFor (dma_tx_complete_within hal depth)) w in
    (any ∙ sym once, once)
