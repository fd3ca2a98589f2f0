-- ===== src/Driver/Isr/Busy.antt =====
-- A write to a socket's command register that the driver's copy of the register shows as busy.
use wiznet_driver.Base.{ℕ, ◌+◌, ◌%◌, ◌^◌, ◌≡◌, refl, ap, ◌∙◌}
use wiznet_driver.Base.{true, false, ◌==◌, Option, none, some, List, [], ◌∷◌}
use wiznet_driver.Memory.{socket_regs, read_bytes}
use wiznet_driver.Queue
use wiznet_driver.Queue.{Queue, Push, update, before, is_full, is_empty}
use wiznet_driver.Queue.Valid.{IsValid, pop_front-IsValid, push_front-IsValid}
use wiznet_driver.Queue.PutBack.{pop_front-not_full, pop_front-push_front}
use wiznet_driver.Driver.Reg
use wiznet_driver.Driver.{
  Command, CommandType, World, Hal, QueueCallback, write_reg, reg, emit, cs_high, cs_low,
}
use wiznet_driver.Driver.{idle_command}
use wiznet_driver.Driver.{command_queue_size, transmit_receive, local_variable, Event}
use wiznet_driver.Driver.Encode.{generate_get_reg_cmd}
use wiznet_driver.Driver.Engine.{dma_tx_complete_with, dma_tx_complete, dispatch, write_cr}
use wiznet_driver.Driver.Engine.{push_front_counted, is_cr_write}
use wiznet_driver.Driver.Engine.Started.{push_front_counted-success}
use wiznet_driver.Driver.Engine.Reentry.{dma_tx_complete_within-eq}
use wiznet_driver.Driver.Complete.{dma_rx_complete}
use wiznet_driver.Driver.Isr.{handle, handle_all, Interrupt, spi_tx_rx_complete, dma_receive}
use wiznet_driver.Driver.Isr.{wiznet_spi_tx_rx_complete_callback}

-- The driver waits for the read of a busy command register, for the sake of the write `c`.
pub record IsRetrying (c : Command) (w : World) : Type 0 where
  pub is_write : c.cmd_type ≡ write_reg
  pub is_cr : is_cr_write c ≡ true
  pub busy : (reg w c.sn Reg.cr == 0x00) ≡ false
  pub running : w.running_cmd ≡ c
  pub reading : w.target ≡ local_variable
  pub waiting : (Queue.pop_front command_queue_size w.command_queue).0 ≡ some c
  pub queue-IsValid : IsValid command_queue_size w.command_queue

-- The ends of transfers that received these bytes.
abbrev pub transfers_end : List (List ℕ) → List Interrupt
transfers_end [] = []
transfers_end (bytes ∷ rest) = spi_tx_rx_complete bytes ∷ transfers_end rest

module _ (hal : Hal) where
  abbrev unkicked : World → World
  unkicked w = w

  -- The read of the command register that is sent in place of the write.
  abbrev pub read_cr : Command → Event
  read_cr c =
      let read_cmd =
        generate_get_reg_cmd hal.raw_command c.sn (Reg.sn_cr c.sn)
          (record { region = socket_regs c.sn; offset = Reg.cr }) 1 in
      transmit_receive (read_bytes read_cmd.inline_buf 0 read_cmd.len)

  write_cr-busy :
      (w : World)
      → ((es : List Event) → hal.accepts es ≡ true)
      → (reg w w.running_cmd.sn Reg.cr == 0x00) ≡ false
      → write_cr hal unkicked w
        ≡ push_front_counted hal unkicked w.running_cmd (record w {
          command_retries = (w.command_retries + 1) % 2 ^ 32;
          events = read_cr w.running_cmd ∷ w.events;
          target = local_variable;
        })
  unfolding write_cr
  write_cr-busy w accepts busy = rw (busy, accepts (read_cr w.running_cmd ∷ w.events)) refl

  dispatch-busy :
      (t : CommandType) (w : World)
      → t ≡ write_reg
      → is_cr_write w.running_cmd ≡ true
      → dispatch hal unkicked t w ≡ write_cr hal unkicked w
  dispatch-busy t w e is_cr = rw (e, is_cr) refl

  -- The next world: the same but for the queue, the counter of retries and the events.
  abbrev pub retried : Command → World → World
  retried c w = record w {
    command_queue =
        (Queue.push_front command_queue_size (Queue.pop_front command_queue_size w.command_queue).1
          c).queue;
    running_cmd = c;
    command_retries = (w.command_retries + 1) % 2 ^ 32;
    target = local_variable;
    events = read_cr c ∷ cs_low ∷ cs_high ∷ w.events;
  }

  dma_tx_complete-busy :
      (c : Command) (w : World)
      → ((es : List Event) → hal.accepts es ≡ true)
      → IsRetrying c w
      → dma_tx_complete_with hal unkicked (emit w cs_high) ≡ retried c w
  unfolding dma_tx_complete_with
  dma_tx_complete-busy c w accepts r =
      popped-eq (Queue.pop_front command_queue_size w.command_queue).0 r.waiting
    where
      q' : Queue Command QueueCallback
      q' = (Queue.pop_front command_queue_size w.command_queue).1

      u : World
      u = emit (record (emit w cs_high) { command_queue = q'; running_cmd = c }) cs_low

      pushes : (Queue.push_front command_queue_size q' c).success ≡ true
      pushes =
          (pop_front-push_front command_queue_size q'
            (pop_front-IsValid command_queue_size w.command_queue r.queue-IsValid) c
            (pop_front-not_full command_queue_size w.command_queue r.queue-IsValid c r.waiting)).0

      popped-eq :
          (o : Option Command)
          → o ≡ some c
          → elim o [
            | none ↦ record (emit w cs_high) { command_queue = q'; running_cmd = idle_command }
            | some d ↦
                dispatch hal unkicked d.cmd_type
                  (emit (record (emit w cs_high) { command_queue = q'; running_cmd = d }) cs_low)
          ]
            ≡ retried c w
      popped-eq o e = rw e (
          dispatch-busy c.cmd_type u r.is_write r.is_cr
          ∙ write_cr-busy u accepts r.busy
          ∙ push_front_counted-success hal c
              (record u {
                command_retries = (w.command_retries + 1) % 2 ^ 32;
                events = read_cr c ∷ u.events;
                target = local_variable;
              })
              pushes)

  received-eq :
      (bytes : List ℕ) (c : Command) (w : World)
      → IsRetrying c w
      → dma_rx_complete hal (emit (dma_receive bytes w) cs_high) ≡ emit w cs_high
  unfolding dma_rx_complete dma_receive
  received-eq bytes c w r =
      let type_eq : w.running_cmd.cmd_type ≡ write_reg =
        ap (λ (d : Command). d.cmd_type) r.running ∙ r.is_write in
      rw (r.reading, type_eq) refl

  handle-busy :
      (bytes : List ℕ) (c : Command) (w : World)
      → ((es : List Event) → hal.accepts es ≡ true)
      → IsRetrying c w
      → handle hal (spi_tx_rx_complete bytes) w ≡ retried c w
  unfolding handle wiznet_spi_tx_rx_complete_callback
  handle-busy bytes c w accepts r =
      ap (dma_tx_complete hal) (received-eq bytes c w r)
      ∙ (dma_tx_complete_within-eq hal 0 (emit w cs_high)).1
      ∙ dma_tx_complete-busy c w accepts r

  retried-IsRetrying : (c : Command) (w : World) → IsRetrying c w → IsRetrying c (retried c w)
  retried-IsRetrying c w r = record {
    is_write = r.is_write;
    is_cr = r.is_cr;
    busy = r.busy;
    running = refl;
    reading = refl;
    waiting = (pop_front-push_front command_queue_size q' valid c not_full).1;
    queue-IsValid = push_front-IsValid command_queue_size q' c valid;
  }
    where
      q' : Queue Command QueueCallback
      q' = (Queue.pop_front command_queue_size w.command_queue).1

      valid : IsValid command_queue_size q'
      valid = pop_front-IsValid command_queue_size w.command_queue r.queue-IsValid

      not_full : is_full command_queue_size q' ≡ false
      not_full = pop_front-not_full command_queue_size w.command_queue r.queue-IsValid c r.waiting

  -- What the driver does at the ends of these transfers.
  abbrev pub reads_again : Command → List (List ℕ) → List Event → List Event
  reads_again c [] es = es
  reads_again c (bytes ∷ rest) es = reads_again c rest (read_cr c ∷ cs_low ∷ cs_high ∷ es)

  -- While only transfers end, whatever bytes they receive and however many they are, the driver
  -- retries a write to a busy command register for ever: its copies of the registers stay as they
  -- were, and each end starts one more read of the register and never the write. The HAL accepts
  -- every transfer.
  pub handle_all-busy :
      (rounds : List (List ℕ)) (c : Command) (w : World)
      → ((es : List Event) → hal.accepts es ≡ true)
      → IsRetrying c w
      → let w' = handle_all hal (transfers_end rounds) w in
        IsRetrying c w' × (w'.memory ≡ w.memory) × (w'.events ≡ reads_again c rounds w.events)
  unfolding handle_all
  handle_all-busy [] c w accepts r = (r, refl, refl)
  handle_all-busy (bytes ∷ rest) c w accepts r =
      rw (handle_all, handle-busy bytes c w accepts r)
        (handle_all-busy rest c (retried c w) accepts (retried-IsRetrying c w r))
