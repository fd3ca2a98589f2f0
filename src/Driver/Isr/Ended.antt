-- ===== src/Driver/Isr/Ended.antt =====
-- The interrupts at the end of an exchange.
use wiznet_driver.Base.{
  ℕ, ◌-◌, Option, none, ◌≡◌, refl, sym, ap, ◌∙◌, true, some, List, ◌∷◌, length,
}
use wiznet_driver.Memory.{Memory, Pointer, store, read_bytes, write_bytes, socket_regs}
use wiznet_driver.Queue.Valid.{IsValid}
use wiznet_driver.Queue.Window.{contents}
use wiznet_driver.Driver.Reg
use wiznet_driver.Driver.{Command, World, Hal, Socket, Event, emit}
use wiznet_driver.Driver.{read_reg, command_queue_size, cs_high}
use wiznet_driver.Driver.{cs_low, inline_bytes}
use wiznet_driver.Driver.Encode.{generate_get_reg_cmd}
use wiznet_driver.Driver.Engine.{dma_tx_complete}
use wiznet_driver.Driver.Engine.Started.{
  Kind, sets, orders, writes, reads, IsKind, transfer, expects, started, following, read_back,
  queue_behind-contents, dma_tx_complete-started,
}
use wiznet_driver.Driver.Complete.{dma_rx_complete, copy_inline, complete}
use wiznet_driver.Driver.Isr.{Interrupt, spi_tx_complete, spi_tx_rx_complete, handle, handle_all}
use wiznet_driver.Driver.Isr.{dma_receive, wiznet_spi_tx_complete_callback}
use wiznet_driver.Driver.Isr.{wiznet_spi_tx_rx_complete_callback}
use wiznet_driver.Driver.Isr.Exchange.{ends_of, landed_at, landed, Fits, copied-eq}

module _ (hal : Hal) where
  -- The command runs, and `rest` waits behind what follows it.
  pub record IsRunning (k : Kind) (c : Command) (rest : List Command) (w : World) : Type 0 where
    pub running : w.running_cmd ≡ c
    pub reading : w.target ≡ expects k
    pub waiting : contents command_queue_size w.command_queue ≡ following hal k c rest
    pub queue-IsValid : IsValid command_queue_size w.command_queue

  -- A transfer has ended, and the next one is to start.
  pub record IsBetween (rest : List Command) (m : Memory) (s : ℕ → Socket) (es : List Event)
      (w : World) : Type 0 where
    pub waiting : contents command_queue_size w.command_queue ≡ rest
    pub queue-IsValid : IsValid command_queue_size w.command_queue
    pub memory_eq : w.memory ≡ m
    pub sockets_eq : w.sockets ≡ s
    pub events_eq : w.events ≡ es

  -- The end of a transfer that only sends.
  handle-sent : (w : World) → handle hal spi_tx_complete w ≡ dma_tx_complete hal (emit w cs_high)
  unfolding handle wiznet_spi_tx_complete_callback
  handle-sent w = refl

  -- The end of a read of registers.
  abbrev after_read : List ℕ → World → World
  after_read bytes w = record (emit w cs_high) {
    memory = landed_at w.running_cmd.ptr bytes w.memory;
    running_cmd = record w.running_cmd {
      inline_buf = write_bytes w.running_cmd.inline_buf 0 bytes;
    };
  }

  received-eq :
      (bytes : List ℕ) (w : World)
      → w.target ≡ inline_bytes
      → w.running_cmd.cmd_type ≡ read_reg
      → length bytes ≡ w.running_cmd.len
      → dma_rx_complete hal (emit (dma_receive bytes w) cs_high) ≡ after_read bytes w
  unfolding dma_rx_complete dma_receive copy_inline
  received-eq bytes w target type size =
      ap (λ (v : World). dma_rx_complete hal (emit v cs_high)) delivered
      ∙ ap (λ t. complete hal t (emit u cs_high)) type
      ∙ copied w.running_cmd.ptr
    where
      u : World
      u = record w {
        running_cmd = record w.running_cmd {
          inline_buf = write_bytes w.running_cmd.inline_buf 0 bytes;
        };
      }

      delivered : dma_receive bytes w ≡ u
      delivered = rw target refl

      copied :
          (o : Option Pointer)
          → elim o [
            | none ↦ emit u cs_high
            | some p ↦ record (emit u cs_high) {
              memory =
                  store w.memory p (read_bytes u.running_cmd.inline_buf 3 (w.running_cmd.len - 3));
            }
          ]
            ≡ record (emit u cs_high) { memory = landed_at o bytes w.memory }
      copied none = refl
      copied (some p) =
          ap (λ bs. record (emit u cs_high) { memory = store w.memory p bs })
            (copied-eq w.running_cmd.inline_buf bytes w.running_cmd.len size)

  read_back-reads :
      (c : Command)
      → ((read_back hal c).cmd_type ≡ read_reg)
        × ((read_back hal c).ptr ≡ some (record { region = socket_regs c.sn; offset = Reg.cr }))
        × ((read_back hal c).len ≡ 4)
  unfolding generate_get_reg_cmd
  read_back-reads c = (refl, refl, refl)

  read-ends :
      (c : Command) (bytes : List ℕ) (rest : List Command) (w : World)
      → IsRunning reads c rest w
      → c.cmd_type ≡ read_reg
      → length bytes ≡ c.len
      → (handle hal (spi_tx_rx_complete bytes) w ≡ dma_tx_complete hal (after_read bytes w))
        × IsBetween rest
            (landed_at c.ptr bytes w.memory)
            w.sockets
            (cs_high ∷ w.events)
            (after_read bytes w)
  unfolding handle wiznet_spi_tx_rx_complete_callback
  read-ends c bytes rest w r type size = (
    ap (dma_tx_complete hal) (
        received-eq bytes w r.reading (ap (λ (d : Command). d.cmd_type) r.running ∙ type)
          (size ∙ sym (ap (λ (d : Command). d.len) r.running))),
    record {
      waiting = r.waiting;
      queue-IsValid = r.queue-IsValid;
      memory_eq = ap (λ (d : Command). landed_at d.ptr bytes w.memory) r.running;
      sockets_eq = refl;
      events_eq = refl;
    },
  )

  -- What the end of an exchange adds to the events.
  abbrev pub end_log : Kind → Command → Memory → List Event → List Event
  end_log orders c m es = cs_high ∷ transfer reads m (read_back hal c) ∷ cs_low ∷ cs_high ∷ es
  end_log _ c m es = cs_high ∷ es

  module _ (accepts : (es : List Event) → hal.accepts es ≡ true) where
    pub started-IsRunning :
        (k : Kind) (c : Command) (rest : List Command) (w : World)
        → IsValid command_queue_size w.command_queue
        → contents command_queue_size w.command_queue ≡ c ∷ rest
        → IsRunning k c rest (started hal k c w)
    started-IsRunning k c rest w v e =
        let (valid, waiting) = queue_behind-contents hal k c rest w.command_queue v e in
        record { running = refl; reading = refl; waiting = waiting; queue-IsValid = valid }

    -- An exchange that runs comes to its end.
    pub ended :
        (k : Kind) (c : Command) (bytes : List ℕ) (rest : List Command) (w : World)
        (is : List Interrupt)
        → IsRunning k c rest w
        → IsKind k c
        → Fits k c bytes w.memory
        → (v : World) × (handle_all hal (ends_of k bytes is) w
            ≡ handle_all hal is (dma_tx_complete hal v))
          × IsBetween rest (landed k c bytes w.memory) w.sockets (end_log k c w.memory w.events) v
    unfolding handle_all
    ended sets c bytes rest w is r kind fits = (
      emit w cs_high,
      ap (handle_all hal is) (handle-sent w),
      record {
        waiting = r.waiting;
        queue-IsValid = r.queue-IsValid;
        memory_eq = refl;
        sockets_eq = refl;
        events_eq = refl;
      },
    )
    ended writes c bytes rest w is r kind fits = (
      emit w cs_high,
      ap (handle_all hal is) (handle-sent w),
      record {
        waiting = r.waiting;
        queue-IsValid = r.queue-IsValid;
        memory_eq = refl;
        sockets_eq = refl;
        events_eq = refl;
      },
    )
    ended reads c bytes rest w is r kind fits =
        let (same, between) = read-ends c bytes rest w r kind fits in
        (after_read bytes w, ap (handle_all hal is) same, between)
    ended orders c bytes rest w is r kind fits =
        let u = started hal reads (read_back hal c) (emit w cs_high) in
        let (type, pointer, size) = read_back-reads c in
        let first : handle hal spi_tx_complete w ≡ u =
          handle-sent w
          ∙ dma_tx_complete-started hal accepts reads (read_back hal c) rest (emit w cs_high)
              r.queue-IsValid r.waiting type (λ e. absurd (cc e)) in
        let running : IsRunning reads (read_back hal c) rest u =
          started-IsRunning reads (read_back hal c) rest (emit w cs_high) r.queue-IsValid
            r.waiting in
        let (same, between) =
          read-ends (read_back hal c) bytes rest u running type (fits.0 ∙ sym size) in
        (
          after_read bytes u,
          ap (λ v. handle_all hal is (handle hal (spi_tx_rx_complete bytes) v)) first
              ∙ ap (handle_all hal is) same,
          record {
            waiting = between.waiting;
            queue-IsValid = between.queue-IsValid;
            memory_eq = between.memory_eq ∙ ap (λ o. landed_at o bytes w.memory) pointer;
            sockets_eq = between.sockets_eq;
            events_eq = between.events_eq;
          },
        )
