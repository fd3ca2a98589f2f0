-- ===== src/Driver/Engine/Started.antt =====
-- dmaTXCompleteCallback where the HAL starts the transfer: the command at the front of the queue
-- goes out.
use wiznet_driver.Base.{ℕ, ◌≡◌, refl, ap, ◌∙◌, arith}
use wiznet_driver.Base.{true, false, ◌==◌, Option, none, some}
use wiznet_driver.Base.{List, [], ◌∷◌}
use wiznet_driver.Memory.{Memory, load, socket_regs}
use wiznet_driver.Queue
use wiznet_driver.Queue.Valid.{IsValid, pop_front-IsValid, push_front-IsValid}
use wiznet_driver.Queue.Window.{contents}
use wiznet_driver.Queue.Front.{pop_front-head?, pop_front-tail}
use wiznet_driver.Queue.PutBack.{push_front-contents, pop_front-not_full, push_front-success}
use wiznet_driver.Driver.Reg
use wiznet_driver.Driver.{Command, CommandType, World, Hal, QueueCallback, emit, reg, count_fail}
use wiznet_driver.Driver.{write_reg, write_buf, read_reg, idle_command, command_queue_size}
use wiznet_driver.Driver.{Event, Target, cs_low, transmit, transmit_receive, nowhere, inline_bytes}
use wiznet_driver.Driver.Encode.{generate_get_reg_cmd}
use wiznet_driver.Driver.Engine.{dispatch, dma_tx_complete, dma_tx_complete_with, is_cr_write}
use wiznet_driver.Driver.Engine.{inline_of, push_front_counted, write_cr, bytes_at}
use wiznet_driver.Driver.Engine.Reentry.{dma_tx_complete_within-eq}
use wiznet_driver.Driver.Engine.Keeps.{Commands}

-- The kinds of commands that this is about: a write of registers, a write to a socket's command
-- register, a write of a buffer, and a read of registers.
pub data Kind : Type 0 where
  sets orders writes reads : Kind

abbrev pub IsKindAt : Kind → CommandType → Command → Type 0
IsKindAt sets t c = (t ≡ write_reg) × (is_cr_write c ≡ false)
IsKindAt orders t c = (t ≡ write_reg) × (is_cr_write c ≡ true)
IsKindAt writes t c = t ≡ write_buf
IsKindAt reads t c = t ≡ read_reg

abbrev pub IsKind : Kind → Command → Type 0
IsKind k c = IsKindAt k c.cmd_type c

-- The bytes that a command's pointer points to.
abbrev pub pointed : Memory → Command → List ℕ
pointed m c = elim c.ptr [ none ↦ [] | some p ↦ load m p c.len ]

-- What goes over the bus, and where the received bytes go.
abbrev pub transfer : Kind → Memory → Command → Event
transfer sets m c = transmit (inline_of c)
transfer orders m c = transmit (inline_of c)
transfer writes m c = transmit (pointed m c)
transfer reads m c = transmit_receive (inline_of c)

abbrev pub expects : Kind → Target
expects reads = inline_bytes
expects _ = nowhere

module _ (hal : Hal) where
  abbrev unkicked : World → World
  unkicked w = w

  fired-unkicked :
      (o : Option QueueCallback) (w : World) → elim o [ none ↦ w | some k ↦ unkicked w ] ≡ w
  fired-unkicked none w = refl
  fired-unkicked (some k) w = refl

  -- A push to the front for which there is room.
  pub push_front_counted-success :
      (c : Command) (w : World)
      → (Queue.push_front command_queue_size w.command_queue c).success ≡ true
      → push_front_counted hal unkicked c w
        ≡ record w { command_queue = (Queue.push_front command_queue_size w.command_queue c).queue }
  push_front_counted-success c w e =
      let p = Queue.push_front command_queue_size w.command_queue c in
      ap (λ (v : World). count_fail v p.success)
        (fired-unkicked p.fired (record w { command_queue = p.queue }))
      ∙ rw e refl

  -- The read of the command register that follows a write to it.
  abbrev pub read_back : Command → Command
  read_back c =
      generate_get_reg_cmd hal.raw_command c.sn (Reg.sn_cr c.sn)
        (record { region = socket_regs c.sn; offset = Reg.cr }) 1

  -- The queue once the command has started.
  abbrev pub queue_behind : Kind → Command → Commands → Commands
  queue_behind orders c q = (Queue.push_front command_queue_size q (read_back c)).queue
  queue_behind _ c q = q

  abbrev pub started : Kind → Command → World → World
  started k c w = record w {
    command_queue = queue_behind k c (Queue.pop_front command_queue_size w.command_queue).1;
    running_cmd = c;
    target = expects k;
    events = transfer k w.memory c ∷ cs_low ∷ w.events;
  }

  -- The queue behind a started command: the read-back of a command, and what waited.
  abbrev pub following : Kind → Command → List Command → List Command
  following orders c rest = read_back c ∷ rest
  following _ c rest = rest

  pub queue_behind-contents :
      (k : Kind) (c : Command) (rest : List Command) (q : Commands)
      → IsValid command_queue_size q
      → contents command_queue_size q ≡ c ∷ rest
      → let q' = queue_behind k c (Queue.pop_front command_queue_size q).1 in
        IsValid command_queue_size q' × (contents command_queue_size q' ≡ following k c rest)
  queue_behind-contents k c rest q v e = behind k
    where
      q' : Commands
      q' = (Queue.pop_front command_queue_size q).1

      v' : IsValid command_queue_size q'
      v' = pop_front-IsValid command_queue_size q v

      e' : contents command_queue_size q' ≡ rest
      e' = pop_front-tail command_queue_size q (c ∷ rest) v e

      not_full : (q'.count == command_queue_size) ≡ false
      not_full = ground (
        arith,
        pop_front-not_full command_queue_size q v c
            (pop_front-head? command_queue_size q (c ∷ rest) v e),
      )

      behind :
          (k : Kind)
          → IsValid command_queue_size (queue_behind k c q')
            × (contents command_queue_size (queue_behind k c q') ≡ following k c rest)
      behind sets = (v', e')
      behind writes = (v', e')
      behind reads = (v', e')
      behind orders = (
        push_front-IsValid command_queue_size q' (read_back c) v',
        push_front-contents command_queue_size q' v' (read_back c) ∙ rw (not_full, e') refl,
      )

  module _ (accepts : (es : List Event) → hal.accepts es ≡ true) where
    -- The switch, for a command of a known kind.
    dispatch-started :
        (k : Kind) (type : CommandType) (w : World)
        → IsKindAt k type w.running_cmd
        → (k ≡ orders → (reg w w.running_cmd.sn Reg.cr == 0x00) ≡ true)
        → (Queue.push_front command_queue_size w.command_queue (read_back w.running_cmd)).success
          ≡ true
        → dispatch hal unkicked type w ≡ record w {
          command_queue = queue_behind k w.running_cmd w.command_queue;
          target = expects k;
          events = transfer k w.memory w.running_cmd ∷ w.events;
        }
    unfolding write_cr
    dispatch-started sets type w (t, plain) free room =
        rw (t, plain, accepts (transmit (inline_of w.running_cmd) ∷ w.events)) refl
    dispatch-started orders type w (t, cr) free room =
        let sent = transmit (inline_of w.running_cmd) in
        rw (t, cr, free refl, accepts (sent ∷ w.events))
          (push_front_counted-success (read_back w.running_cmd)
            (record (emit w sent) { target = nowhere }) room)
    dispatch-started writes type w t free room =
        rw (t, accepts (transmit (bytes_at w w.running_cmd) ∷ w.events)) refl
    dispatch-started reads type w t free room =
        rw (t, accepts (transmit_receive (inline_of w.running_cmd) ∷ w.events)) refl

    -- The next command starts.
    pub dma_tx_complete-started :
        (k : Kind) (c : Command) (rest : List Command) (w : World)
        → IsValid command_queue_size w.command_queue
        → contents command_queue_size w.command_queue ≡ c ∷ rest
        → IsKind k c
        → (k ≡ orders → (reg w c.sn Reg.cr == 0x00) ≡ true)
        → dma_tx_complete hal w ≡ started k c w
    unfolding dma_tx_complete_with
    dma_tx_complete-started k c rest w v e kind free =
        (dma_tx_complete_within-eq hal 0 w).1
        ∙ popped-eq (Queue.pop_front command_queue_size w.command_queue).0
            (pop_front-head? command_queue_size w.command_queue (c ∷ rest) v e)
      where
        q' : Commands
        q' = (Queue.pop_front command_queue_size w.command_queue).1

        u : World
        u = emit (record w { command_queue = q'; running_cmd = c }) cs_low

        room : (Queue.push_front command_queue_size q' (read_back c)).success ≡ true
        room =
            push_front-success command_queue_size q'
              (pop_front-IsValid command_queue_size w.command_queue v) (read_back c)
              (pop_front-not_full command_queue_size w.command_queue v c
                (pop_front-head? command_queue_size w.command_queue (c ∷ rest) v e))

        popped-eq :
            (o : Option Command)
            → o ≡ some c
            → elim o [
              | none ↦ record w { command_queue = q'; running_cmd = idle_command }
              | some d ↦
                  dispatch hal unkicked d.cmd_type
                    (emit (record w { command_queue = q'; running_cmd = d }) cs_low)
            ]
              ≡ started k c w
        popped-eq o e' = rw e' (dispatch-started k c.cmd_type u kind free room)

  -- With nothing queued the driver comes to rest.
  pub dma_tx_complete-rests :
      (w : World)
      → IsValid command_queue_size w.command_queue
      → contents command_queue_size w.command_queue ≡ []
      → dma_tx_complete hal w ≡ record w {
        command_queue = (Queue.pop_front command_queue_size w.command_queue).1;
        running_cmd = idle_command;
      }
  unfolding dma_tx_complete_with
  dma_tx_complete-rests w v e =
      (dma_tx_complete_within-eq hal 0 w).1
      ∙ popped-eq (Queue.pop_front command_queue_size w.command_queue).0
          (pop_front-head? command_queue_size w.command_queue [] v e)
    where
      rest : World
      rest = record w {
        command_queue = (Queue.pop_front command_queue_size w.command_queue).1;
        running_cmd = idle_command;
      }

      popped-eq :
          (o : Option Command)
          → o ≡ none
          → elim o [
            | none ↦ rest
            | some d ↦
                dispatch hal unkicked d.cmd_type (emit (record rest { running_cmd = d }) cs_low)
          ]
            ≡ rest
      popped-eq o e' = rw e' refl
