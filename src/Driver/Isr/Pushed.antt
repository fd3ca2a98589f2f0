-- ===== src/Driver/Isr/Pushed.antt =====
-- A sequence of commands that is pushed to a resting driver: it runs, and comes to its end.
use mathlib.Core.Path.{subst}
use wiznet_driver.Base.{◌+◌, ◌≡◌, ◌<◌, refl, sym, ap, ◌∙◌, arith, true, false}
use wiznet_driver.Base.{
  Option, none, some, List, [], ◌∷◌, ◌++◌, append_assoc, length, length-append,
}
use wiznet_driver.Base.{append-nil}
use wiznet_driver.Queue
use wiznet_driver.Queue.Valid.{IsValid, push_back-IsValid}
use wiznet_driver.Queue.Window.{contents, length-window}
use wiznet_driver.Queue.PutBack.{push_back-contents, push_back-success, push_back-fired}
use wiznet_driver.Driver.{Command, World, Hal, QueueCallback, Event, is_idle}
use wiznet_driver.Driver.Reg
use wiznet_driver.Base.{◌==◌, if◌then◌else◌}
use wiznet_driver.Driver.{reg}
use wiznet_driver.Driver.{kick_start_commands, command_queue_size}
use wiznet_driver.Driver.Engine.{push_command_back, kick_start, dma_tx_complete}
use wiznet_driver.Driver.Engine.Reentry.{kick_start_with-WaitsFor}
use wiznet_driver.Driver.Engine.Started.{
  Kind, sets, orders, writes, reads, IsKind, started, following, dma_tx_complete-started,
}
use wiznet_driver.Driver.Isr.{handle_all}
use wiznet_driver.Driver.Isr.Exchange.{Exchange, commands, ends, landed_all, log, AreExchanges}
use wiznet_driver.Driver.Isr.Ended.{IsRunning, started-IsRunning}
use wiznet_driver.Driver.Isr.Drained.{IsDone, free_of, running-IsDone}

-- Nothing runs and nothing waits; a push to the queue calls kickStartCommands.
pub record IsResting (w : World) : Type 0 where
  pub idle : is_idle w.running_cmd.cmd_type ≡ true
  pub empty : contents command_queue_size w.command_queue ≡ []
  pub queue-IsValid : IsValid command_queue_size w.command_queue
  pub kicks : w.command_queue.on_first_push ≡ some kick_start_commands

module _ (hal : Hal) where
  -- The commands of the exchanges are pushed to the back of the queue, one after another.
  unfoldable pub push_all : List Exchange → World → World
  unfolding push_command_back
  push_all [] w = w
  push_all (x ∷ xs) w = push_all xs (push_command_back hal x.cmd w).1

  abbrev pub queued : Command → World → World
  queued c w = record w {
    command_queue = (Queue.push_back command_queue_size w.command_queue c).queue;
  }

  IsKind-busy : (k : Kind) (c : Command) → IsKind k c → is_idle c.cmd_type ≡ false
  IsKind-busy sets c h = ap is_idle h.0
  IsKind-busy orders c h = ap is_idle h.0
  IsKind-busy writes c h = ap is_idle h
  IsKind-busy reads c h = ap is_idle h

  following-append :
      (k : Kind) (c d : Command) (rest : List Command)
      → following hal k c rest ++ (d ∷ []) ≡ following hal k c (rest ++ (d ∷ []))
  following-append sets c d rest = refl
  following-append orders c d rest = refl
  following-append writes c d rest = refl
  following-append reads c d rest = refl

  length-following :
      (k : Kind) (c : Command) (rest : List Command)
      → length (following hal k c rest) < length rest + 2
  length-following sets c rest = omega arith
  length-following orders c rest = omega arith
  length-following writes c rest = omega arith
  length-following reads c rest = omega arith

  -- A push while a command runs does nothing but queue the command.
  pub push-queued :
      (d : Command) (w : World)
      → is_idle w.running_cmd.cmd_type ≡ false
      → (push_command_back hal d w).1 ≡ queued d w
  unfolding push_command_back kick_start
  push-queued d w busy = fired_none (Queue.push_back command_queue_size w.command_queue d).fired
    where
      fired_none :
          (o : Option QueueCallback)
          → elim o [ none ↦ queued d w | some k ↦ kick_start hal (queued d w) ] ≡ queued d w
      fired_none none = refl
      fired_none (some k) = kick_start_with-WaitsFor (dma_tx_complete hal) (queued d w) busy

  count_eq :
      (w : World) (l : List Command)
      → contents command_queue_size w.command_queue ≡ l
      → w.command_queue.count ≡ length l
  count_eq w l e =
      let q = w.command_queue in
      sym (length-window command_queue_size q.slots q.head q.count) ∙ ap length e

  queued-IsRunning :
      (k : Kind) (c d : Command) (rest : List Command) (w : World)
      → IsRunning hal k c rest w
      → length rest + 2 < command_queue_size
      → IsRunning hal k c (rest ++ (d ∷ [])) (queued d w)
  queued-IsRunning k c d rest w r room =
      let q = w.command_queue in
      let fits : q.count < command_queue_size =
        omega (arith, count_eq w (following hal k c rest) r.waiting, length-following k c rest) in
      let success = push_back-success command_queue_size q r.queue-IsValid d fits in
      record {
        running = r.running;
        reading = r.reading;
        waiting =
            push_back-contents command_queue_size q r.queue-IsValid d success
            ∙ ap (λ l. l ++ (d ∷ [])) r.waiting
            ∙ following-append k c d rest;
        queue-IsValid = push_back-IsValid command_queue_size q d r.queue-IsValid;
      }

  -- The pushes behind a running command.
  record IsQueuedBehind (k : Kind) (c : Command) (rest : List Command) (w w' : World) : Type 0 where
    running : IsRunning hal k c rest w'
    memory_eq : w'.memory ≡ w.memory
    sockets_eq : w'.sockets ≡ w.sockets
    events_eq : w'.events ≡ w.events

  push_all-IsQueuedBehind :
      (k : Kind) (c : Command) (rest : List Command) (xs : List Exchange) (w : World)
      → IsKind k c
      → IsRunning hal k c rest w
      → length rest + length xs + 1 < command_queue_size
      → IsQueuedBehind k c (rest ++ commands xs) w (push_all xs w)
  unfolding push_all
  push_all-IsQueuedBehind k c rest [] w kind r room = record {
    running = rw (append-nil rest) r;
    memory_eq = refl;
    sockets_eq = refl;
    events_eq = refl;
  }
  push_all-IsQueuedBehind k c rest (x ∷ xs) w kind r room =
      let busy : is_idle w.running_cmd.cmd_type ≡ false =
        ap (λ (d : Command). is_idle d.cmd_type) r.running ∙ IsKind-busy k c kind in
      let r' = queued-IsRunning k c x.cmd rest w r (omega arith) in
      let more : length (rest ++ (x.cmd ∷ [])) + length xs + 1 < command_queue_size =
        omega (arith, length-append rest (x.cmd ∷ [])) in
      let h = push_all-IsQueuedBehind k c (rest ++ (x.cmd ∷ [])) xs (queued x.cmd w) kind r' more in
      rw (push-queued x.cmd w busy, ← append_assoc rest (x.cmd ∷ []) (commands xs))
        record {
          running = h.running;
          memory_eq = h.memory_eq;
          sockets_eq = h.sockets_eq;
          events_eq = h.events_eq;
        }

  module _ (accepts : (es : List Event) → hal.accepts es ≡ true) where
    -- The first push starts its command.
    push-started :
        (k : Kind) (c : Command) (w : World)
        → IsResting w
        → IsKind k c
        → (k ≡ orders → (reg w c.sn Reg.cr == 0x00) ≡ true)
        → (push_command_back hal c w).1 ≡ started hal k c (queued c w)
    unfolding push_command_back kick_start
    push-started k c w rest kind free =
        let q = w.command_queue in
        let fits : q.count < command_queue_size = omega (arith, count_eq w [] rest.empty) in
        let success = push_back-success command_queue_size q rest.queue-IsValid c fits in
        let waits : contents command_queue_size (queued c w).command_queue ≡ c ∷ [] =
          push_back-contents command_queue_size q rest.queue-IsValid c success
          ∙ ap (λ l. l ++ (c ∷ [])) rest.empty in
        fired_some (Queue.push_back command_queue_size q c).fired
          (push_back-fired command_queue_size q rest.queue-IsValid c rest.empty ∙ rest.kicks)
        ∙ ap (λ b. if b then dma_tx_complete hal (queued c w) else queued c w) rest.idle
        ∙ dma_tx_complete-started hal accepts k c [] (queued c w)
            (push_back-IsValid command_queue_size q c rest.queue-IsValid) waits kind free
      where
        fired_some :
            (o : Option QueueCallback)
            → o ≡ some kick_start_commands
            → elim o [ none ↦ queued c w | some k ↦ kick_start hal (queued c w) ]
              ≡ kick_start hal (queued c w)
        fired_some o e = rw e refl

    -- Commands that are pushed to a resting driver while the HAL accepts every transfer: once the
    -- transfers have ended, each command has gone out exactly once and in order, each write to a
    -- command register was followed by a read of it, the bytes of each read stand where they
    -- belong, and nothing runs and nothing waits.
    pub push_all-IsDone :
        (x : Exchange) (xs : List Exchange) (w : World)
        → IsResting w
        → AreExchanges (x ∷ xs) w.memory
        → length xs + 1 < command_queue_size
        → IsDone hal
            (landed_all (x ∷ xs) w.memory)
            w.sockets
            (log hal (x ∷ xs) w.memory w.events)
            (handle_all hal (ends (x ∷ xs)) (push_all (x ∷ xs) w))
    unfolding push_all
    push_all-IsDone x xs w rest all room =
        let q = w.command_queue in
        let c = x.cmd in
        let fits : q.count < command_queue_size = omega (arith, count_eq w [] rest.empty) in
        let waits : contents command_queue_size (queued c w).command_queue ≡ c ∷ [] =
          push_back-contents command_queue_size q rest.queue-IsValid c
            (push_back-success command_queue_size q rest.queue-IsValid c fits)
          ∙ ap (λ l. l ++ (c ∷ [])) rest.empty in
        let u = started hal x.kind c (queued c w) in
        let behind =
          push_all-IsQueuedBehind x.kind c [] xs u all.0
            (started-IsRunning hal accepts x.kind c [] (queued c w)
              (push_back-IsValid command_queue_size q c rest.queue-IsValid) waits)
            (omega arith) in
        let starts =
          push-started x.kind c w rest all.0
            (free_of hal accepts x.kind c x.received w.memory all.1) in
        rw starts (
          subst
            (λ s.
              IsDone hal (landed_all (x ∷ xs) w.memory) s (log hal (x ∷ xs) w.memory w.events)
                (handle_all hal (ends (x ∷ xs)) (push_all xs u)))
            behind.sockets_eq
            (running-IsDone hal accepts x xs w.memory w.events (push_all xs u) behind.running all
              behind.memory_eq behind.events_eq))
