-- ===== src/Driver/Isr/Drained.antt =====
-- The command queue is worked off in order.
use mathlib.Core.Path.{subst}
use wiznet_driver.Base.{ap₂, ℕ, ◌≡◌, refl, sym, ap, ◌∙◌, true, ◌==◌, List, [], ◌∷◌}
use wiznet_driver.Memory.{Memory, socket_regs}
use wiznet_driver.Queue.Window.{contents}
use wiznet_driver.Queue.Front.{pop_front-tail}
use wiznet_driver.Driver.Reg
use wiznet_driver.Driver.{Command, World, Hal, Socket, Event}
use wiznet_driver.Driver.{is_idle, command_queue_size}
use wiznet_driver.Driver.{cs_low}
use wiznet_driver.Driver.Engine.{dma_tx_complete}
use wiznet_driver.Driver.Engine.Started.{
  IsKind, Kind, sets, orders, writes, reads, transfer, started, dma_tx_complete-started,
  dma_tx_complete-rests,
}
use wiznet_driver.Driver.Isr.{handle_all}
use wiznet_driver.Driver.Isr.Exchange.{
  Exchange, commands, ends, landed, landed_all, log_of, log, Fits, AreExchanges,
}
use wiznet_driver.Driver.Isr.Ended.{IsRunning, IsBetween, end_log, started-IsRunning, ended}

module _ (hal : Hal) where
  -- All is done: nothing runs and nothing waits.
  pub record IsDone (m : Memory) (s : ℕ → Socket) (es : List Event) (w : World) : Type 0 where
    pub idle : is_idle w.running_cmd.cmd_type ≡ true
    pub empty : contents command_queue_size w.command_queue ≡ []
    pub memory_eq : w.memory ≡ m
    pub sockets_eq : w.sockets ≡ s
    pub events_eq : w.events ≡ es

  module _ (accepts : (es : List Event) → hal.accepts es ≡ true) where
    -- The starts and the ends of an exchange in the log.
    end_log-eq :
        (k : Kind) (c : Command) (m : Memory) (es : List Event)
        → end_log hal k c m (transfer k m c ∷ cs_low ∷ es) ≡ log_of hal k c m es
    end_log-eq sets c m es = refl
    end_log-eq orders c m es = refl
    end_log-eq writes c m es = refl
    end_log-eq reads c m es = refl

    pub free_of :
        (k : Kind) (c : Command) (bytes : List ℕ) (m : Memory)
        → Fits k c bytes m
        → k ≡ orders
        → (m (socket_regs c.sn) Reg.cr == 0x00) ≡ true
    free_of orders c bytes m fits e = fits.1
    free_of sets c bytes m fits e = absurd (cc e)
    free_of writes c bytes m fits e = absurd (cc e)
    free_of reads c bytes m fits e = absurd (cc e)

    -- An exchange that runs comes to its end; `next` is how it goes on from there.
    from_running :
        (x : Exchange) (xs : List Exchange) (m : Memory) (s : ℕ → Socket) (es : List Event)
        (w : World)
        → IsRunning hal x.kind x.cmd (commands xs) w
        → IsKind x.kind x.cmd
        → Fits x.kind x.cmd x.received m
        → w.memory ≡ m
        → w.sockets ≡ s
        → w.events ≡ transfer x.kind m x.cmd ∷ cs_low ∷ es
        → (next : (v : World)
            → IsBetween hal
                (commands xs)
                (landed x.kind x.cmd x.received m)
                s
                (log_of hal x.kind x.cmd m es)
                v
            → IsDone
                (landed_all (x ∷ xs) m)
                s
                (log hal (x ∷ xs) m es)
                (handle_all hal (ends xs) (dma_tx_complete hal v)))
        → IsDone
            (landed_all (x ∷ xs) m)
            s
            (log hal (x ∷ xs) m es)
            (handle_all hal (ends (x ∷ xs)) w)
    from_running x xs m s es w r kind fits memory_eq sockets_eq events_eq next =
        let k = x.kind in
        let c = x.cmd in
        let (v, same, b) =
          ended hal accepts k c x.received (commands xs) w (ends xs) r kind
            (subst (Fits k c x.received) (sym memory_eq) fits) in
        subst (IsDone (landed_all (x ∷ xs) m) s (log hal (x ∷ xs) m es)) (sym same) (
          next v record {
            waiting = b.waiting;
            queue-IsValid = b.queue-IsValid;
            memory_eq = b.memory_eq ∙ ap (landed k c x.received) memory_eq;
            sockets_eq = b.sockets_eq ∙ sockets_eq;
            events_eq =
                b.events_eq ∙ ap₂ (end_log hal k c) memory_eq events_eq ∙ end_log-eq k c m es;
          })

    dma_tx_complete-IsDone :
        (xs : List Exchange) (m : Memory) (s : ℕ → Socket) (es : List Event) (w : World)
        → IsBetween hal (commands xs) m s es w
        → AreExchanges xs m
        → IsDone
            (landed_all xs m)
            s
            (log hal xs m es)
            (handle_all hal (ends xs) (dma_tx_complete hal w))
    unfolding handle_all
    dma_tx_complete-IsDone [] m s es w b all =
        rw (dma_tx_complete-rests hal w b.queue-IsValid b.waiting) record {
          idle = refl;
          empty = pop_front-tail command_queue_size w.command_queue [] b.queue-IsValid b.waiting;
          memory_eq = b.memory_eq;
          sockets_eq = b.sockets_eq;
          events_eq = b.events_eq;
        }
    dma_tx_complete-IsDone (x ∷ xs) m s es w b (kind, fits, all) =
        let k = x.kind in
        let c = x.cmd in
        let starts =
          dma_tx_complete-started hal accepts k c (commands xs) w b.queue-IsValid b.waiting kind (
            free_of k c x.received w.memory (subst (Fits k c x.received) (sym b.memory_eq) fits)) in
        let running = started-IsRunning hal accepts k c (commands xs) w b.queue-IsValid b.waiting in
        subst
          (λ v.
            IsDone (landed_all (x ∷ xs) m) s (log hal (x ∷ xs) m es)
              (handle_all hal (ends (x ∷ xs)) v))
          (sym starts)
          (from_running x xs m s es (started hal k c w) running kind fits b.memory_eq b.sockets_eq
            (ap₂ (λ n l. transfer k n c ∷ cs_low ∷ l) b.memory_eq b.events_eq)
            (λ v next.
              dma_tx_complete-IsDone xs (landed k c x.received m) s (log_of hal k c m es) v next
                all))

    -- From a running command on.
    pub running-IsDone :
        (x : Exchange) (xs : List Exchange) (m : Memory) (es : List Event) (w : World)
        → IsRunning hal x.kind x.cmd (commands xs) w
        → AreExchanges (x ∷ xs) m
        → w.memory ≡ m
        → w.events ≡ transfer x.kind m x.cmd ∷ cs_low ∷ es
        → IsDone
            (landed_all (x ∷ xs) m)
            w.sockets
            (log hal (x ∷ xs) m es)
            (handle_all hal (ends (x ∷ xs)) w)
    running-IsDone x xs m es w r (kind, fits, all) same_memory same_events =
        from_running x xs m w.sockets es w r kind fits same_memory refl same_events (λ v next.
          dma_tx_complete-IsDone xs (landed x.kind x.cmd x.received m) w.sockets
            (log_of hal x.kind x.cmd m es) v next all)
