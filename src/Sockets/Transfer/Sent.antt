-- ===== src/Sockets/Transfer/Sent.antt =====
-- What a successful send or sendto leaves in the socket's queue and buffer.
use wiznet_driver.Base.{
  ℕ, zero, suc, ◌+◌, ◌-◌, ◌%◌, ◌^◌, ◌≡◌, ◌<◌, ◌≤◌, ◌⊎◌, inl, inr, refl, sym, ap, ◌∙◌, arith,
}
use wiznet_driver.Base.{Bool, true, false, not, ◌&&◌, ◌||◌, leb, ◌==◌, if◌then◌else◌}
use wiznet_driver.Base.{some, List, [], ◌∷◌, ◌++◌, length, take, All}
use wiznet_driver.Base.Int.{ℤ, pos, negsuc}
use wiznet_driver.Memory.{Memory, Pointer, load, store, advance, load-store, store-apart}
use wiznet_driver.Net.{SockResult, sock_ok, sockerr_queue_full, sockerr_txbuf_full}
use wiznet_driver.Net.{sockerr_invalid_param, sockerr_invalid_state, sockerr_pack_too_lrg}
use wiznet_driver.Queue
use wiznet_driver.Queue.Window.{contents}
use wiznet_driver.Queue.PutBack.{push_back-contents}
use wiznet_driver.Driver.{World, Hal, Segment, reg}
use wiznet_driver.Driver.{sock_num, socket_queue_size}
use wiznet_driver.Driver.Reg
use wiznet_driver.Driver.Pending.{send_pending_data}
use wiznet_driver.Driver.Engine.Keeps.{Holds}
use wiznet_driver.Driver.Buffers.{get_tx_buffer_index}
use wiznet_driver.Driver.Buffers.Layout.{IsApart}
use wiznet_driver.Driver.Buffers.Queued.{HasGap, chosen-IsApart}
use wiznet_driver.Driver.Sound.{IsSound}
use wiznet_driver.Sockets.Transfer.{
  behind_header, before_buffer, concluded, queue_segment, send_critical, too_large, send, sendto,
}
use wiznet_driver.Sockets.Transfer.Sound.{blank, small_enough, sent-minus_one}

-- The bytes of the segment are the same in both memories.
abbrev pub IsUntouched : Pointer → Memory → Memory → Segment → Type 0
IsUntouched p m m' g =
    (k : ℕ)
    → g.start_index ≤ k
    → k < g.end_index
    → m' p.region (p.offset + k) ≡ m p.region (p.offset + k)

-- What `sendto` completes the segment with.
abbrev pub addressed : List ℕ → ℕ → Segment → Segment
addressed addr port segment = record segment { addr = take 4 addr; port = port }

module _ (m : Memory) (p : Pointer) (i : ℕ) (bs : List ℕ) where
  store-IsUntouched :
      (gs : List Segment)
      → All (IsApart i (length bs + 3)) gs
      → All (IsUntouched p m (store m (advance p (i + 3)) bs)) gs
  store-IsUntouched [] all = tt
  store-IsUntouched (g ∷ gs) all = (
    λ k from to. store-apart m p (i + 3) bs k (outside all.0 k from to),
    store-IsUntouched gs all.1,
  )
    where
      outside :
          IsApart i (length bs + 3) g
          → (k : ℕ) → g.start_index ≤ k
          → k < g.end_index
          → (k < i + 3) ⊎ (i + 3 + length bs ≤ k)
      outside (inl h) k from to = inr (omega arith)
      outside (inr h) k from to = inl (omega arith)

-- Behind the tests of `send` and `sendto`, where it ends well.
guarded-ok :
    (b1 b2 b3 : Bool) (go : SockResult × World) (w : World)
    → let r : SockResult × World =
        if b1
        then (sockerr_invalid_param, w)
        else if b2
        then (sockerr_invalid_state, w)
        else if b3
        then (sockerr_pack_too_lrg, w)
        else go in
      r.0 ≡ sock_ok → (b3 ≡ false) × (r ≡ go)
guarded-ok true b2 b3 go w ok = absurd (cc ok)
guarded-ok false true b3 go w ok = absurd (cc ok)
guarded-ok false false true go w ok = absurd (cc ok)
guarded-ok false false false go w ok = (refl, refl)

success-ok : (b : Bool) → (if b then sock_ok else sockerr_queue_full) ≡ sock_ok → b ≡ true
success-ok true e = refl
success-ok false e = absurd (cc e)

module _ (hal : Hal) (sn : ℕ) (buf : List ℕ) (w : World) (p : Pointer)
    (fill : Segment → Segment) where
  -- What `send` has done before it calls sendPendingData.
  pub record IsQueuedAt (i : ℕ) (w1 : World) : Type 0 where
    pub chosen : get_tx_buffer_index (w.sockets sn) ((length buf + 3) % 2 ^ 16) ≡ pos i
    pub queued :
        contents socket_queue_size (w1.sockets sn).tx_buf_queue
        ≡ contents socket_queue_size (w.sockets sn).tx_buf_queue
          ++ (fill (blank i (length buf)) ∷ [])
    pub payload : load w1.memory (advance p (i + 3)) (length buf) ≡ buf
    pub others :
        All
          (IsUntouched p w.memory w1.memory)
          (contents socket_queue_size (w.sockets sn).tx_buf_queue)

  queue_segment-IsQueuedAt :
      (i : ℕ)
      → Holds IsSound w
      → HasGap (w.sockets sn).tx_buf_queue
      → (w.sockets sn).tx_buf ≡ some p
      → length buf + 3 < 2 ^ 16
      → get_tx_buffer_index (w.sockets sn) ((length buf + 3) % 2 ^ 16) ≡ pos i
      → (queue_segment sn buf (length buf) fill i (behind_header i) w).0 ≡ true
      → IsQueuedAt i (queue_segment sn buf (length buf) fill i (behind_header i) w).1
  unfolding queue_segment get_tx_buffer_index
  queue_segment-IsQueuedAt i h gap has small e success =
      let s = w.sockets sn in
      let sound = (h.each sn).tx-IsPlaced in
      let g = fill (blank i (length buf)) in
      let pushed : (Queue.push_back socket_queue_size s.tx_buf_queue g).success ≡ true = success in
      let same : (sn == sn) ≡ true = ground arith in
      let apart =
        (chosen-IsApart s.tx_buf_queue s.tx_buf_len sound ((length buf + 3) % 2 ^ 16) i gap e).1 in
      let no_wrap : (length buf + 3) % 2 ^ 16 ≡ length buf + 3 = omega arith in
      rw (pushed, has)
        record {
          chosen = e;
          queued =
              rw same
                (push_back-contents socket_queue_size s.tx_buf_queue sound.queue-IsValid g success);
          payload = load-store w.memory (advance p (i + 3)) buf;
          others =
              store-IsUntouched w.memory p i buf (contents socket_queue_size s.tx_buf_queue)
                (rw (← no_wrap) apart);
        }

  critical-IsQueuedAt :
      Holds IsSound w
      → HasGap (w.sockets sn).tx_buf_queue
      → (w.sockets sn).tx_buf ≡ some p
      → length buf + 3 < 2 ^ 16
      → (send_critical hal sn buf fill w).0 ≡ sock_ok
      → (i : ℕ) × (w1 : World) × ((send_critical hal sn buf fill w).1 ≡ send_pending_data hal sn w1)
        × IsQueuedAt i w1
  unfolding send_critical
  critical-IsQueuedAt h gap has small ok =
      placed (get_tx_buffer_index (w.sockets sn) ((length buf + 3) % 2 ^ 16)) refl ok
    where
      sent : ℤ → SockResult × World
      sent z = elim z [
        | pos i ↦ concluded hal sn (queue_segment sn buf (length buf) fill i (behind_header i) w)
        | negsuc zero ↦ (sockerr_txbuf_full, send_pending_data hal sn w)
        | negsuc (suc n) ↦
            concluded hal sn
              (queue_segment sn buf (length buf) fill (2 ^ 16 - (n + 2)) (before_buffer (n + 2)) w)
      ]

      placed :
          (z : ℤ)
          → get_tx_buffer_index (w.sockets sn) ((length buf + 3) % 2 ^ 16) ≡ z
          → (sent z).0 ≡ sock_ok
          → (i : ℕ) × (w1 : World) × ((sent z).1 ≡ send_pending_data hal sn w1) × IsQueuedAt i w1
      placed (pos i) e ok =
          let queued = queue_segment sn buf (length buf) fill i (behind_header i) w in
          (i, queued.1, refl, queue_segment-IsQueuedAt i h gap has small e (success-ok queued.0 ok))
      placed (negsuc zero) e ok = absurd (cc ok)
      placed (negsuc (suc n)) e ok =
          absurd (cc (sent-minus_one w sn ((length buf + 3) % 2 ^ 16) h (suc n) e))

module _ (hal : Hal) (sn : ℕ) (buf : List ℕ) (w : World) (p : Pointer) where
  -- In a state in which the queues are valid, every send buffer has less than 2^15 bytes and the
  -- segments to send lie apart in it, take a socket with a send buffer in which nothing is queued
  -- or the last segment does not end where the first one starts. Where `send` returns SOCK_OK, it
  -- has queued a segment behind the others and copied the data into the send buffer, three bytes
  -- behind the segment's start, before it called sendPendingData; and no byte of a segment that was
  -- queued before has changed.
  pub send-IsQueuedAt :
      Holds IsSound w
      → HasGap (w.sockets sn).tx_buf_queue
      → (w.sockets sn).tx_buf ≡ some p
      → (send hal sn (some buf) w).0 ≡ sock_ok
      → (i : ℕ) × (w1 : World) × ((send hal sn (some buf) w).1 ≡ send_pending_data hal sn w1)
        × IsQueuedAt hal sn buf w p (λ segment. segment) i w1
  unfolding send
  send-IsQueuedAt h gap has ok =
      let sr = reg w sn Reg.sr in
      let critical = send_critical hal sn buf (λ segment. segment) w in
      let (fits, same) =
        guarded-ok (leb sock_num sn || length buf == 0)
          (not (sr == Reg.sock_established) && not (sr == Reg.sock_close_wait))
          (too_large hal sn (length buf) w) critical w ok in
      rw same (
        critical-IsQueuedAt hal sn buf w p (λ segment. segment) h gap has
          (small_enough sn (length buf) hal w h fits) (ap (λ r. r.0) (sym same) ∙ ok))

  -- The same for `sendto`, whose segment has the destination.
  pub sendto-IsQueuedAt :
      (addr : List ℕ) (port : ℕ)
      → Holds IsSound w
      → HasGap (w.sockets sn).tx_buf_queue
      → (w.sockets sn).tx_buf ≡ some p
      → (sendto hal sn (some buf) (some addr) port w).0 ≡ sock_ok
      → (i : ℕ) × (w1 : World) × ((sendto hal sn (some buf) (some addr) port w).1
          ≡ send_pending_data hal sn w1)
        × IsQueuedAt hal sn buf w p (addressed addr port) i w1
  unfolding sendto
  sendto-IsQueuedAt addr port h gap has ok =
      let critical = send_critical hal sn buf (addressed addr port) w in
      let (fits, same) =
        guarded-ok (leb sock_num sn || length buf == 0 || port == 0)
          (not (reg w sn Reg.sr == Reg.sock_udp)) (too_large hal sn (length buf) w) critical w ok in
      rw same (
        critical-IsQueuedAt hal sn buf w p (addressed addr port) h gap has
          (small_enough sn (length buf) hal w h fits) (ap (λ r. r.0) (sym same) ∙ ok))
