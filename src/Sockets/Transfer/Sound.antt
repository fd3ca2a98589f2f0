-- ===== src/Sockets/Transfer/Sound.antt =====
-- send and sendto keep the invariant of the driver's state.
use wiznet_driver.Base.{ℕ, zero, suc, ◌+◌, ◌-◌, ◌%◌, ◌^◌, ◌≡◌, ◌<◌, ◌≤◌, refl, sym, ap, ◌∙◌, arith}
use wiznet_driver.Base.{Bool, true, false, not, ◌&&◌, ◌||◌, leb, ◌==◌, if◌then◌else◌}
use wiznet_driver.Base.{Option, none, some, List, [], length, take}
use wiznet_driver.Base.Int.{ℤ, pos, negsuc}
use wiznet_driver.Net.{sockerr_invalid_param, sockerr_invalid_state, sockerr_pack_too_lrg}
use wiznet_driver.Net.{SockResult, sockerr_txbuf_full}
use wiznet_driver.Queue
use wiznet_driver.Driver.Reg
use wiznet_driver.Driver.{World, Hal, Socket, Segment, reg, put_socket, sock_num}
use wiznet_driver.Driver.{socket_queue_size}
use wiznet_driver.Driver.Buffers.{get_tx_buffer_index}
use wiznet_driver.Driver.Buffers.Queued.{
  HasGap, push_back-IsPlaced, chosen-IsApart, buffer_index-minus_one,
}
use wiznet_driver.Driver.Engine.Keeps.{Holds, if-Holds}
use wiznet_driver.Driver.Sound.{IsSound, at_memory-IsSound, put_socket-IsSound}
use wiznet_driver.Driver.Sound.{send_pending_data-IsSound}
use wiznet_driver.Sockets.Transfer.{
  behind_header, before_buffer, concluded, store_at, queue_segment, send_critical, too_large, send,
  sendto,
}
use wiznet_driver.Driver.Pending.{send_pending_data}

-- The segment that is queued, before `fill`.
abbrev pub blank : ℕ → ℕ → Segment
blank write_index len = record {
  start_index = write_index;
  end_index = (write_index + len + 3) % 2 ^ 16;
  addr = [];
  port = 0;
}

-- In a state of the invariant the one negative index is -1.
pub sent-minus_one :
    (w : World) (sn len : ℕ)
    → Holds IsSound w
    → (n : ℕ) → get_tx_buffer_index (w.sockets sn) len ≡ negsuc n
    → n ≡ 0
unfolding get_tx_buffer_index
sent-minus_one w sn len h n e =
    let s = w.sockets sn in
    buffer_index-minus_one s.tx_buf_queue s.tx_buf_len (h.each sn).tx-IsPlaced len n e

-- What `send` and `sendto` do to the segment: its place stays.
pub record KeepsPlace (fill : Segment → Segment) : Type 0 where
  pub starts : (s : Segment) → (fill s).start_index ≡ s.start_index
  pub ends : (s : Segment) → (fill s).end_index ≡ s.end_index

module _ (sn : ℕ) (buf : List ℕ) (fill : Segment → Segment) (place : KeepsPlace fill) where
  -- The index that was chosen leaves room, so that the end of the segment does not wrap.
  pub segment-end :
      (i : ℕ) (w : World)
      → Holds IsSound w
      → HasGap (w.sockets sn).tx_buf_queue
      → length buf + 3 < 2 ^ 16
      → get_tx_buffer_index (w.sockets sn) ((length buf + 3) % 2 ^ 16) ≡ pos i
      → ((fill (blank i (length buf))).end_index ≡ i + (length buf + 3))
        × (i + (length buf + 3) ≤ (w.sockets sn).tx_buf_len)
  unfolding get_tx_buffer_index
  segment-end i w h gap small e =
      let s = w.sockets sn in
      let sound = (h.each sn).tx-IsPlaced in
      let apart =
        chosen-IsApart s.tx_buf_queue s.tx_buf_len sound ((length buf + 3) % 2 ^ 16) i gap e in
      omega (arith, place.ends (blank i (length buf)), apart.0, sound.small)

  queue_segment-IsSound :
      (i : ℕ) (w : World)
      → Holds IsSound w
      → HasGap (w.sockets sn).tx_buf_queue
      → length buf + 3 < 2 ^ 16
      → get_tx_buffer_index (w.sockets sn) ((length buf + 3) % 2 ^ 16) ≡ pos i
      → Holds IsSound (queue_segment sn buf (length buf) fill i (behind_header i) w).1
  unfolding queue_segment get_tx_buffer_index
  queue_segment-IsSound i w h gap small e =
      let s = w.sockets sn in
      let g = fill (blank i (length buf)) in
      let p = Queue.push_back socket_queue_size s.tx_buf_queue g in
      let s' : Socket = record s { tx_buf_queue = p.queue } in
      let w1 = put_socket w sn s' in
      let h1 : Holds IsSound w1 = put_socket-IsSound w sn s' h record {
        tx-IsPlaced =
            push_back-IsPlaced s.tx_buf_queue s.tx_buf_len (h.each sn).tx-IsPlaced g
              ((length buf + 3) % 2 ^ 16) gap (omega arith)
              (omega (arith, segment-end i w h gap small e, place.starts (blank i (length buf))))
              (e ∙ ap pos (sym (place.starts (blank i (length buf)))));
        rx-IsValid = (h.each sn).rx-IsValid;
      } in
      let m = store_at s.tx_buf (behind_header i) buf w1.memory in
      if-Holds IsSound p.success (record w1 { memory = m }) w1 (at_memory-IsSound m w1 h1) h1

  send_critical-IsSound :
      (hal : Hal) (w : World)
      → Holds IsSound w
      → HasGap (w.sockets sn).tx_buf_queue
      → length buf + 3 < 2 ^ 16
      → Holds IsSound (send_critical hal sn buf fill w).1
  unfolding send_critical
  send_critical-IsSound hal w h gap small =
      placed (get_tx_buffer_index (w.sockets sn) ((length buf + 3) % 2 ^ 16)) refl
    where
      placed :
          (z : ℤ)
          → get_tx_buffer_index (w.sockets sn) ((length buf + 3) % 2 ^ 16) ≡ z
          → Holds IsSound
              (elim z as (λ z. SockResult × World) [
                | pos i ↦
                    concluded hal sn (queue_segment sn buf (length buf) fill i (behind_header i) w)
                | negsuc zero ↦ (sockerr_txbuf_full, send_pending_data hal sn w)
                | negsuc (suc n) ↦ concluded hal sn (
                    queue_segment sn buf
                      (length buf)
                      fill
                      (2 ^ 16 - (n + 2))
                      (before_buffer (n + 2))
                      w)
              ]).1
      placed (pos i) e =
          send_pending_data-IsSound hal sn
            (queue_segment sn buf (length buf) fill i (behind_header i) w).1
            (queue_segment-IsSound i w h gap small e)
      placed (negsuc zero) e = send_pending_data-IsSound hal sn w h
      placed (negsuc (suc n)) e =
          absurd (cc (sent-minus_one w sn ((length buf + 3) % 2 ^ 16) h (suc n) e))

-- Three tests that return at once, and the code behind them.
guarded-IsSound :
    (b1 b2 b3 : Bool) (r1 r2 r3 : SockResult) (go : SockResult × World) (w : World)
    → Holds IsSound w
    → (b3 ≡ false → Holds IsSound go.1)
    → Holds IsSound (if b1 then (r1, w) else if b2 then (r2, w) else if b3 then (r3, w) else go).1
guarded-IsSound true b2 b3 r1 r2 r3 go w h f = h
guarded-IsSound false true b3 r1 r2 r3 go w h f = h
guarded-IsSound false false true r1 r2 r3 go w h f = h
guarded-IsSound false false false r1 r2 r3 go w h f = f refl

-- A length that is not too large leaves the header room, without wrapping.
pub small_enough :
    (sn len : ℕ) (hal : Hal) (w : World)
    → Holds IsSound w
    → too_large hal sn len w ≡ false
    → len + 3 < 2 ^ 16
small_enough sn len hal w h e = let sound = (h.each sn).tx-IsPlaced in ground (arith, sound.small)

module _ (hal : Hal) (sn : ℕ) where
  pub send-IsSound :
      (buf : Option (List ℕ)) (w : World)
      → Holds IsSound w
      → HasGap (w.sockets sn).tx_buf_queue
      → Holds IsSound (send hal sn buf w).1
  unfolding send
  send-IsSound none w h gap = h
  send-IsSound (some buf) w h gap =
      let sr = reg w sn Reg.sr in
      let fill : Segment → Segment = λ segment. segment in
      guarded-IsSound (leb sock_num sn || length buf == 0)
        (not (sr == Reg.sock_established) && not (sr == Reg.sock_close_wait))
        (too_large hal sn (length buf) w) sockerr_invalid_param sockerr_invalid_state
        sockerr_pack_too_lrg (send_critical hal sn buf fill w) w h
        (λ e.
          send_critical-IsSound sn buf fill (record { starts = λ s. refl; ends = λ s. refl }) hal w
            h gap (small_enough sn (length buf) hal w h e))

  pub sendto-IsSound :
      (buf addr : Option (List ℕ)) (port : ℕ) (w : World)
      → Holds IsSound w
      → HasGap (w.sockets sn).tx_buf_queue
      → Holds IsSound (sendto hal sn buf addr port w).1
  unfolding sendto
  sendto-IsSound none addr port w h gap = h
  sendto-IsSound (some buf) none port w h gap = h
  sendto-IsSound (some buf) (some addr) port w h gap =
      let fill : Segment → Segment =
        λ segment. record segment { addr = take 4 addr; port = port } in
      guarded-IsSound (leb sock_num sn || length buf == 0 || port == 0)
        (not (reg w sn Reg.sr == Reg.sock_udp)) (too_large hal sn (length buf) w)
        sockerr_invalid_param sockerr_invalid_state sockerr_pack_too_lrg
        (send_critical hal sn buf fill w) w h
        (λ e.
          send_critical-IsSound sn buf fill (record { starts = λ s. refl; ends = λ s. refl }) hal w
            h gap (small_enough sn (length buf) hal w h e))
