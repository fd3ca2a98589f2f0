-- ===== src/Sockets/Transfer/Taken.antt =====
-- recv and recvfrom keep the invariant of the driver's state.
use wiznet_driver.Base.{ℕ, zero, suc, ◌+◌, ◌-◌, ◌%◌, ◌^◌}
use wiznet_driver.Base.{Bool, true, false, not, ◌&&◌, ◌||◌, ltb, leb, ◌==◌, if◌then◌else◌}
use wiznet_driver.Base.{Option, none, some, List, [], ◌++◌, length}
use wiznet_driver.Queue
use wiznet_driver.Base.{get_or}
use wiznet_driver.Base.Bits.{be16}
use wiznet_driver.Net.{Datagram}
use wiznet_driver.Driver.{QueueCallback}
use wiznet_driver.Sockets.Transfer.{load_at}
use wiznet_driver.Queue.Valid.{IsValid, pop_front-IsValid, push_front-IsValid}
use wiznet_driver.Driver.{World, Hal, Socket, Segment, put_socket, sock_num}
use wiznet_driver.Driver.{socket_queue_size}
use wiznet_driver.Driver.Engine.Keeps.{Keeps, Holds}
use wiznet_driver.Driver.Sound.{IsSound, put_socket-IsSound}
use wiznet_driver.Driver.Sound.{receive_pending_data-IsSound}
use wiznet_driver.Sockets.Transfer.{data_len, recv_loop, recv, take_datagram, recvfrom}
use wiznet_driver.Sockets.Transfer.{segment_data}
use wiznet_driver.Driver.Pending.{receive_pending_data}

result-IsSound :
    {R : Type 0} (b : Bool) (u v : R × World)
    → Holds IsSound u.1
    → Holds IsSound v.1
    → Holds IsSound (if b then u else v).1
result-IsSound true u v p q = p
result-IsSound false u v p q = q

module _ (hal : Hal) (sn : ℕ) where
  pop_received-IsSound : Keeps IsSound (λ w. put_socket w sn (record (w.sockets sn) {
    rx_buf_queue = (Queue.pop_front socket_queue_size (w.sockets sn).rx_buf_queue).1;
  }))
  pop_received-IsSound w h =
      let q = (w.sockets sn).rx_buf_queue in
      put_socket-IsSound w sn
        (record (w.sockets sn) { rx_buf_queue = (Queue.pop_front socket_queue_size q).1 }) h
        record {
          tx-IsPlaced = (h.each sn).tx-IsPlaced;
          rx-IsValid = pop_front-IsValid socket_queue_size q (h.each sn).rx-IsValid;
        }

  recv_loop-IsSound :
      (fuel len : ℕ) (out : List ℕ) (w : World)
      → Holds IsSound w
      → Holds IsSound (recv_loop fuel sn len out w).1
  unfolding recv_loop
  recv_loop-IsSound zero len out w h = h
  recv_loop-IsSound (suc fuel) len out w h =
      taken (λ out'. recv_loop-IsSound fuel len out' w' (pop_received-IsSound w h))
        (Queue.peek_front (w.sockets sn).rx_buf_queue)
    where
      w' : World
      w' = put_socket w sn (record (w.sockets sn) {
        rx_buf_queue = (Queue.pop_front socket_queue_size (w.sockets sn).rx_buf_queue).1;
      })

      taken :
          ((out' : List ℕ) → Holds IsSound (recv_loop fuel sn len out' w').1)
          → (o : Option Segment)
          → Holds IsSound
              (elim o as (λ o. List ℕ × World) [
                | none ↦ (out, w)
                | some segment ↦
                    if ltb (length out) len && leb (data_len segment) (len - length out)
                    then recv_loop fuel sn len (out ++ segment_data sn segment w) w'
                    else (out, w)
              ]).1
      taken loop none = h
      taken loop (some segment) =
          let next = recv_loop fuel sn len (out ++ segment_data sn segment w) w' in
          result-IsSound (ltb (length out) len && leb (data_len segment) (len - length out)) next
            (out, w) (loop (out ++ segment_data sn segment w)) h

  pub recv-IsSound :
      (wants : Bool) (len : ℕ) (w : World)
      → Holds IsSound w
      → Holds IsSound (recv hal sn wants len w).1
  unfolding recv
  recv-IsSound wants len w h =
      let r = recv_loop (w.sockets sn).rx_buf_queue.count sn len [] w in
      result-IsSound (leb sock_num sn || not wants || len == 0) ([], w)
        (r.0, receive_pending_data hal sn r.1) h
        (receive_pending_data-IsSound hal sn r.1
          (recv_loop-IsSound (w.sockets sn).rx_buf_queue.count len [] w h))

  pushed-IsValid :
      (q : Queue.Queue Segment QueueCallback) (g : Segment) (b : Bool)
      → IsValid socket_queue_size q
      → IsValid socket_queue_size (if b then (Queue.push_front socket_queue_size q g).queue else q)
  pushed-IsValid q g true v = push_front-IsValid socket_queue_size q g v
  pushed-IsValid q g false v = v

  take_datagram-IsSound :
      (segment : Segment) (len : ℕ) (w : World)
      → Holds IsSound w
      → Holds IsSound (take_datagram hal sn segment len w).1
  unfolding take_datagram
  take_datagram-IsSound segment len w h =
      let s = w.sockets sn in
      let head = load_at s.rx_buf (segment.start_index + 3) 8 w.memory in
      let packet_len = be16 (get_or head 6 0) (get_or head 7 0) in
      let new_start_index = (segment.start_index + (3 + 8 + packet_len)) % 2 ^ 16 in
      let popped = (Queue.pop_front socket_queue_size s.rx_buf_queue).1 in
      let rest : Segment = record segment {
        start_index = (new_start_index + 2 ^ 16 - 3) % 2 ^ 16;
      } in
      let more = ltb (new_start_index + 8) segment.end_index in
      let q = if more then (Queue.push_front socket_queue_size popped rest).queue else popped in
      let s' : Socket = record s { rx_buf_queue = q } in
      result-IsSound {R = Option Datagram} (leb packet_len len) (some _, put_socket w sn s')
        (none, w)
        (put_socket-IsSound w sn s' h record {
          tx-IsPlaced = (h.each sn).tx-IsPlaced;
          rx-IsValid =
              pushed-IsValid popped rest more
                (pop_front-IsValid socket_queue_size s.rx_buf_queue (h.each sn).rx-IsValid);
        })
        h

  pub recvfrom-IsSound :
      (wants : Bool) (len : ℕ) (w : World)
      → Holds IsSound w
      → Holds IsSound (recvfrom hal sn wants len w).1
  unfolding recvfrom
  recvfrom-IsSound wants len w h =
      let o = Queue.peek_front (w.sockets sn).rx_buf_queue in
      result-IsSound (leb sock_num sn || not wants || len == 0) (none, w)
        ((received o).0, receive_pending_data hal sn (received o).1) h
        (receive_pending_data-IsSound hal sn (received o).1 (received-IsSound o))
    where
      received : Option Segment → Option Datagram × World
      received o = elim o [
        | none ↦ (none, w)
        | some segment ↦
            if leb 11 ((segment.end_index + 2 ^ 16 - segment.start_index) % 2 ^ 16)
            then take_datagram hal sn segment len w
            else (none, w)
      ]

      received-IsSound : (o : Option Segment) → Holds IsSound (received o).1
      received-IsSound none = h
      received-IsSound (some segment) =
          result-IsSound (leb 11 ((segment.end_index + 2 ^ 16 - segment.start_index) % 2 ^ 16))
            (take_datagram hal sn segment len w) (none, w) (take_datagram-IsSound segment len w h) h
