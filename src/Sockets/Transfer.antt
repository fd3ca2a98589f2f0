-- ===== src/Sockets/Transfer.antt =====
-- Src/socket.cpp: send, sendto, recv and recvfrom.
pub mod Sound
pub mod Taken
pub mod Sent
pub mod Received
pub mod Output
pub mod Datagrams
pub mod Unpacked
use wiznet_driver.Base.{ℕ, zero, suc, ◌+◌, ◌-◌, ◌*◌, ◌%◌, ◌^◌, Bool, not, ◌&&◌, ◌||◌}
use wiznet_driver.Base.{ltb, leb, ◌==◌, if◌then◌else◌, Option, none, some, List, [], ◌++◌}
use wiznet_driver.Base.{length, take, get_or}
use wiznet_driver.Base.Bits.{be16}
use wiznet_driver.Base.Int.{pos, negsuc}
use wiznet_driver.Memory.{Pointer, Memory, store, load, advance, retreat}
use wiznet_driver.Net.{SockResult, sock_ok, sockerr_invalid_param, sockerr_queue_full}
use wiznet_driver.Net.{sockerr_invalid_state, sockerr_pack_too_lrg, sockerr_txbuf_full, Datagram}
use wiznet_driver.Queue
use wiznet_driver.Driver.Reg
use wiznet_driver.Driver.{World, Hal, Segment, reg, put_socket, sock_num, socket_queue_size}
use wiznet_driver.Driver.Buffers.{get_tx_buffer_index}
use wiznet_driver.Driver.Pending.{send_pending_data, receive_pending_data}

-- The write of `bytes` through a pointer that may be null, and the read of `n` bytes.
abbrev pub store_at : Option Pointer → (Pointer → Pointer) → List ℕ → Memory → Memory
store_at none place bytes m = m
store_at (some p) place bytes m = store m (place p) bytes

abbrev pub load_at : Option Pointer → ℕ → ℕ → Memory → List ℕ
load_at none i n m = []
load_at (some p) i n m = load m (advance p i) n

-- `tx_buf + write_index + 3`, for an index from 0 on, and for the index -k.
abbrev pub behind_header : ℕ → Pointer → Pointer
behind_header write_index p = advance p (write_index + 3)

abbrev pub before_buffer : ℕ → Pointer → Pointer
before_buffer k p = retreat (advance p 3) k

-- The buffers of the two `send`s hold `len` bytes at `place`. `write_index` is the index in 16 bits,
-- and `fill` completes the segment.
unfoldable pub queue_segment :
    ℕ → List ℕ → ℕ → (Segment → Segment) → ℕ → (Pointer → Pointer) → World → Bool × World
unfolding store Queue.push_back
queue_segment sn buf len fill write_index place w =
    let s = w.sockets sn in
    let segment = fill record {
      start_index = write_index;
      end_index = (write_index + len + 3) % 2 ^ 16;
      addr = [];
      port = 0;
    } in
    let p = Queue.push_back socket_queue_size s.tx_buf_queue segment in
    let w1 = put_socket w sn (record s { tx_buf_queue = p.queue }) in
    (
      p.success,
      if p.success then record w1 { memory = store_at s.tx_buf place buf w1.memory } else w1,
    )

module _ (hal : Hal) where
  -- What `send` and `sendto` do and return behind the push.
  abbrev pub concluded : ℕ → Bool × World → SockResult × World
  concluded sn (success, w1) =
      (if success then sock_ok else sockerr_queue_full, send_pending_data hal sn w1)

  -- The critical section of `send` and `sendto`, and what they return. -1 is the only index that
  -- says that there is no room.
  unfoldable pub send_critical : ℕ → List ℕ → (Segment → Segment) → World → SockResult × World
  unfolding get_tx_buffer_index queue_segment send_pending_data
  send_critical sn buf fill w =
      let len = length buf in
      elim (get_tx_buffer_index (w.sockets sn) ((len + 3) % 2 ^ 16)) [
        | pos write_index ↦
            concluded sn (queue_segment sn buf len fill write_index (behind_header write_index) w)
        | negsuc zero ↦ (sockerr_txbuf_full, send_pending_data hal sn w)
        | negsuc (suc n) ↦
            concluded sn
              (queue_segment sn buf len fill (2 ^ 16 - (n + 2)) (before_buffer (n + 2)) w)
      ]

  -- `TXBUF_SIZE * 1024 < len || tx_buf_len < len + 3`
  abbrev pub too_large : ℕ → ℕ → World → Bool
  too_large sn len w =
      ltb (reg w sn Reg.txbuf_size * 1024) len || ltb (w.sockets sn).tx_buf_len (len + 3)

  -- `buf` is `none` for a null pointer, and otherwise the `len` bytes that it points to.
  unfoldable pub send : ℕ → Option (List ℕ) → World → SockResult × World
  unfolding send_critical
  send sn none w = (sockerr_invalid_param, w)
  send sn (some buf) w =
      let sr = reg w sn Reg.sr in
      if leb sock_num sn || length buf == 0
      then (sockerr_invalid_param, w)
      else if not (sr == Reg.sock_established) && not (sr == Reg.sock_close_wait)
      then (sockerr_invalid_state, w)
      else if too_large sn (length buf) w
      then (sockerr_pack_too_lrg, w)
      else send_critical sn buf (λ segment. segment) w

  unfoldable pub sendto : ℕ → Option (List ℕ) → Option (List ℕ) → ℕ → World → SockResult × World
  unfolding send_critical
  sendto sn none addr port w = (sockerr_invalid_param, w)
  sendto sn (some buf) none port w = (sockerr_invalid_param, w)
  sendto sn (some buf) (some addr) port w =
      if leb sock_num sn || length buf == 0 || port == 0
      then (sockerr_invalid_param, w)
      else if not (reg w sn Reg.sr == Reg.sock_udp)
      then (sockerr_invalid_state, w)
      else if too_large sn (length buf) w
      then (sockerr_pack_too_lrg, w)
      else send_critical sn buf (λ segment. record segment { addr = take 4 addr; port = port }) w

-- A segment's length without the three header bytes, and its data.
abbrev pub data_len : Segment → ℕ
data_len s = (s.end_index + 2 ^ 16 - s.start_index + 2 ^ 16 - 3) % 2 ^ 16

abbrev pub segment_data : ℕ → Segment → World → List ℕ
segment_data sn s w = load_at (w.sockets sn).rx_buf (s.start_index + 3) (data_len s) w.memory

-- The loop of `recv`: it takes whole segments while they fit in `len` bytes. Each round pops a
-- segment, so the number of segments bounds the rounds.
unfoldable pub recv_loop : ℕ → ℕ → ℕ → List ℕ → World → List ℕ × World
unfolding load Queue.peek_front Queue.pop_front
recv_loop zero sn len out w = (out, w)
recv_loop (suc fuel) sn len out w =
    let s = w.sockets sn in
    let total_copied = length out in
    let w' =
      put_socket w sn
        (record s { rx_buf_queue = (Queue.pop_front socket_queue_size s.rx_buf_queue).1 }) in
    elim (Queue.peek_front s.rx_buf_queue) [
      | none ↦ (out, w)
      | some segment ↦
          if ltb total_copied len && leb (data_len segment) (len - total_copied)
          then recv_loop fuel sn len (out ++ segment_data sn segment w) w'
          else (out, w)
    ]

module _ (hal : Hal) where
  -- `wants` says that the buffer is not null; the bytes that are written to it are returned.
  unfoldable pub recv : ℕ → Bool → ℕ → World → List ℕ × World
  unfolding recv_loop receive_pending_data
  recv sn wants len w =
      if leb sock_num sn || not wants || len == 0
      then ([], w)
      else let (out, w') = recv_loop (w.sockets sn).rx_buf_queue.count sn len [] w in
        (out, receive_pending_data hal sn w')

  -- The datagram at the front of a segment: its header of eight bytes behind the SPI header, and
  -- its data; and the socket without it. What is left of the segment goes back to the front, with
  -- three bytes before it for a header that is not there.
  unfoldable pub take_datagram : ℕ → Segment → ℕ → World → Option Datagram × World
  unfolding load Queue.pop_front Queue.push_front
  take_datagram sn segment len w =
      let s = w.sockets sn in
      let head = load_at s.rx_buf (segment.start_index + 3) 8 w.memory in
      let packet_len = be16 (get_or head 6 0) (get_or head 7 0) in
      let new_start_index = (segment.start_index + (3 + 8 + packet_len)) % 2 ^ 16 in
      let popped = (Queue.pop_front socket_queue_size s.rx_buf_queue).1 in
      let rest = record segment { start_index = (new_start_index + 2 ^ 16 - 3) % 2 ^ 16 } in
      let q =
        if ltb (new_start_index + 8) segment.end_index
        then (Queue.push_front socket_queue_size popped rest).queue
        else popped in
      if leb packet_len len
      then (
        some record {
          bytes = load_at s.rx_buf (segment.start_index + 3 + 8) packet_len w.memory;
          peer_ip = take 4 head;
          peer_port = be16 (get_or head 4 0) (get_or head 5 0);
        },
        put_socket w sn (record s { rx_buf_queue = q }),
      )
      else (none, w)

  -- `none` is a result of 0 with nothing written.
  unfoldable pub recvfrom : ℕ → Bool → ℕ → World → Option Datagram × World
  unfolding take_datagram receive_pending_data Queue.peek_front
  recvfrom sn wants len w =
      if leb sock_num sn || not wants || len == 0
      then (none, w)
      else let received : Option Datagram × World =
          elim (Queue.peek_front (w.sockets sn).rx_buf_queue) [
            | none ↦ (none, w)
            | some segment ↦
                if leb 11 ((segment.end_index + 2 ^ 16 - segment.start_index) % 2 ^ 16)
                then take_datagram sn segment len w
                else (none, w)
          ] in
        (received.0, receive_pending_data hal sn received.1)
