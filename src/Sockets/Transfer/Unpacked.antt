-- ===== src/Sockets/Transfer/Unpacked.antt =====
-- What recvfrom returns, and what it leaves.
use wiznet_driver.Base.{ℕ, ◌+◌, ◌-◌, ◌%◌, ◌^◌, ◌≡◌, ◌≢◌, ◌<◌, ◌≤◌, refl, ap, ap₂, ◌∙◌, arith}
use wiznet_driver.Base.{Bool, true, false, not, ◌||◌, ltb, leb, ◌==◌, if◌then◌else◌, Option, none}
use wiznet_driver.Base.{some, List, [], ◌∷◌, ◌++◌, All, length, take, get_or, length-append}
use wiznet_driver.Base.Bits.{be16}
use wiznet_driver.Memory.{Pointer, load, advance}
use wiznet_driver.Net.{Datagram}
use wiznet_driver.Queue
use wiznet_driver.Queue.Valid.{IsValid, pop_front-IsValid}
use wiznet_driver.Queue.Window.{contents}
use wiznet_driver.Queue.Front.{peek_front-head?, pop_front-head?, pop_front-tail}
use wiznet_driver.Queue.PutBack.{push_front-contents, pop_front-not_full}
use wiznet_driver.Driver.{
  QueueCallback, World, Hal, Segment, Socket, put_socket, sock_num, socket_queue_size,
}
use wiznet_driver.Driver.Pending.{receive_pending_data, u16_bytes}
use wiznet_driver.Sockets.Transfer.{load_at, take_datagram, recvfrom}
use wiznet_driver.Sockets.Transfer.Received.{received}
use wiznet_driver.Sockets.Transfer.Datagrams.{
  HoldsDatagrams, stream, datagram_bytes, left_of, left_of-HoldsDatagrams, held_parts,
  length-stream, head_of, head_of_fields, IsDatagram,
}

-- The segments once the first datagram of the front one has been taken.
abbrev pub and_left : List Datagram → Segment → List Segment → List Segment
and_left [] g gs = gs
and_left (d ∷ ds) g gs = g ∷ gs

module _ (hal : Hal) (sn : ℕ) (p : Pointer) (g : Segment) (d : Datagram) (ds : List Datagram)
    (w : World) (has : (w.sockets sn).rx_buf ≡ some p)
    (h : HoldsDatagrams p w.memory g (d ∷ ds)) where
  abbrev rest_of : Segment
  rest_of = left_of p w.memory g d ds h

  -- The queue without the datagram.
  abbrev queue_left : Queue.Queue Segment QueueCallback
  queue_left =
      let popped = (Queue.pop_front socket_queue_size (received sn w)).1 in
      if ltb (g.start_index + 3 + 8 + length d.bytes + 8) g.end_index
      then (Queue.push_front socket_queue_size popped rest_of).queue
      else popped

  -- take_datagram, once the header has been read: the length, the peer and the data.
  abbrev out : ℕ → ℕ → List ℕ → ℕ → List ℕ → Option Datagram × World
  out len n ip port bytes =
      let new_start_index = (g.start_index + (3 + 8 + n)) % 2 ^ 16 in
      let popped = (Queue.pop_front socket_queue_size (received sn w)).1 in
      let rest = record g { start_index = (new_start_index + 2 ^ 16 - 3) % 2 ^ 16 } in
      let q =
        if ltb (new_start_index + 8) g.end_index
        then (Queue.push_front socket_queue_size popped rest).queue
        else popped in
      if leb n len
      then (
        some record { bytes = bytes; peer_ip = ip; peer_port = port },
        put_socket w sn (record (w.sockets sn) { rx_buf_queue = q }),
      )
      else (none, w)

  abbrev out_of : ℕ → List ℕ → (ℕ → List ℕ) → Option Datagram × World
  out_of len head data_at =
      let n = be16 (get_or head 6 0) (get_or head 7 0) in
      out len n (take 4 head) (be16 (get_or head 4 0) (get_or head 5 0)) (data_at n)

  take_datagram-eq :
      (len : ℕ)
      → length d.bytes ≤ len
      → take_datagram hal sn g len w
        ≡ (some d, put_socket w sn (record (w.sockets sn) { rx_buf_queue = queue_left }))
  unfolding take_datagram
  take_datagram-eq len fits =
      let (head_eq, bytes_eq, _) = held_parts p w.memory g d ds h in
      let (ip, port, size) = head_of_fields d h.each.0 in
      let fits_test : leb (length d.bytes) len ≡ true = ground arith in
      let n = length d.bytes in
      let start_eq : (g.start_index + (3 + 8 + n)) % 2 ^ 16 ≡ g.start_index + 3 + 8 + n =
        omega (arith, length-stream p w.memory g d ds h, h.ends, h.small) in
      let left_eq : (g.start_index + 3 + 8 + n + 2 ^ 16 - 3) % 2 ^ 16 ≡ g.start_index + 8 + n =
        omega (arith, length-stream p w.memory g d ds h, h.ends, h.small) in
      let data_at = λ (k : ℕ). load w.memory (advance p (g.start_index + 3 + 8)) k in
      ap
        (λ o.
          out_of len (load_at o (g.start_index + 3) 8 w.memory)
            (λ k. load_at o (g.start_index + 3 + 8) k w.memory))
        has
      ∙ ap (λ head. out_of len head data_at) head_eq
      ∙ ap₂
          (λ k a. out len k a (be16 (get_or (head_of d) 4 0) (get_or (head_of d) 5 0)) (data_at k))
          size ip
      ∙ ap₂ (out len n d.peer_ip) port bytes_eq
      ∙ rw (fits_test, start_eq, left_eq) refl

  -- What is left is pushed back where datagrams are left.
  queue_left-contents :
      (gs : List Segment)
      → IsValid socket_queue_size (received sn w)
      → contents socket_queue_size (received sn w) ≡ g ∷ gs
      → length (stream ds) ≢ 8
      → contents socket_queue_size queue_left ≡ and_left ds rest_of gs
  queue_left-contents gs v e odd =
      left ds (ltb (g.start_index + 3 + 8 + length d.bytes + 8) g.end_index) refl
        (omega (arith, length-stream p w.memory g d ds h, h.ends)) h.each.1 odd
    where
      popped : Queue.Queue Segment QueueCallback
      popped = (Queue.pop_front socket_queue_size (received sn w)).1

      valid : IsValid socket_queue_size popped
      valid = pop_front-IsValid socket_queue_size (received sn w) v

      gone : contents socket_queue_size popped ≡ gs
      gone = pop_front-tail socket_queue_size (received sn w) (g ∷ gs) v e

      room : (popped.count == socket_queue_size) ≡ false
      room = ground (
        arith,
        pop_front-not_full socket_queue_size (received sn w) v g
            (pop_front-head? socket_queue_size (received sn w) (g ∷ gs) v e),
      )

      left :
          (ds' : List Datagram) (b : Bool)
          → b ≡ ltb (g.start_index + 3 + 8 + length d.bytes + 8) g.end_index
          → g.end_index ≡ g.start_index + 3 + (8 + length d.bytes + length (stream ds'))
          → All IsDatagram ds'
          → length (stream ds') ≢ 8
          → contents socket_queue_size
              (if b then (Queue.push_front socket_queue_size popped rest_of).queue else popped)
            ≡ and_left ds' rest_of gs
      left [] true same end all odd = absurd (ground arith)
      left [] false same end all odd = gone
      left (d' ∷ ds') true same end all odd =
          push_front-contents socket_queue_size popped valid rest_of ∙ rw (room, gone) refl
      left (d' ∷ ds') false same end all odd =
          let longer : 8 ≤ length (stream (d' ∷ ds')) = omega (
            arith,
            length-append (datagram_bytes d') (stream ds'),
            length-append d'.peer_ip
                (u16_bytes d'.peer_port ++ (u16_bytes (length d'.bytes) ++ d'.bytes)),
            all.0.0,
          ) in
          absurd (ground arith)

  abbrev left_socket : Socket
  left_socket = record (w.sockets sn) { rx_buf_queue = queue_left }

  -- The two halves of recvfrom behind its test.
  abbrev from_front : ℕ → Option Segment → Option Datagram × World
  from_front len o = elim o [
    | none ↦ (none, w)
    | some s ↦
        if leb 11 ((s.end_index + 2 ^ 16 - s.start_index) % 2 ^ 16)
        then take_datagram hal sn s len w
        else (none, w)
  ]

  abbrev behind : Option Datagram × World → Option Datagram × World
  behind r = (r.0, receive_pending_data hal sn r.1)

  -- For a socket of the chip whose receive queue is valid and has a front segment that holds
  -- datagrams: where the first of them fits into `len` bytes, recvfrom returns it, with its peer;
  -- the queue and the memory are as they were, but that the front segment holds the other
  -- datagrams, or is gone if there are none, and then the next transfer is asked for. A last
  -- datagram without data is left out.
  pub recvfrom-takes :
      (gs : List Segment) (len : ℕ)
      → sn < sock_num
      → 0 < len
      → IsValid socket_queue_size (received sn w)
      → contents socket_queue_size (received sn w) ≡ g ∷ gs
      → length d.bytes ≤ len
      → length (stream ds) ≢ 8
      → (w1 : World) × (recvfrom hal sn true len w ≡ (some d, receive_pending_data hal sn w1))
        × (contents socket_queue_size (received sn w1) ≡ and_left ds rest_of gs)
        × (w1.memory ≡ w.memory)
        × HoldsDatagrams p w1.memory rest_of ds
  unfolding recvfrom
  recvfrom-takes gs len known some_room v e fits odd =
      let go : (leb sock_num sn || not true || len == 0) ≡ false = ground arith in
      let peek = peek_front-head? socket_queue_size (received sn w) (g ∷ gs) v e in
      let long : leb 11 ((g.end_index + 2 ^ 16 - g.start_index) % 2 ^ 16) ≡ true =
        ground (arith, length-stream p w.memory g d ds h, h.ends, h.small) in
      let same : (sn == sn) ≡ true = ground arith in
      let w1 : World = put_socket w sn (record (w.sockets sn) { rx_buf_queue = queue_left }) in
      (
        w1,
        ap
              (λ b.
                if b then (none, w) else behind (from_front len (Queue.peek_front (received sn w))))
              go
            ∙ ap (λ o. behind (from_front len o)) peek
            ∙ ap (λ b. behind (if b then take_datagram hal sn g len w else (none, w))) long
            ∙ ap behind (take_datagram-eq len fits),
        ap (λ q. contents socket_queue_size q)
              (ap (λ b. (if b then left_socket else w.sockets sn).rx_buf_queue) same)
            ∙ queue_left-contents gs v e odd,
        refl,
        left_of-HoldsDatagrams p w.memory g d ds h,
      )
