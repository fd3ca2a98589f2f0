-- ===== src/Sockets/Examples.antt =====
-- Runs of the driver from a state with one open connection and empty queues.
use wiznet_driver.Base.{
  ℕ, ◌+◌, ◌≡◌, ◌≤◌, refl, arith, true, false, inl, ◌==◌, if◌then◌else◌, none, some, List, [], ◌∷◌,
}
use wiznet_driver.Base.{All}
use wiznet_driver.Base.Int.{pos}
use wiznet_driver.Memory.{Pointer, user}
use wiznet_driver.Net.{sock_ok}
use wiznet_driver.Queue.{Queue}
use wiznet_driver.Queue.Window.{contents}
use wiznet_driver.Driver.{World, Hal, Segment, Socket, QueueCallback, idle_command}
use wiznet_driver.Driver.{kick_start_commands, nowhere, socket_queue_size}
use wiznet_driver.Driver.Blocking.{Os}
use wiznet_driver.Driver.Buffers.{get_tx_buffer_index}
use wiznet_driver.Driver.Buffers.Layout.{IsApart}
use wiznet_driver.Driver.Buffers.Placed.{nothing_queued}
use wiznet_driver.Driver.Buffers.Queued.{HasGap}
use wiznet_driver.Driver.Sound.{IsSound}
use wiznet_driver.Driver.Pending.{send_pending_data}
use wiznet_driver.Driver.Isr.{Interrupt, int_pin, timer, spi_error, handle_all}
use wiznet_driver.Driver.Isr.{spi_tx_rx_complete, handle}
use wiznet_driver.Driver.Isr.Invariant.{handle_all-IsSound}
use wiznet_driver.Sockets.Transfer.{send, recv, recvfrom}
use wiznet_driver.Sockets.Transfer.Datagrams.{HoldsDatagrams, stream, left_of}
use wiznet_driver.Sockets.Transfer.Unpacked.{recvfrom-takes}
use wiznet_driver.Memory.{store, load-store, advance}
use wiznet_driver.Net.{Datagram}
use wiznet_driver.Sockets.Transfer.Received.{fitting, data_of, received}
use wiznet_driver.Sockets.Transfer.Output.{recv-data_of}
use wiznet_driver.Driver.Pending.{receive_pending_data}
use wiznet_driver.Base.{length, drop, inr}
use wiznet_driver.Sockets.Transfer.Sent.{IsQueuedAt, send-IsQueuedAt}
use wiznet_driver.Sockets.Reachable.{Reaches, here, further, interrupted, sends, Reaches-IsSound}
use wiznet_driver.Sockets.Reachable.{IsCareful, Reaches-IsApart}

abbrev no_segment : Segment
no_segment = record { start_index = 0; end_index = 0; addr = []; port = 0 }

abbrev pub hal : Hal
hal = record { accepts = λ es. true; raw_command = idle_command; raw_segment = no_segment }

abbrev pub os : Os
os = record { tick = λ w. 0; delay = λ n w. w; rand = λ w. (4, w) }

abbrev no_segments : Queue Segment QueueCallback
no_segments = record {
  slots = λ i. no_segment;
  head = 0;
  tail = 0;
  count = 0;
  on_first_push = none;
}

abbrev pub tx_pointer : Pointer
tx_pointer = record { region = user 0; offset = 0 }

-- SR is SOCK_ESTABLISHED, TXBUF_SIZE is 2 and TX_FSR is 2048
abbrev registers : ℕ → ℕ
registers i = if i == 6 then 0x17 else if i == 34 then 2 else if i == 35 then 0x08 else 0

abbrev open_socket : Socket
open_socket = record {
  tx_buf = some tx_pointer;
  tx_buf_len = 100;
  tx_buf_queue = no_segments;
  rx_buf = none;
  rx_buf_len = 0;
  rx_buf_queue = no_segments;
  callback = none;
  is_sending = true;
  is_receiving = false;
}

abbrev pub start : World
start = record {
  memory = λ r i. registers i;
  command_queue = record {
    slots = λ i. idle_command;
    head = 0;
    tail = 0;
    count = 0;
    on_first_push = some kick_start_commands;
  };
  running_cmd = idle_command;
  sockets = λ sn. open_socket;
  enqueue_fails_in_isr = 0;
  command_retries = 0;
  spi_err_count = 0;
  target = nowhere;
  events = [];
}

pub start-IsSound : IsSound start.memory start.sockets start.command_queue
start-IsSound = record {
  commands-IsValid = omega arith;
  each = λ sn. record {
    tx-IsPlaced = record {
      queue-IsValid = omega arith;
      small = omega arith;
      spread = nothing_queued refl;
    };
    rx-IsValid = omega arith;
  };
}

pub start-HasGap : HasGap no_segments
start-HasGap = inl refl

abbrev interrupts : List Interrupt
interrupts = int_pin ∷ spi_tx_rx_complete (0 ∷ 0 ∷ 0 ∷ 1 ∷ []) ∷ spi_error ∷ timer ∷ []

handle_all-IsSound_example :
    let w' = handle_all hal interrupts start in IsSound w'.memory w'.sockets w'.command_queue
handle_all-IsSound_example = handle_all-IsSound hal interrupts start start-IsSound

-- A send of two bytes from the first state, and an interrupt behind it.
abbrev after_send : World
after_send = (send hal 0 (some (7 ∷ 8 ∷ [])) start).1

abbrev two_steps : Reaches hal os start (handle hal int_pin after_send)
two_steps =
    further start after_send (handle hal int_pin after_send)
      (further start start after_send (here start) (sends 0 (some (7 ∷ 8 ∷ [])) start))
      (interrupted int_pin after_send)

two_steps-IsCareful : IsCareful hal os start (handle hal int_pin after_send) two_steps
two_steps-IsCareful = ((tt, start-HasGap), tt)

Reaches-IsSound_example :
    let w' = handle hal int_pin after_send in IsSound w'.memory w'.sockets w'.command_queue
Reaches-IsSound_example =
    Reaches-IsSound hal os start (handle hal int_pin after_send) two_steps two_steps-IsCareful
      start-IsSound

-- One segment waits, from 0 to 5, and the next data goes behind it.
behind_run : get_tx_buffer_index ((handle hal int_pin after_send).sockets 0) 20 ≡ pos 5
unfolding get_tx_buffer_index send handle
behind_run = refl

behind-HasGap : HasGap ((handle hal int_pin after_send).sockets 0).tx_buf_queue
unfolding send handle
behind-HasGap = inr (omega arith)

Reaches-IsApart_example :
    (5 + 20 ≤ ((handle hal int_pin after_send).sockets 0).tx_buf_len)
    × All
        (IsApart 5 20)
        (contents socket_queue_size ((handle hal int_pin after_send).sockets 0).tx_buf_queue)
Reaches-IsApart_example =
    Reaches-IsApart hal os start (handle hal int_pin after_send) 0 20 5 two_steps
      two_steps-IsCareful start-IsSound behind-HasGap behind_run

send_run : (send hal 0 (some (7 ∷ 8 ∷ [])) start).0 ≡ sock_ok
unfolding send
send_run = refl

send-IsQueuedAt_example :
    (i : ℕ) × (w1 : World) × ((send hal 0 (some (7 ∷ 8 ∷ [])) start).1 ≡ send_pending_data hal 0 w1)
    × IsQueuedAt hal 0 (7 ∷ 8 ∷ []) start tx_pointer (λ segment. segment) i w1
send-IsQueuedAt_example =
    send-IsQueuedAt hal 0 (7 ∷ 8 ∷ []) start tx_pointer start-IsSound start-HasGap refl send_run

-- a socket with five received bytes behind the three of the SPI header
abbrev receiving : World
receiving = record start {
  sockets = λ sn. record open_socket {
    rx_buf = some tx_pointer;
    rx_buf_len = 100;
    rx_buf_queue = record no_segments {
      slots = λ i. record no_segment { end_index = 8 };
      tail = 1;
      count = 1;
    };
  };
}

recv-data_of_example :
    let queued = contents socket_queue_size (received 0 receiving) in
    let out = data_of tx_pointer receiving.memory (fitting 64 queued) in
    (w1 : World) × (recv hal 0 true 64 receiving ≡ (out, receive_pending_data hal 0 w1))
    × (contents socket_queue_size (received 0 w1) ≡ drop (length (fitting 64 queued)) queued)
    × (w1.memory ≡ receiving.memory)
    × (length out ≤ 64)
recv-data_of_example =
    recv-data_of hal 0 tx_pointer 64 receiving (omega arith) (omega arith) (omega arith) refl

abbrev datagram : List ℕ → Datagram
datagram bytes = record { bytes = bytes; peer_ip = 10 ∷ 0 ∷ 0 ∷ 1 ∷ []; peer_port = 123 }

abbrev two_datagrams : List Datagram
two_datagrams = datagram (7 ∷ 8 ∷ 9 ∷ []) ∷ datagram (1 ∷ []) ∷ []

-- a socket with two received datagrams
abbrev udp_segment : Segment
udp_segment = record no_segment { end_index = 23 }

abbrev receiving_udp : World
receiving_udp = record receiving {
  memory = store receiving.memory (advance tx_pointer 3) (stream two_datagrams);
  sockets = λ sn. record (receiving.sockets sn) {
    rx_buf_queue = record (receiving.sockets sn).rx_buf_queue { slots = λ i. udp_segment };
  };
}

two_datagrams-HoldsDatagrams :
    HoldsDatagrams tx_pointer receiving_udp.memory udp_segment two_datagrams
two_datagrams-HoldsDatagrams = record {
  stored = load-store receiving.memory (advance tx_pointer 3) (stream two_datagrams);
  ends = omega arith;
  small = omega arith;
  each = omega arith;
}

abbrev second_left : Segment
second_left =
    left_of tx_pointer receiving_udp.memory udp_segment (datagram (7 ∷ 8 ∷ 9 ∷ []))
      (datagram (1 ∷ []) ∷ []) two_datagrams-HoldsDatagrams

recvfrom-takes_example :
    (w1 : World) × (recvfrom hal 0 true 64 receiving_udp
      ≡ (some (datagram (7 ∷ 8 ∷ 9 ∷ [])), receive_pending_data hal 0 w1))
    × (contents socket_queue_size (received 0 w1) ≡ second_left ∷ [])
    × (w1.memory ≡ receiving_udp.memory)
    × HoldsDatagrams tx_pointer w1.memory second_left (datagram (1 ∷ []) ∷ [])
recvfrom-takes_example =
    recvfrom-takes hal 0 tx_pointer udp_segment (datagram (7 ∷ 8 ∷ 9 ∷ [])) (datagram (1 ∷ []) ∷ [])
      receiving_udp refl two_datagrams-HoldsDatagrams [] 64 (omega arith) (omega arith)
      (omega arith) refl (omega arith) (omega arith)
