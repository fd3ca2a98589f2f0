-- ===== src/Sockets/Open.antt =====
-- Src/socket.cpp: socket, close, connect, disconnect and getSocketStatus.
use wiznet_driver.Base.{ℕ, ◌+◌, ◌*◌, ◌%◌, ◌^◌, bit_or, Bool, true, false, not, ◌&&◌, ltb, leb}
use wiznet_driver.Base.{◌==◌, if◌then◌else◌, Option, none, some, List, [], ◌∷◌, take}
use wiznet_driver.Memory.{Pointer, socket_regs, store, write_bytes}
use wiznet_driver.Net.{
  SockResult, sock_ok, sockerr_invalid_param, sockerr_queue_full, sockerr_invalid_state,
  sockerr_tcp_timeout, sockerr_rxbuf_too_small, SocketStatus, closed, init, listen, established,
  close_wait, udp, other, Buffers, protocol_tcp, protocol_udp,
}
use wiznet_driver.Queue
use wiznet_driver.Driver.Reg
use wiznet_driver.Driver.{World, Hal, reg, put_socket, sock_num}
use wiznet_driver.Driver.Pending.{u16_bytes}
use wiznet_driver.Driver.Blocking.{Os, enqueue_set_reg, enqueue_get_reg, poll_reg_no_it}
use wiznet_driver.Driver.Blocking.{poll_reg_with_it}

-- A byte of the copy of a socket's registers.
abbrev pub reg_ptr : ℕ → ℕ → Pointer
reg_ptr sn offset = record { region = socket_regs sn; offset = offset }

abbrev pub store_reg : ℕ → ℕ → List ℕ → World → World
store_reg sn offset bytes w = record w { memory = store w.memory (reg_ptr sn offset) bytes }

-- `if (!enqueue…) return SOCKERR_QUEUE_FULL;` and the code behind it.
abbrev pub or_queue_full : Bool × World → (World → SockResult × World) → SockResult × World
or_queue_full (success, w) go = if success then go w else (sockerr_queue_full, w)

-- `ret = poll…; if (ret != SOCK_OK) return ret;` and the code behind it.
abbrev pub or_return : SockResult × World → (World → SockResult × World) → SockResult × World
or_return (sock_ok, w) go = go w
or_return (ret, w) go = (ret, w)

module _ (hal : Hal) (os : Os) where
  -- The state that `socket` resets before it talks to the chip.
  unfoldable pub reset_socket : ℕ → Buffers → Option ℕ → World → World
  unfolding Queue.clear
  reset_socket sn b callback w =
      let s = w.sockets sn in
      put_socket w sn record {
        tx_buf = b.tx_buf;
        tx_buf_len = b.tx_buf_len;
        tx_buf_queue = Queue.clear s.tx_buf_queue;
        rx_buf = b.rx_buf;
        rx_buf_len = b.rx_buf_len;
        rx_buf_queue = Queue.clear s.rx_buf_queue;
        callback = callback;
        is_sending = false;
        is_receiving = false;
      }

  -- The last part of `socket`: wait for the state that belongs to the protocol.
  unfoldable pub await_open : ℕ → ℕ → World → SockResult × World
  unfolding poll_reg_no_it
  await_open sn protocol w =
      if protocol == protocol_tcp
      then poll_reg_no_it hal os sn (Reg.sn_sr sn) (reg_ptr sn Reg.sr) Reg.sock_init false 2000 w
      else if protocol == protocol_udp
      then poll_reg_no_it hal os sn (Reg.sn_sr sn) (reg_ptr sn Reg.sr) Reg.sock_udp false 2000 w
      else (sock_ok, w)

  -- The registers that `socket` writes and reads.
  unfoldable pub configure : ℕ → ℕ → ℕ → World → SockResult × World
  unfolding store write_bytes enqueue_set_reg enqueue_get_reg await_open
  configure sn protocol port w =
      let mode =
        if protocol == protocol_tcp
        then bit_or (protocol % 2 ^ 8) Reg.sn_mr_nd
        else protocol % 2 ^ 8 in
      let w1 = store_reg sn Reg.mr (mode ∷ []) w in
      or_queue_full (enqueue_set_reg hal sn (Reg.sn_mr sn) (mode ∷ []) 1 w1) λ w2.
        let w3 = store_reg sn Reg.port (u16_bytes port) w2 in
        or_queue_full (enqueue_set_reg hal sn (Reg.sn_port sn) (u16_bytes port) 2 w3) λ w4.
          let w5 = store_reg sn Reg.imr (0xFF ∷ []) w4 in
          or_queue_full (enqueue_set_reg hal sn (Reg.sn_imr sn) (0xFF ∷ []) 1 w5) λ w6.
            or_queue_full (enqueue_set_reg hal sn (Reg.sn_cr sn) (Reg.sn_cr_open ∷ []) 1 w6) λ w7.
              or_queue_full (enqueue_get_reg hal sn (Reg.sn_tx_fsr sn) (reg_ptr sn Reg.tx_fsr) 6 w7)
                λ w8.
                  or_queue_full
                    (enqueue_get_reg hal sn (Reg.sn_rx_rsr sn) (reg_ptr sn Reg.rx_rsr) 6 w8)
                    λ w9. await_open sn protocol w9

  unfoldable pub socket : ℕ → ℕ → ℕ → Buffers → Option ℕ → World → SockResult × World
  unfolding reset_socket configure
  socket sn protocol port b callback w =
      if leb sock_num sn
      then (sockerr_invalid_param, w)
      else if ltb b.rx_buf_len (reg w sn Reg.rxbuf_size * 1024 + 3)
      then (sockerr_rxbuf_too_small, w)
      else configure sn protocol port (reset_socket sn b callback w)

  unfoldable pub close : ℕ → World → SockResult × World
  unfolding enqueue_set_reg poll_reg_no_it
  close sn w =
      if leb sock_num sn
      then (sockerr_invalid_param, w)
      else or_queue_full (enqueue_set_reg hal sn (Reg.sn_cr sn) (Reg.sn_cr_close ∷ []) 1 w) λ w1.
        poll_reg_no_it hal os sn (Reg.sn_sr sn) (reg_ptr sn Reg.sr) Reg.sock_closed false 2000 w1

  -- `addr` is `none` for a null pointer, and four bytes otherwise.
  unfoldable pub connect : ℕ → Option (List ℕ) → ℕ → World → SockResult × World
  unfolding store write_bytes enqueue_set_reg poll_reg_with_it
  connect sn none port w = (sockerr_invalid_param, w)
  connect sn (some addr) port w =
      if leb sock_num sn
      then (sockerr_invalid_param, w)
      else if not (reg w sn Reg.sr == Reg.sock_init)
      then (sockerr_invalid_state, w)
      else or_queue_full
          (enqueue_set_reg hal sn (Reg.sn_dipr sn) (take 4 addr) 4
            (store_reg sn Reg.dipr (take 4 addr) w))
          λ w1. or_queue_full (enqueue_set_reg hal sn (Reg.sn_dport sn) (u16_bytes port) 2 w1) λ w2.
            or_queue_full (enqueue_set_reg hal sn (Reg.sn_cr sn) (Reg.sn_cr_connect ∷ []) 1 w2)
              λ w3.
                or_return (poll_reg_with_it hal os (reg_ptr sn Reg.sr) Reg.sock_init true w3) λ w4.
                  if not (reg w4 sn Reg.sr == Reg.sock_established)
                  then (sockerr_tcp_timeout, w4)
                  else (sock_ok, w4)

  unfoldable pub disconnect : ℕ → World → SockResult × World
  unfolding enqueue_set_reg poll_reg_no_it
  disconnect sn w =
      if leb sock_num sn
      then (sockerr_invalid_param, w)
      else if not (reg w sn Reg.sr == Reg.sock_established)
          && not (reg w sn Reg.sr == Reg.sock_close_wait)
      then (sockerr_invalid_state, w)
      else or_queue_full (enqueue_set_reg hal sn (Reg.sn_cr sn) (Reg.sn_cr_discon ∷ []) 1 w) λ w1.
        poll_reg_no_it hal os sn (Reg.sn_sr sn) (reg_ptr sn Reg.sr) Reg.sock_closed false 2000 w1

unfoldable pub get_socket_status : ℕ → World → SocketStatus
get_socket_status sn w =
    let sr = reg w sn Reg.sr in
    if leb sock_num sn
    then other
    else if sr == Reg.sock_closed
    then closed
    else if sr == Reg.sock_init
    then init
    else if sr == Reg.sock_listen
    then listen
    else if sr == Reg.sock_established
    then established
    else if sr == Reg.sock_close_wait
    then close_wait
    else if sr == Reg.sock_udp
    then udp
    else other
