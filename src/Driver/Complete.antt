-- ===== src/Driver/Complete.antt =====
-- Src/w5500.cpp: dmaRXCompleteCallback, which acts on the bytes that a finished transfer received.
use wiznet_driver.Base.{ℕ, zero, suc, ◌+◌, ◌-◌, ◌%◌, ◌^◌, Bool, false, ltb}
use wiznet_driver.Base.{◌==◌, if◌then◌else◌, Option, none, some, [], ◌∷◌}
use wiznet_driver.Base.Bits.{shr, low_bits}
use wiznet_driver.Memory.{Pointer, common_regs, socket_regs, store, read_bytes}
use wiznet_driver.Net.{CallbackType, discon_req, discon_suc, recv, timeout}
use wiznet_driver.Queue
use wiznet_driver.Driver.Reg
use wiznet_driver.Driver.{Command, CommandType, World, Hal, reg, emit, put_socket}
use wiznet_driver.Driver.{called, count_fail, sock_num, socket_queue_size}
use wiznet_driver.Driver.{write_reg, write_buf, read_reg, read_buf, read_sir, read_soc, check_rcv}
use wiznet_driver.Driver.{check_tx_fsr, idle}
use wiznet_driver.Driver.Encode.{generate_set_reg_cmd, generate_get_buf_cmd}
use wiznet_driver.Driver.Engine.{push_front_isr}
use wiznet_driver.Driver.Pending.{is_set, send_pending_data, receive_pending_data}

-- `socket->callback(type, …)`, unless it is null.
abbrev pub call_back : ℕ → CallbackType → Option ℕ → World → World
call_back sn type arg w = elim (w.sockets sn).callback [
  | none ↦ w
  | some f ↦ emit w (called f type arg)
]

-- `memcpy(running_cmd.ptr, &running_cmd.inline_buf[3], running_cmd.len - 3)`
unfoldable pub copy_inline : World → World
unfolding store read_bytes
copy_inline w =
    let c = w.running_cmd in
    elim c.ptr [
      | none ↦ w
      | some p ↦ record w { memory = store w.memory p (read_bytes c.inline_buf 3 (c.len - 3)) }
    ]

-- The offset of a pointer in a buffer that it points into.
abbrev pub index_in : Option Pointer → Option Pointer → ℕ
index_in (some p) (some b) = (p.offset + 2 ^ 16 - b.offset % 2 ^ 16) % 2 ^ 16
index_in _ _ = 0

-- READ_BUF: the received segment is queued, and the application is told.
unfoldable pub complete_read_buf : ℕ → World → World
unfolding Queue.push_back
complete_read_buf sn w =
    let s = w.sockets sn in
    let start = index_in w.running_cmd.ptr s.rx_buf in
    let p = Queue.push_back socket_queue_size s.rx_buf_queue record {
      start_index = start;
      end_index = (start + w.running_cmd.len) % 2 ^ 16;
      addr = 0 ∷ 0 ∷ 0 ∷ 0 ∷ [];
      port = 0;
    } in
    call_back sn recv (some ((w.running_cmd.len + 2 ^ 16 - 3) % 2 ^ 16))
      (count_fail (put_socket w sn (record s { rx_buf_queue = p.queue })) p.success)

module _ (hal : Hal) where
  -- READ_SIR: a read of the registers of each socket whose bit is set, in order, to the front.
  -- `left` sockets are left, from `i` on.
  unfoldable pub push_flagged : ℕ → ℕ → Command → World → World
  unfolding generate_get_buf_cmd push_front_isr
  push_flagged zero i cmd w = w
  push_flagged (suc left) i cmd w =
      let (c, memory) =
        generate_get_buf_cmd w.memory cmd i (Reg.sn_mr i)
          (record { region = socket_regs i; offset = 0 }) Reg.socket_regs_size in
      let c' = record c { cmd_type = read_soc } in
      let flagged = low_bits (shr (w.memory common_regs Reg.common_sir) i) 1 == 1 in
      let w' = push_front_isr hal c' (record w { memory = memory }) in
      push_flagged left (i + 1) (if flagged then c' else cmd) (if flagged then w' else w)

  -- READ_SOC, flag by flag.
  unfoldable pub on_discon : ℕ → World → World
  on_discon sn w =
      if is_set (reg w sn Reg.ir) Reg.sn_ir_discon
      then if reg w sn Reg.sr == Reg.sock_close_wait
        then call_back sn discon_req none w
        else call_back sn discon_suc none w
      else w

  unfoldable pub on_recv : ℕ → World → World
  unfolding receive_pending_data
  on_recv sn w =
      if is_set (reg w sn Reg.ir) Reg.sn_ir_recv then receive_pending_data hal sn w else w

  -- The segment at the front of the send queue is dropped.
  unfoldable pub pop_sent : ℕ → World → World
  unfolding Queue.pop_front
  pop_sent sn w =
      let s = w.sockets sn in
      let (o, q) = Queue.pop_front socket_queue_size s.tx_buf_queue in
      put_socket w sn (record s { tx_buf_queue = q })

  abbrev pub set_sending : ℕ → Bool → World → World
  set_sending sn b w = put_socket w sn (record (w.sockets sn) { is_sending = b })

  unfoldable pub clear_sent : ℕ → World → World
  unfolding Queue.clear
  clear_sent sn w =
      let s = w.sockets sn in
      put_socket w sn (record s { tx_buf_queue = Queue.clear s.tx_buf_queue })

  unfoldable pub on_timeout : ℕ → World → World
  unfolding clear_sent pop_sent send_pending_data
  on_timeout sn w =
      if is_set (reg w sn Reg.ir) Reg.sn_ir_timeout
      then (let w1 = set_sending sn false w in
          call_back sn timeout none (
            if is_set (reg w1 sn Reg.mr) Reg.sn_mr_tcp
            then clear_sent sn w1
            else send_pending_data hal sn (pop_sent sn w1)))
      else w

  unfoldable pub on_sendok : ℕ → World → World
  unfolding pop_sent send_pending_data
  on_sendok sn w =
      if is_set (reg w sn Reg.ir) Reg.sn_ir_sendok
      then send_pending_data hal sn (set_sending sn false (pop_sent sn w))
      else w

  -- The flags, in the code's order; then the interrupt register is written back to clear it.
  unfoldable pub complete_read_soc : ℕ → World → World
  unfolding on_discon on_recv on_timeout on_sendok generate_set_reg_cmd push_front_isr
  complete_read_soc sn w =
      let w' = on_sendok sn (on_timeout sn (on_recv sn (on_discon sn w))) in
      push_front_isr hal
        (generate_set_reg_cmd hal.raw_command sn (Reg.sn_ir sn) (reg w' sn Reg.ir ∷ []) 1) w'

  unfoldable pub complete_check_rcv : ℕ → World → World
  unfolding copy_inline receive_pending_data
  complete_check_rcv sn w =
      let w1 = copy_inline w in
      receive_pending_data hal sn
        (put_socket w1 sn (record (w1.sockets sn) { is_receiving = false }))

  unfoldable pub complete_check_tx_fsr : ℕ → World → World
  unfolding copy_inline send_pending_data
  complete_check_tx_fsr sn w = send_pending_data hal sn (copy_inline w)

  -- The cases with a `socket` break off for a command that belongs to no socket.
  abbrev pub for_socket : (ℕ → World → World) → World → World
  for_socket f w = if ltb w.running_cmd.sn sock_num then f w.running_cmd.sn w else w

  abbrev pub complete : CommandType → World → World
  complete read_reg w = copy_inline w
  complete read_buf w = for_socket complete_read_buf w
  complete read_sir w = push_flagged sock_num 0 hal.raw_command (copy_inline w)
  complete read_soc w = for_socket complete_read_soc w
  complete check_rcv w = for_socket complete_check_rcv w
  complete check_tx_fsr w = for_socket complete_check_tx_fsr w
  complete write_reg w = w
  complete write_buf w = w
  complete idle w = w

  unfoldable pub dma_rx_complete : World → World
  unfolding complete_read_buf push_flagged complete_read_soc complete_check_rcv
      complete_check_tx_fsr copy_inline
  dma_rx_complete w = complete w.running_cmd.cmd_type w
