-- ===== src/Driver/Pending.antt =====
-- Src/w5500.cpp: sendPendingData and receivePendingData, which queue the commands that move one
-- segment to the chip, or the received bytes from it.
use wiznet_driver.Base.{ℕ, zero, suc, ◌+◌, ◌-◌, ◌*◌, ◌%◌, ◌^◌, bit_and, Bool, true, not, ◌&&◌, ltb}
use wiznet_driver.Base.{◌==◌, if◌then◌else◌, none, some, List, [], ◌∷◌}
use wiznet_driver.Base.Bits.{shr, low_bits}
use wiznet_driver.Base.Int.{pos, negsuc}
use wiznet_driver.Memory.{Pointer, socket_regs, advance, retreat}
use wiznet_driver.Queue
use wiznet_driver.Driver.Reg
use wiznet_driver.Driver.{Command, check_rcv, World, Hal, Segment, reg, reg_u16}
use wiznet_driver.Driver.{put_socket}
use wiznet_driver.Driver.Encode.{generate_set_reg_cmd, generate_get_reg_cmd}
use wiznet_driver.Driver.Encode.{generate_set_buf_cmd, generate_get_buf_cmd}
use wiznet_driver.Driver.Engine.{push_back_isr}
use wiznet_driver.Driver.Buffers.{get_rx_buffer_index}

-- SET_U16 of a number.
abbrev pub u16_bytes : ℕ → List ℕ
u16_bytes v = low_bits (shr v 8) 8 ∷ low_bits v 8 ∷ []

-- Data moves only in these states of the socket.
abbrev pub transfers : ℕ → Bool
transfers sr = not (
    not (sr == Reg.sock_established) && not (sr == Reg.sock_close_wait) && not (sr == Reg.sock_udp))

abbrev pub is_set : ℕ → ℕ → Bool
is_set flags bit = not (bit_and flags bit == 0)

module _ (hal : Hal) where
  -- The destination of a UDP segment.
  unfoldable pub push_destination : ℕ → Segment → World → Command × World
  unfolding generate_set_reg_cmd push_back_isr
  push_destination sn segment w =
      let dipr = generate_set_reg_cmd hal.raw_command sn (Reg.sn_dipr sn) segment.addr 4 in
      let dport = generate_set_reg_cmd dipr sn (Reg.sn_dport sn) (u16_bytes segment.port) 2 in
      (dport, push_back_isr hal dport (push_back_isr hal dipr w))

  -- The payload, the new write pointer and the SEND command. `len` counts the three header bytes.
  unfoldable pub push_payload : ℕ → Segment → ℕ → Pointer → Command × World → World
  unfolding generate_set_reg_cmd generate_set_buf_cmd push_back_isr
  push_payload sn segment tx_wr tx_buf (cmd, w) =
      let len = (segment.end_index + 2 ^ 32 - segment.start_index) % 2 ^ 32 in
      let addr = tx_wr * 2 ^ 8 + Reg.txbuf_block sn * 2 ^ 3 in
      let (payload, memory) =
        generate_set_buf_cmd w.memory cmd sn addr (advance tx_buf segment.start_index)
          (len % 2 ^ 16) in
      let w1 = push_back_isr hal payload (record w { memory = memory }) in
      let pointer =
        generate_set_reg_cmd payload sn (Reg.sn_tx_wr sn)
          (u16_bytes ((tx_wr + len + 2 ^ 32 - 3) % 2 ^ 32)) 2 in
      let w2 = push_back_isr hal pointer w1 in
      let send = generate_set_reg_cmd pointer sn (Reg.sn_cr sn) (Reg.sn_cr_send ∷ []) 1 in
      let w3 = push_back_isr hal send w2 in
      put_socket w3 sn (record (w3.sockets sn) { is_sending = true })

  -- The send of the segment at the front of the queue, if the chip has room for it.
  unfoldable pub send_segment : ℕ → Segment → Pointer → World → World
  unfolding push_destination push_payload
  send_segment sn segment tx_buf w =
      let tx_wr = reg_u16 w sn Reg.tx_wr in
      let len = (segment.end_index + 2 ^ 32 - segment.start_index) % 2 ^ 32 in
      if ltb (reg_u16 w sn Reg.tx_fsr) ((len + 2 ^ 32 - 3) % 2 ^ 32)
      then w
      else push_payload sn segment tx_wr tx_buf (
          if is_set (reg w sn Reg.mr) Reg.sn_mr_udp
          then push_destination sn segment w
          else (hal.raw_command, w))

  -- A socket with a queued segment has a buffer: `socket` stores its pointer before any `send`.
  unfoldable pub send_pending_data : ℕ → World → World
  unfolding send_segment Queue.peek_front
  send_pending_data sn w =
      let s = w.sockets sn in
      if s.is_sending
      then w
      else if not (transfers (reg w sn Reg.sr))
      then w
      else elim (Queue.peek_front s.tx_buf_queue) [
        | none ↦ w
        | some segment ↦ elim s.tx_buf [ none ↦ w | some tx_buf ↦ send_segment sn segment tx_buf w ]
      ]

  -- The read of the received bytes into the receive buffer at `target`, the new read pointer, the
  -- RECV command (twice), and the read of what there is to receive after it.
  unfoldable pub push_receive : ℕ → ℕ → Pointer → World → World
  unfolding generate_set_reg_cmd generate_get_reg_cmd generate_get_buf_cmd push_back_isr
  push_receive sn rx_rsr target w =
      let rx_rd = reg_u16 w sn Reg.rx_rd in
      let addr = rx_rd * 2 ^ 8 + Reg.rxbuf_block sn * 2 ^ 3 in
      let (payload, memory) =
        generate_get_buf_cmd w.memory hal.raw_command sn addr target ((rx_rsr + 3) % 2 ^ 16) in
      let w1 = push_back_isr hal payload (record w { memory = memory }) in
      let pointer =
        generate_set_reg_cmd payload sn (Reg.sn_rx_rd sn) (u16_bytes (rx_rd + rx_rsr)) 2 in
      let w2 = push_back_isr hal pointer w1 in
      let recv = generate_set_reg_cmd pointer sn (Reg.sn_cr sn) (Reg.sn_cr_recv ∷ []) 1 in
      let w3 = push_back_isr hal recv (push_back_isr hal recv w2) in
      let check =
        generate_get_reg_cmd recv sn (Reg.sn_rx_rsr sn)
          (record { region = socket_regs sn; offset = Reg.rx_rsr }) 4 in
      let w4 = push_back_isr hal (record check { cmd_type = check_rcv }) w3 in
      put_socket w4 sn (record (w4.sockets sn) { is_receiving = true })

  -- -1 is the only index that says that there is no room.
  unfoldable pub receive_pending_data : ℕ → World → World
  unfolding push_receive get_rx_buffer_index
  receive_pending_data sn w =
      let s = w.sockets sn in
      let rx_rsr = reg_u16 w sn Reg.rx_rsr in
      if s.is_receiving
      then w
      else if not (transfers (reg w sn Reg.sr))
      then w
      else if ltb 0 rx_rsr
      then elim (get_rx_buffer_index s ((rx_rsr + 3) % 2 ^ 16)) [
        | pos index ↦ elim s.rx_buf [
          | none ↦ w
          | some rx_buf ↦ push_receive sn rx_rsr (advance rx_buf index) w
        ]
        | negsuc zero ↦ w
        | negsuc (suc n) ↦ elim s.rx_buf [
          | none ↦ w
          | some rx_buf ↦ push_receive sn rx_rsr (retreat rx_buf (n + 2)) w
        ]
      ]
      else w
