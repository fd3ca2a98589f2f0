-- ===== src/Driver/Sound/Completed.antt =====
-- dmaRXCompleteCallback keeps the invariant of the driver's state.
use wiznet_driver.Base.{ℕ, zero, suc, ◌+◌, ◌-◌, ◌%◌, ◌^◌, false, ltb, ◌==◌}
use wiznet_driver.Base.{if◌then◌else◌, Option, none, some, [], ◌∷◌}
use wiznet_driver.Base.Bits.{shr, low_bits}
use wiznet_driver.Memory.{Pointer, common_regs, socket_regs, store, read_bytes}
use wiznet_driver.Net.{CallbackType, discon_req, discon_suc, recv, timeout}
use wiznet_driver.Queue
use wiznet_driver.Queue.Valid.{push_back-IsValid}
use wiznet_driver.Driver.Reg
use wiznet_driver.Driver.{Command, CommandType, World, Hal, Socket, Segment, reg, put_socket}
use wiznet_driver.Driver.{called, emit, count_fail, sock_num, socket_queue_size}
use wiznet_driver.Driver.{write_reg, write_buf, read_reg, read_buf, read_sir, read_soc, check_rcv}
use wiznet_driver.Driver.{check_tx_fsr, idle}
use wiznet_driver.Driver.Encode.{generate_set_reg_cmd, generate_get_buf_cmd}
use wiznet_driver.Driver.Buffers.Queued.{pop_front-IsPlaced, clear-IsPlaced}
use wiznet_driver.Driver.Engine.{push_front_isr}
use wiznet_driver.Driver.Engine.Keeps.{Keeps, Holds, if-Holds, count_fail-Holds}
use wiznet_driver.Driver.Engine.Keeps.{push_front_isr-Keeps}
use wiznet_driver.Driver.Pending.{is_set, send_pending_data, receive_pending_data}
use wiznet_driver.Driver.Complete.{call_back, copy_inline, index_in, complete_read_buf}
use wiznet_driver.Driver.Complete.{push_flagged, on_discon, on_recv, pop_sent, set_sending}
use wiznet_driver.Driver.Complete.{clear_sent, on_timeout, on_sendok, complete_read_soc}
use wiznet_driver.Driver.Complete.{complete_check_rcv, complete_check_tx_fsr, for_socket, complete}
use wiznet_driver.Driver.Complete.{dma_rx_complete}
use wiznet_driver.Driver.Sound.{IsSound, IsSound-IsStable, at_memory-IsSound}
use wiznet_driver.Driver.Sound.{put_socket-IsSound, set_sending-IsSound, set_receiving-IsSound}
use wiznet_driver.Driver.Sound.{send_pending_data-IsSound, receive_pending_data-IsSound}

call_back-IsSound :
    (sn : ℕ) (type : CallbackType) (arg : Option ℕ) → Keeps IsSound (call_back sn type arg)
call_back-IsSound sn type arg w h = called_back (w.sockets sn).callback
  where
    called_back :
        (o : Option ℕ) → Holds IsSound (elim o [ none ↦ w | some f ↦ emit w (called f type arg) ])
    called_back none = h
    called_back (some f) = h

copy_inline-IsSound : Keeps IsSound copy_inline
unfolding copy_inline
copy_inline-IsSound w h = copied w.running_cmd.ptr
  where
    c : Command
    c = w.running_cmd

    copied :
        (o : Option Pointer)
        → Holds IsSound (elim o [
          | none ↦ w
          | some p ↦ record w { memory = store w.memory p (read_bytes c.inline_buf 3 (c.len - 3)) }
        ])
    copied none = h
    copied (some p) =
        at_memory-IsSound (store w.memory p (read_bytes c.inline_buf 3 (c.len - 3))) w h

complete_read_buf-IsSound : (sn : ℕ) → Keeps IsSound (complete_read_buf sn)
unfolding complete_read_buf
complete_read_buf-IsSound sn w h =
    let s = w.sockets sn in
    let start = index_in w.running_cmd.ptr s.rx_buf in
    let segment : Segment = record {
      start_index = start;
      end_index = (start + w.running_cmd.len) % 2 ^ 16;
      addr = 0 ∷ 0 ∷ 0 ∷ 0 ∷ [];
      port = 0;
    } in
    let p = Queue.push_back socket_queue_size s.rx_buf_queue segment in
    let s' : Socket = record s { rx_buf_queue = p.queue } in
    let w' = put_socket w sn s' in
    call_back-IsSound sn recv (some ((w.running_cmd.len + 2 ^ 16 - 3) % 2 ^ 16))
      (count_fail w' p.success)
      (count_fail-Holds IsSound w' p.success (
        put_socket-IsSound w sn s' h record {
          tx-IsPlaced = (h.each sn).tx-IsPlaced;
          rx-IsValid =
              push_back-IsValid socket_queue_size s.rx_buf_queue segment (h.each sn).rx-IsValid;
        }))

pop_sent-IsSound : (hal : Hal) (sn : ℕ) → Keeps IsSound (pop_sent hal sn)
unfolding pop_sent
pop_sent-IsSound hal sn w h =
    let s = w.sockets sn in
    let q = (Queue.pop_front socket_queue_size s.tx_buf_queue).1 in
    put_socket-IsSound w sn (record s { tx_buf_queue = q }) h
      record {
        tx-IsPlaced = pop_front-IsPlaced s.tx_buf_queue s.tx_buf_len (h.each sn).tx-IsPlaced;
        rx-IsValid = (h.each sn).rx-IsValid;
      }

clear_sent-IsSound : (hal : Hal) (sn : ℕ) → Keeps IsSound (clear_sent hal sn)
unfolding clear_sent
clear_sent-IsSound hal sn w h =
    let s = w.sockets sn in
    put_socket-IsSound w sn (record s { tx_buf_queue = Queue.clear s.tx_buf_queue }) h
      record {
        tx-IsPlaced = clear-IsPlaced s.tx_buf_queue s.tx_buf_len (h.each sn).tx-IsPlaced;
        rx-IsValid = (h.each sn).rx-IsValid;
      }

module _ (hal : Hal) where
  push_flagged-IsSound : (left i : ℕ) (cmd : Command) → Keeps IsSound (push_flagged hal left i cmd)
  unfolding push_flagged
  push_flagged-IsSound zero i cmd w h = h
  push_flagged-IsSound (suc left) i cmd w h =
      let made =
        generate_get_buf_cmd w.memory cmd i (Reg.sn_mr i)
          (record { region = socket_regs i; offset = 0 }) Reg.socket_regs_size in
      let c' : Command = record made.0 { cmd_type = read_soc } in
      let flagged = low_bits (shr (w.memory common_regs Reg.common_sir) i) 1 == 1 in
      let w1 : World = record w { memory = made.1 } in
      let w' = push_front_isr hal c' w1 in
      push_flagged-IsSound left (i + 1) (if flagged then c' else cmd) (if flagged then w' else w) (
        if-Holds IsSound flagged w' w
          (push_front_isr-Keeps IsSound IsSound-IsStable hal c' w1 (at_memory-IsSound made.1 w h))
          h)

  on_discon-IsSound : (sn : ℕ) → Keeps IsSound (on_discon hal sn)
  unfolding on_discon
  on_discon-IsSound sn w h =
      if-Holds IsSound (is_set (reg w sn Reg.ir) Reg.sn_ir_discon) _ w
        (if-Holds IsSound (reg w sn Reg.sr == Reg.sock_close_wait) (call_back sn discon_req none w)
          (call_back sn discon_suc none w) (call_back-IsSound sn discon_req none w h)
          (call_back-IsSound sn discon_suc none w h))
        h

  on_recv-IsSound : (sn : ℕ) → Keeps IsSound (on_recv hal sn)
  unfolding on_recv
  on_recv-IsSound sn w h =
      if-Holds IsSound (is_set (reg w sn Reg.ir) Reg.sn_ir_recv) (receive_pending_data hal sn w) w
        (receive_pending_data-IsSound hal sn w h) h

  on_timeout-IsSound : (sn : ℕ) → Keeps IsSound (on_timeout hal sn)
  unfolding on_timeout
  on_timeout-IsSound sn w h =
      let w1 = set_sending hal sn false w in
      let h1 = set_sending-IsSound sn false w h in
      let popped = pop_sent hal sn w1 in
      let w2 =
        if is_set (reg w1 sn Reg.mr) Reg.sn_mr_tcp
        then clear_sent hal sn w1
        else send_pending_data hal sn popped in
      if-Holds IsSound (is_set (reg w sn Reg.ir) Reg.sn_ir_timeout) (call_back sn timeout none w2) w
        (call_back-IsSound sn timeout none w2 (
          if-Holds IsSound (is_set (reg w1 sn Reg.mr) Reg.sn_mr_tcp) (clear_sent hal sn w1)
            (send_pending_data hal sn popped) (clear_sent-IsSound hal sn w1 h1)
            (send_pending_data-IsSound hal sn popped (pop_sent-IsSound hal sn w1 h1))))
        h

  on_sendok-IsSound : (sn : ℕ) → Keeps IsSound (on_sendok hal sn)
  unfolding on_sendok
  on_sendok-IsSound sn w h =
      let w1 = set_sending hal sn false (pop_sent hal sn w) in
      if-Holds IsSound (is_set (reg w sn Reg.ir) Reg.sn_ir_sendok) (send_pending_data hal sn w1) w
        (send_pending_data-IsSound hal sn w1
          (set_sending-IsSound sn false (pop_sent hal sn w) (pop_sent-IsSound hal sn w h)))
        h

  complete_read_soc-IsSound : (sn : ℕ) → Keeps IsSound (complete_read_soc hal sn)
  unfolding complete_read_soc
  complete_read_soc-IsSound sn w h =
      let w1 = on_discon hal sn w in
      let w2 = on_recv hal sn w1 in
      let w3 = on_timeout hal sn w2 in
      let w' = on_sendok hal sn w3 in
      push_front_isr-Keeps IsSound IsSound-IsStable hal
        (generate_set_reg_cmd hal.raw_command sn (Reg.sn_ir sn) (reg w' sn Reg.ir ∷ []) 1) w'
        (on_sendok-IsSound sn w3
          (on_timeout-IsSound sn w2 (on_recv-IsSound sn w1 (on_discon-IsSound sn w h))))

  complete_check_rcv-IsSound : (sn : ℕ) → Keeps IsSound (complete_check_rcv hal sn)
  unfolding complete_check_rcv
  complete_check_rcv-IsSound sn w h =
      let w1 = copy_inline w in
      let w2 = put_socket w1 sn (record (w1.sockets sn) { is_receiving = false }) in
      receive_pending_data-IsSound hal sn w2
        (set_receiving-IsSound sn false w1 (copy_inline-IsSound w h))

  complete_check_tx_fsr-IsSound : (sn : ℕ) → Keeps IsSound (complete_check_tx_fsr hal sn)
  unfolding complete_check_tx_fsr
  complete_check_tx_fsr-IsSound sn w h =
      send_pending_data-IsSound hal sn (copy_inline w) (copy_inline-IsSound w h)

  for_socket-IsSound :
      (f : ℕ → World → World) → ((sn : ℕ) → Keeps IsSound (f sn)) → Keeps IsSound (for_socket hal f)
  for_socket-IsSound f keeps w h =
      if-Holds IsSound (ltb w.running_cmd.sn sock_num) (f w.running_cmd.sn w) w
        (keeps w.running_cmd.sn w h) h

  complete-IsSound : (t : CommandType) → Keeps IsSound (complete hal t)
  complete-IsSound read_reg w h = copy_inline-IsSound w h
  complete-IsSound read_buf w h = for_socket-IsSound complete_read_buf complete_read_buf-IsSound w h
  complete-IsSound read_sir w h =
      push_flagged-IsSound sock_num 0 hal.raw_command (copy_inline w) (copy_inline-IsSound w h)
  complete-IsSound read_soc w h =
      for_socket-IsSound (complete_read_soc hal) complete_read_soc-IsSound w h
  complete-IsSound check_rcv w h =
      for_socket-IsSound (complete_check_rcv hal) complete_check_rcv-IsSound w h
  complete-IsSound check_tx_fsr w h =
      for_socket-IsSound (complete_check_tx_fsr hal) complete_check_tx_fsr-IsSound w h
  complete-IsSound write_reg w h = h
  complete-IsSound write_buf w h = h
  complete-IsSound idle w h = h

  pub dma_rx_complete-IsSound : Keeps IsSound (dma_rx_complete hal)
  unfolding dma_rx_complete
  dma_rx_complete-IsSound w h = complete-IsSound w.running_cmd.cmd_type w h
