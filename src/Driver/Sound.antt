-- ===== src/Driver/Sound.antt =====
-- The invariant of the driver's state, and that sendPendingData and receivePendingData keep it.
pub mod Completed
use wiznet_driver.Base.{ℕ, zero, suc, ◌+◌, ◌-◌, ◌*◌, ◌%◌, ◌^◌, Bool, true, false, not, ltb, ◌==◌}
use wiznet_driver.Base.{if◌then◌else◌, Option, none, some, List, [], ◌∷◌}
use wiznet_driver.Base.Int.{ℤ, pos, negsuc}
use wiznet_driver.Memory.{Memory, Pointer, socket_regs, advance, retreat}
use wiznet_driver.Queue.{Queue}
use wiznet_driver.Queue
use wiznet_driver.Queue.Valid.{IsValid, push_back-IsValid, push_front-IsValid, pop_front-IsValid}
use wiznet_driver.Driver.Reg
use wiznet_driver.Driver.{Command, World, Hal, Socket, Segment, command_queue_size}
use wiznet_driver.Driver.{socket_queue_size, put_socket, reg, reg_u16, check_rcv}
use wiznet_driver.Driver.Buffers.Queued.{IsPlaced, pop_front-IsPlaced, clear-IsPlaced}
use wiznet_driver.Driver.Buffers.{get_rx_buffer_index}
use wiznet_driver.Driver.Encode.{generate_set_reg_cmd, generate_get_reg_cmd}
use wiznet_driver.Driver.Encode.{generate_set_buf_cmd, generate_get_buf_cmd}
use wiznet_driver.Driver.Engine.{push_back_isr}
use wiznet_driver.Driver.Engine.Keeps.{Commands, Predicate, IsStable, Keeps, Holds, if-Holds}
use wiznet_driver.Driver.Engine.Keeps.{count_fail-Holds, push_back_isr-Keeps, push_front_isr-Keeps}
use wiznet_driver.Driver.Pending.{u16_bytes, transfers, is_set, push_destination, push_payload}
use wiznet_driver.Driver.Pending.{send_segment, send_pending_data, push_receive}
use wiznet_driver.Driver.Pending.{receive_pending_data}

-- The queues of a socket are valid, and the segments to send lie apart in the send buffer, which has
-- less than 2^15 bytes: above that an index does not fit the code's int16_t.
pub record IsSoundSocket (s : Socket) : Type 0 where
  pub tx-IsPlaced : IsPlaced s.tx_buf_queue s.tx_buf_len
  pub rx-IsValid : IsValid socket_queue_size s.rx_buf_queue

-- The command queue is valid, and every socket is sound.
pub record IsSound (m : Memory) (sockets : ℕ → Socket) (q : Commands) : Type 0 where
  pub commands-IsValid : IsValid command_queue_size q
  pub each : (sn : ℕ) → IsSoundSocket (sockets sn)

pub IsSound-IsStable : IsStable IsSound
IsSound-IsStable = record {
  push_back = λ m s q c h. record {
    commands-IsValid = push_back-IsValid command_queue_size q c h.commands-IsValid;
    each = h.each;
  };
  push_front = λ m s q c h. record {
    commands-IsValid = push_front-IsValid command_queue_size q c h.commands-IsValid;
    each = h.each;
  };
  pop_front = λ m s q h. record {
    commands-IsValid = pop_front-IsValid command_queue_size q h.commands-IsValid;
    each = h.each;
  };
}

-- It is not about the memory.
pub at_memory-IsSound : (m : Memory) → Keeps IsSound (λ w. record w { memory = m })
at_memory-IsSound m w h = record { commands-IsValid = h.commands-IsValid; each = h.each }

pub put_socket-IsSound :
    (w : World) (sn : ℕ) (s : Socket)
    → Holds IsSound w
    → IsSoundSocket s
    → Holds IsSound (put_socket w sn s)
put_socket-IsSound w sn s h sound = record {
  commands-IsValid = h.commands-IsValid;
  each = λ i. chosen i (i == sn);
}
  where
    chosen : (i : ℕ) (b : Bool) → IsSoundSocket (if b then s else w.sockets i)
    chosen i true = sound
    chosen i false = h.each i

pub set_sending-IsSound :
    (sn : ℕ) (b : Bool)
    → Keeps IsSound (λ w. put_socket w sn (record (w.sockets sn) { is_sending = b }))
set_sending-IsSound sn b w h =
    put_socket-IsSound w sn (record (w.sockets sn) { is_sending = b }) h
      record { tx-IsPlaced = (h.each sn).tx-IsPlaced; rx-IsValid = (h.each sn).rx-IsValid }

pub set_receiving-IsSound :
    (sn : ℕ) (b : Bool)
    → Keeps IsSound (λ w. put_socket w sn (record (w.sockets sn) { is_receiving = b }))
set_receiving-IsSound sn b w h =
    put_socket-IsSound w sn (record (w.sockets sn) { is_receiving = b }) h
      record { tx-IsPlaced = (h.each sn).tx-IsPlaced; rx-IsValid = (h.each sn).rx-IsValid }

module _ (hal : Hal) where
  back : (c : Command) → Keeps IsSound (push_back_isr hal c)
  back = push_back_isr-Keeps IsSound IsSound-IsStable hal

  abbrev push_all : List Command → World → World
  push_all [] w = w
  push_all (c ∷ cs) w = push_all cs (push_back_isr hal c w)

  push_all-Keeps : (cs : List Command) → Keeps IsSound (push_all cs)
  push_all-Keeps [] w h = h
  push_all-Keeps (c ∷ cs) w h = push_all-Keeps cs (push_back_isr hal c w) (back c w h)

  push_destination-IsSound :
      (sn : ℕ) (segment : Segment) (w : World)
      → Holds IsSound w
      → Holds IsSound (push_destination hal sn segment w).1
  unfolding push_destination
  push_destination-IsSound sn segment w h = back _ _ (back _ w h)

  push_payload-IsSound :
      (sn : ℕ) (segment : Segment) (tx_wr : ℕ) (tx_buf : Pointer) (cmd : Command) (w : World)
      → Holds IsSound w
      → Holds IsSound (push_payload hal sn segment tx_wr tx_buf (cmd, w))
  unfolding push_payload
  push_payload-IsSound sn segment tx_wr tx_buf cmd w h =
      let len = (segment.end_index + 2 ^ 32 - segment.start_index) % 2 ^ 32 in
      let made =
        generate_set_buf_cmd w.memory cmd sn (tx_wr * 2 ^ 8 + Reg.txbuf_block sn * 2 ^ 3)
          (advance tx_buf segment.start_index) (len % 2 ^ 16) in
      let pointer =
        generate_set_reg_cmd made.0 sn (Reg.sn_tx_wr sn)
          (u16_bytes ((tx_wr + len + 2 ^ 32 - 3) % 2 ^ 32)) 2 in
      let send = generate_set_reg_cmd pointer sn (Reg.sn_cr sn) (Reg.sn_cr_send ∷ []) 1 in
      let commands = made.0 ∷ pointer ∷ send ∷ [] in
      let w1 : World = record w { memory = made.1 } in
      set_sending-IsSound sn true (push_all commands w1)
        (push_all-Keeps commands w1 (at_memory-IsSound made.1 w h))

  push_receive-IsSound :
      (sn rx_rsr : ℕ) (target : Pointer) → Keeps IsSound (push_receive hal sn rx_rsr target)
  unfolding push_receive
  push_receive-IsSound sn rx_rsr target w h =
      let rx_rd = reg_u16 w sn Reg.rx_rd in
      let made =
        generate_get_buf_cmd w.memory hal.raw_command sn
          (rx_rd * 2 ^ 8 + Reg.rxbuf_block sn * 2 ^ 3) target ((rx_rsr + 3) % 2 ^ 16) in
      let pointer =
        generate_set_reg_cmd made.0 sn (Reg.sn_rx_rd sn) (u16_bytes (rx_rd + rx_rsr)) 2 in
      let recv = generate_set_reg_cmd pointer sn (Reg.sn_cr sn) (Reg.sn_cr_recv ∷ []) 1 in
      let check : Command =
        record (generate_get_reg_cmd recv sn (Reg.sn_rx_rsr sn)
          (record { region = socket_regs sn; offset = Reg.rx_rsr }) 4) { cmd_type = check_rcv } in
      let commands = made.0 ∷ pointer ∷ recv ∷ recv ∷ check ∷ [] in
      let w1 : World = record w { memory = made.1 } in
      set_receiving-IsSound sn true (push_all commands w1)
        (push_all-Keeps commands w1 (at_memory-IsSound made.1 w h))

  send_segment-IsSound :
      (sn : ℕ) (segment : Segment) (tx_buf : Pointer)
      → Keeps IsSound (send_segment hal sn segment tx_buf)
  unfolding send_segment
  send_segment-IsSound sn segment tx_buf w h =
      let tx_wr = reg_u16 w sn Reg.tx_wr in
      let len = (segment.end_index + 2 ^ 32 - segment.start_index) % 2 ^ 32 in
      let addressed = push_destination hal sn segment w in
      if-Holds IsSound (ltb (reg_u16 w sn Reg.tx_fsr) ((len + 2 ^ 32 - 3) % 2 ^ 32)) w
        (push_payload hal sn segment tx_wr tx_buf
          (if is_set (reg w sn Reg.mr) Reg.sn_mr_udp then addressed else (hal.raw_command, w)))
        h (sent (is_set (reg w sn Reg.mr) Reg.sn_mr_udp))
    where
      sent :
          (udp : Bool)
          → Holds IsSound (
              push_payload hal sn segment
                (reg_u16 w sn Reg.tx_wr)
                tx_buf
                (if udp then push_destination hal sn segment w else (hal.raw_command, w)))
      sent true =
          let r = push_destination hal sn segment w in
          push_payload-IsSound sn segment (reg_u16 w sn Reg.tx_wr) tx_buf r.0 r.1
            (push_destination-IsSound sn segment w h)
      sent false =
          push_payload-IsSound sn segment (reg_u16 w sn Reg.tx_wr) tx_buf hal.raw_command w h

  -- sendPendingData and receivePendingData.
  pub send_pending_data-IsSound : (sn : ℕ) → Keeps IsSound (send_pending_data hal sn)
  unfolding send_pending_data
  send_pending_data-IsSound sn w h =
      let s = w.sockets sn in
      if-Holds IsSound s.is_sending w _ h (
        if-Holds IsSound (not (transfers (reg w sn Reg.sr))) w _ h
          (sent (Queue.peek_front s.tx_buf_queue) s.tx_buf))
    where
      sent :
          (o : Option Segment) (p : Option Pointer)
          → Holds IsSound (elim o [
            | none ↦ w
            | some segment ↦ elim p [
              | none ↦ w
              | some tx_buf ↦ send_segment hal sn segment tx_buf w
            ]
          ])
      sent none p = h
      sent (some segment) none = h
      sent (some segment) (some tx_buf) = send_segment-IsSound sn segment tx_buf w h

  pub receive_pending_data-IsSound : (sn : ℕ) → Keeps IsSound (receive_pending_data hal sn)
  unfolding receive_pending_data
  receive_pending_data-IsSound sn w h =
      let s = w.sockets sn in
      let rx_rsr = reg_u16 w sn Reg.rx_rsr in
      if-Holds IsSound s.is_receiving w _ h (
        if-Holds IsSound (not (transfers (reg w sn Reg.sr))) w _ h (
          if-Holds IsSound (ltb 0 rx_rsr) _ w
            (received (get_rx_buffer_index s ((rx_rsr + 3) % 2 ^ 16)) s.rx_buf) h))
    where
      received :
          (z : ℤ) (p : Option Pointer)
          → Holds IsSound (elim z [
            | pos index ↦ elim p [
              | none ↦ w
              | some rx_buf ↦ push_receive hal sn (reg_u16 w sn Reg.rx_rsr) (advance rx_buf index) w
            ]
            | negsuc zero ↦ w
            | negsuc (suc n) ↦ elim p [
              | none ↦ w
              | some rx_buf ↦
                  push_receive hal sn (reg_u16 w sn Reg.rx_rsr) (retreat rx_buf (n + 2)) w
            ]
          ])
      received (pos index) none = h
      received (pos index) (some rx_buf) =
          push_receive-IsSound sn (reg_u16 w sn Reg.rx_rsr) (advance rx_buf index) w h
      received (negsuc zero) p = h
      received (negsuc (suc n)) none = h
      received (negsuc (suc n)) (some rx_buf) =
          push_receive-IsSound sn (reg_u16 w sn Reg.rx_rsr) (retreat rx_buf (n + 2)) w h
