-- ===== src/Sockets/Reachable.antt =====
-- The driver as a step relation: interrupts, the calls of the socket layer that do not wait, and the
-- pieces of the waiting calls between two waits, in any order.
use wiznet_driver.Base.{
  ℕ, ◌+◌, ◌-◌, ◌^◌, ◌≡◌, refl, ◌<◌, ◌≤◌, Bool, true, false, Option, List, All, ltb,
}
use wiznet_driver.Base.{if◌then◌else◌}
use wiznet_driver.Base.Int.{pos}
use wiznet_driver.Memory.{Memory, Pointer}
use wiznet_driver.Net.{Buffers}
use wiznet_driver.Queue.{Queue}
use wiznet_driver.Queue
use wiznet_driver.Queue.Valid.{clear-IsValid}
use wiznet_driver.Queue.Window.{contents}
use wiznet_driver.Driver.{World, Hal, socket_queue_size, command_buffer_size}
use wiznet_driver.Driver.Encode.{generate_set_reg_cmd, generate_get_reg_cmd}
use wiznet_driver.Driver.Engine.{push_command_back}
use wiznet_driver.Driver.Buffers.{get_tx_buffer_index}
use wiznet_driver.Driver.Buffers.Layout.{IsApart}
use wiznet_driver.Driver.Buffers.Placed.{nothing_queued}
use wiznet_driver.Driver.Buffers.Queued.{HasGap, IsPlaced, chosen-IsApart}
use wiznet_driver.Driver.Engine.Keeps.{Holds, push_command_back-Keeps}
use wiznet_driver.Driver.Sound.{IsSound, IsSound-IsStable, at_memory-IsSound}
use wiznet_driver.Driver.Sound.{put_socket-IsSound}
use wiznet_driver.Driver.Isr.{Interrupt, handle}
use wiznet_driver.Driver.Isr.Invariant.{handle-IsSound}
use wiznet_driver.Driver.Blocking.{Os, enqueue_set_reg, enqueue_get_reg}
use wiznet_driver.Sockets.Open.{reset_socket}
use wiznet_driver.Sockets.Transfer.{send, sendto, recv, recvfrom}
use wiznet_driver.Sockets.Transfer.Sound.{send-IsSound, sendto-IsSound}
use wiznet_driver.Sockets.Transfer.Taken.{recv-IsSound, recvfrom-IsSound}

module _ (hal : Hal) (os : Os) where
  -- `writes` is a write to memory by a task.
  pub data Step : World → World → Type 0 where
    interrupted : (i : Interrupt) (w : World) → Step w (handle hal i w)
    sends : (sn : ℕ) (buf : Option (List ℕ)) (w : World) → Step w (send hal sn buf w).1
    sends_to :
        (sn : ℕ) (buf addr : Option (List ℕ)) (port : ℕ) (w : World)
        → Step w (sendto hal sn buf addr port w).1
    receives : (sn : ℕ) (wants : Bool) (len : ℕ) (w : World) → Step w (recv hal sn wants len w).1
    receives_from :
        (sn : ℕ) (wants : Bool) (len : ℕ) (w : World) → Step w (recvfrom hal sn wants len w).1
    sets_reg :
        (sn addr : ℕ) (bytes : List ℕ) (len : ℕ) (w : World)
        → Step w (enqueue_set_reg hal sn addr bytes len w).1
    gets_reg :
        (sn addr : ℕ) (buffer : Pointer) (len : ℕ) (w : World)
        → Step w (enqueue_get_reg hal sn addr buffer len w).1
    resets :
        (sn : ℕ) (b : Buffers) (callback : Option ℕ) (w : World)
        → Step w (reset_socket hal os sn b callback w)
    writes : (m : Memory) (w : World) → Step w (record w { memory = m })

  pub data Reaches : World → World → Type 0 where
    here : (w : World) → Reaches w w
    further : (u v w : World) → Reaches u v → Step v w → Reaches u w

  -- A step that sends finds nothing queued or a gap between the last queued segment's end and the
  -- first one's start, and a step that opens a socket gets a send buffer of less than 2^15 bytes.
  abbrev pub IsCarefulStep : (v w : World) → Step v w → Type 0
  IsCarefulStep _ _ (interrupted i v) = Unit
  IsCarefulStep _ _ (sends sn buf v) = HasGap (v.sockets sn).tx_buf_queue
  IsCarefulStep _ _ (sends_to sn buf addr port v) = HasGap (v.sockets sn).tx_buf_queue
  IsCarefulStep _ _ (receives sn wants len v) = Unit
  IsCarefulStep _ _ (receives_from sn wants len v) = Unit
  IsCarefulStep _ _ (sets_reg sn addr bytes len v) = Unit
  IsCarefulStep _ _ (gets_reg sn addr buffer len v) = Unit
  IsCarefulStep _ _ (resets sn b callback v) = b.tx_buf_len < 2 ^ 15
  IsCarefulStep _ _ (writes m v) = Unit

  -- Every step of the run is.
  abbrev pub IsCareful : (u w : World) → Reaches u w → Type 0
  IsCareful _ _ (here u) = Unit
  IsCareful _ _ (further u v w r s) = IsCareful u v r × IsCarefulStep v w s

  queued-IsSound :
      (full : Bool) (r : Bool × World) (w : World)
      → Holds IsSound w
      → Holds IsSound r.1
      → Holds IsSound (if full then (false, w) else r).1
  queued-IsSound true r w h g = h
  queued-IsSound false r w h g = g

  enqueue_set_reg-IsSound :
      (sn addr : ℕ) (bytes : List ℕ) (len : ℕ) (w : World)
      → Holds IsSound w
      → Holds IsSound (enqueue_set_reg hal sn addr bytes len w).1
  unfolding enqueue_set_reg
  enqueue_set_reg-IsSound sn addr bytes len w h =
      let c = generate_set_reg_cmd hal.raw_command sn addr bytes len in
      queued-IsSound (ltb (command_buffer_size - 3) len) (push_command_back hal c w) w h
        (push_command_back-Keeps IsSound IsSound-IsStable hal c w h)

  enqueue_get_reg-IsSound :
      (sn addr : ℕ) (buffer : Pointer) (len : ℕ) (w : World)
      → Holds IsSound w
      → Holds IsSound (enqueue_get_reg hal sn addr buffer len w).1
  unfolding enqueue_get_reg
  enqueue_get_reg-IsSound sn addr buffer len w h =
      let c = generate_get_reg_cmd hal.raw_command sn addr buffer len in
      queued-IsSound (ltb (command_buffer_size - 3) len) (push_command_back hal c w) w h
        (push_command_back-Keeps IsSound IsSound-IsStable hal c w h)

  reset_socket-IsSound :
      (sn : ℕ) (b : Buffers) (callback : Option ℕ) (w : World)
      → b.tx_buf_len < 2 ^ 15
      → Holds IsSound w
      → Holds IsSound (reset_socket hal os sn b callback w)
  unfolding reset_socket Queue.clear
  reset_socket-IsSound sn b callback w small h =
      let s = w.sockets sn in
      let tx : IsPlaced s.tx_buf_queue s.tx_buf_len = (h.each sn).tx-IsPlaced in
      put_socket-IsSound w sn _ h record {
        tx-IsPlaced = record {
          queue-IsValid = clear-IsValid socket_queue_size s.tx_buf_queue tx.queue-IsValid;
          small = small;
          spread = nothing_queued refl;
        };
        rx-IsValid = clear-IsValid socket_queue_size s.rx_buf_queue (h.each sn).rx-IsValid;
      }

  Step-IsSound :
      (v w : World) (s : Step v w) → IsCarefulStep v w s → Holds IsSound v → Holds IsSound w
  Step-IsSound _ _ (interrupted i v) care h = handle-IsSound hal i v h
  Step-IsSound _ _ (sends sn buf v) care h = send-IsSound hal sn buf v h care
  Step-IsSound _ _ (sends_to sn buf addr port v) care h =
      sendto-IsSound hal sn buf addr port v h care
  Step-IsSound _ _ (receives sn wants len v) care h = recv-IsSound hal sn wants len v h
  Step-IsSound _ _ (receives_from sn wants len v) care h = recvfrom-IsSound hal sn wants len v h
  Step-IsSound _ _ (sets_reg sn addr bytes len v) care h =
      enqueue_set_reg-IsSound sn addr bytes len v h
  Step-IsSound _ _ (gets_reg sn addr buffer len v) care h =
      enqueue_get_reg-IsSound sn addr buffer len v h
  Step-IsSound _ _ (resets sn b callback v) care h = reset_socket-IsSound sn b callback v care h
  Step-IsSound _ _ (writes m v) care h = at_memory-IsSound m v h

  -- Take a run of interrupts and calls of the socket layer in which every call of send and sendto
  -- finds its socket's queue empty, or its last segment not ending where the first one starts, and
  -- every socket is opened with a send buffer of less than 2^15 bytes. From a state in which the
  -- command queue and the sockets' queues are valid, every send buffer has less than 2^15 bytes and
  -- the segments to send lie apart in it, the run leads to such a state.
  pub Reaches-IsSound :
      (u w : World) (r : Reaches u w)
      → IsCareful u w r
      → IsSound u.memory u.sockets u.command_queue
      → IsSound w.memory w.sockets w.command_queue
  Reaches-IsSound _ _ (here u) care h = h
  Reaches-IsSound _ _ (further u v w r s) care h =
      Step-IsSound v w s care.1 (Reaches-IsSound u v r care.0 h)

  -- After such a run from such a state, the place that getTXBufferIndex chooses for `len` bytes lies
  -- in the send buffer and shares no byte with a segment that waits to be sent, as long as there is
  -- none or the last of them does not end where the first one starts.
  pub Reaches-IsApart :
      (u w : World) (sn len i : ℕ) (r : Reaches u w)
      → IsCareful u w r
      → IsSound u.memory u.sockets u.command_queue
      → HasGap (w.sockets sn).tx_buf_queue
      → get_tx_buffer_index (w.sockets sn) len ≡ pos i
      → (i + len ≤ (w.sockets sn).tx_buf_len)
        × All (IsApart i len) (contents socket_queue_size (w.sockets sn).tx_buf_queue)
  unfolding get_tx_buffer_index
  Reaches-IsApart u w sn len i r care h gap e =
      let s = w.sockets sn in
      chosen-IsApart s.tx_buf_queue s.tx_buf_len
        ((Reaches-IsSound u w r care h).each sn).tx-IsPlaced len i gap e
