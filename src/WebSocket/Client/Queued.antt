-- ===== src/WebSocket/Client/Queued.antt =====
-- Src/websocket_client.c over Src/socket.cpp: what a successful send of a message has queued.
use wiznet_driver.Base.{
  ℕ, ◌/◌, ◌%◌, ◌^◌, ◌+◌, ◌≡◌, ◌<◌, ◌∙◌, leb, refl, arith, Bool, true, false, not, if◌then◌else◌,
}
use wiznet_driver.Base.{some, List, length, take, sym, ap, All}
use wiznet_driver.Base.Bits.{IsByte}
use wiznet_driver.Base.Int.{ℤ, pos, int16}
use wiznet_driver.Memory.{Pointer}
use wiznet_driver.Net.{SockResult, is_sock_ok, is_sock_ok-eq}
use wiznet_driver.Driver.{World, Hal}
use wiznet_driver.Driver.Blocking.{Os}
use wiznet_driver.Driver.Buffers.Queued.{HasGap}
use wiznet_driver.Driver.Engine.Keeps.{Holds}
use wiznet_driver.Driver.Pending.{send_pending_data}
use wiznet_driver.Driver.Sound.{IsSound}
use wiznet_driver.Sockets.Api.{driver_net}
use wiznet_driver.Sockets.Transfer.{send}
use wiznet_driver.Sockets.Transfer.Sent.{IsQueuedAt, send-IsQueuedAt}
use wiznet_driver.WebSocket.Frame.{generate_masking_key}
use wiznet_driver.WebSocket.Frame.RoundTrip.{client_frame, read_frame, read_frame-client_frame}
use wiznet_driver.WebSocket.Client.Sent.{masked_whole}
use wiznet_driver.WebSocket.Client.{Client, send_frame, send_masked, is_connected}
use wiznet_driver.WebSocket.Client.{ws_err_not_initialized, ws_err_wrong_state, ws_err_socket_fail}

-- Where a send of a message ends with a length.
guarded-length :
    {A : Type 0} (b1 b2 b3 : Bool) (z : ℤ) (w w' : A) (n : ℕ)
    → let r : ℤ × A =
        if not b1
        then (ws_err_not_initialized, w)
        else if not b2
        then (ws_err_wrong_state, w)
        else (if b3 then z else ws_err_socket_fail, w') in
      r.0 ≡ pos n → (b3 ≡ true) × (r.1 ≡ w')
guarded-length false b2 b3 z w w' n e = absurd (cc e)
guarded-length true false b3 z w w' n e = absurd (cc e)
guarded-length true true false z w w' n e = absurd (cc e)
guarded-length true true true z w w' n e = (refl, refl)

-- The frame that is sent, and the state behind the call of the random number.
abbrev pub masked_frame : Os → ℕ → List ℕ → World → List ℕ
masked_frame os op payload w = client_frame op payload (generate_masking_key (os.rand w).0)

abbrev pub drawn : Os → World → World
drawn os w = (os.rand w).1

module _ (hal : Hal) (os : Os) (op : ℕ) (payload : List ℕ) (g : Client) (w : World)
    (p : Pointer) where
  -- Over the driver's own socket layer, behind the call of the random number in a state in which
  -- the queues are valid, every send buffer has less than 2^15 bytes and the segments to send lie
  -- apart in it, take a socket with a send buffer in which nothing is queued or the last segment
  -- does not end where the first one starts. Where sending a payload of at most 65527 bytes with an
  -- opcode of four bits returns a length that is not negative, it has queued one segment behind the
  -- others, whose bytes in the send buffer the client's own parser reads back as that opcode and
  -- that payload, before it called sendPendingData; and no byte of a segment that was queued before
  -- has changed.
  pub send_frame-IsQueuedAt :
      (n : ℕ)
      → op < 16
      → length payload + 8 < 2 ^ 16
      → All IsByte payload
      → Holds IsSound (drawn os w)
      → HasGap ((drawn os w).sockets g.config.socket_num).tx_buf_queue
      → ((drawn os w).sockets g.config.socket_num).tx_buf ≡ some p
      → (send_frame (driver_net hal os) op (some payload) g w).0 ≡ pos n
      → (i : ℕ) × (w1 : World) × ((send_frame (driver_net hal os) op (some payload) g w).1
          ≡ send_pending_data hal g.config.socket_num w1)
        × IsQueuedAt hal g.config.socket_num
            (masked_frame os op payload w)
            (drawn os w)
            p
            (λ segment. segment)
            i
            w1
        × (read_frame (masked_frame os op payload w) ≡ some (op, payload))
  unfolding send_frame send_masked generate_masking_key
  send_frame-IsQueuedAt n ho hn hp h gap has e =
      let sn = g.config.socket_num in
      let sends : List ℕ → SockResult × World = λ frame. send hal sn (some frame) (drawn os w) in
      let frame = masked_frame os op payload w in
      let sent = sends (take (length frame % 2 ^ 16) frame) in
      let whole = masked_whole op payload (os.rand w).0 hn in
      let r = (os.rand w).0 in
      let (ok, same) =
        guarded-length g.initialized (is_connected g.state) (is_sock_ok sent.0)
          (int16
            (pos (((if leb 126 (length payload) then 4 else 2) + 4 + length payload) % 2 ^ 16)))
          w sent.1 n e in
      let (i, w1, after, queued) =
        send-IsQueuedAt hal sn (masked_frame os op payload w) (drawn os w) p h gap has
          (is_sock_ok-eq (sends frame).0 (sym (ap (λ f. is_sock_ok (sends f).0) whole) ∙ ok)) in
      (
        i,
        w1,
        same ∙ ap (λ f. (sends f).1) whole ∙ after,
        queued,
        read_frame-client_frame op payload (r / 2 ^ 24 % 2 ^ 8) (r / 2 ^ 16 % 2 ^ 8)
            (r / 2 ^ 8 % 2 ^ 8) (r % 2 ^ 8) ho (omega arith) hp (omega arith),
      )
