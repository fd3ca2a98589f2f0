-- ===== src/Udp/Queued.antt =====
-- Src/udp_client.c over Src/socket.cpp: what a successful udp_client_send has queued.
use wiznet_driver.Base.{ℕ, ◌≡◌, refl, sym, ap, ◌∙◌, Bool, true, false, not, ◌==◌, if◌then◌else◌}
use wiznet_driver.Base.{some, List, length}
use wiznet_driver.Memory.{Pointer}
use wiznet_driver.Net.{is_sock_ok, is_sock_ok-eq}
use wiznet_driver.Driver.{World, Hal}
use wiznet_driver.Driver.Blocking.{Os}
use wiznet_driver.Driver.Buffers.Queued.{HasGap}
use wiznet_driver.Driver.Engine.Keeps.{Holds}
use wiznet_driver.Driver.Pending.{send_pending_data}
use wiznet_driver.Driver.Sound.{IsSound}
use wiznet_driver.Sockets.Api.{driver_net}
use wiznet_driver.Sockets.Open.{get_socket_status}
use wiznet_driver.Sockets.Transfer.{sendto}
use wiznet_driver.Sockets.Transfer.Sent.{IsQueuedAt, addressed, sendto-IsQueuedAt}
use wiznet_driver.Udp.{UdpResult, udp_ok, udp_error_not_initialized, udp_error_invalid_param}
use wiznet_driver.Udp.{udp_error_socket_fail, udp_error_send_fail}
use wiznet_driver.Udp.{Client, udp_client_send, is_udp, open_socket, send_datagram}

-- The result of the last part of `udp_client_send`.
passed_on : (b : Bool) → (if b then udp_ok else udp_error_send_fail) ≡ udp_ok → b ≡ true
passed_on true ok = refl
passed_on false ok = absurd (cc ok)

-- Behind the tests of `udp_client_send`, where the socket is open and it ends well.
guarded-udp_ok :
    {A : Type 0} (b1 b2 b : Bool) (go other : UdpResult × A) (w : A)
    → let r : UdpResult × A =
        if not b1
        then (udp_error_not_initialized, w)
        else if b2
        then (udp_error_invalid_param, w)
        else if b
        then go
        else other in
      b ≡ true → r.0 ≡ udp_ok → r ≡ go
guarded-udp_ok false b2 b go other w open_for ok = absurd (cc ok)
guarded-udp_ok true true b go other w open_for ok = absurd (cc ok)
guarded-udp_ok true false true go other w open_for ok = refl
guarded-udp_ok true false false go other w open_for ok = absurd (cc open_for)

module _ (hal : Hal) (os : Os) (g : Client) (bytes : List ℕ) (w : World) (p : Pointer) where
  -- Over the driver's own socket layer, in a state in which the queues are valid, every send buffer
  -- has less than 2^15 bytes and the segments to send lie apart in it, take a socket that is open
  -- for UDP, with a send buffer in which nothing is queued or the last segment does not end where
  -- the first one starts. Where `udp_client_send` returns UDP_OK, it has queued one segment behind
  -- the others, with the destination of the configuration and the data in the send buffer, before
  -- it called sendPendingData; and no byte of a segment that was queued before has changed.
  pub udp_client_send-IsQueuedAt :
      Holds IsSound w
      → is_udp (get_socket_status g.config.socket_num w) ≡ true
      → HasGap (w.sockets g.config.socket_num).tx_buf_queue
      → (w.sockets g.config.socket_num).tx_buf ≡ some p
      → (udp_client_send (driver_net hal os) (some bytes) g w).0 ≡ udp_ok
      → (i : ℕ) × (w1 : World) × ((udp_client_send (driver_net hal os) (some bytes) g w).1
          ≡ send_pending_data hal g.config.socket_num w1)
        × IsQueuedAt hal g.config.socket_num bytes w p
            (addressed g.config.dest_ip g.config.dest_port)
            i
            w1
  unfolding udp_client_send
  udp_client_send-IsQueuedAt h open_for gap has ok =
      let sn = g.config.socket_num in
      let sent = sendto hal sn (some bytes) (some g.config.dest_ip) g.config.dest_port w in
      let opened = open_socket (driver_net hal os) g.config w in
      let go = send_datagram (driver_net hal os) g bytes w in
      let back =
        (if is_sock_ok opened.0
          then send_datagram (driver_net hal os) g bytes opened.1
          else (udp_error_socket_fail, opened.1)) in
      let same =
        guarded-udp_ok g.initialized (length bytes == 0) (is_udp (get_socket_status sn w)) go back w
          open_for ok in
      rw same (
        sendto-IsQueuedAt hal sn bytes w p g.config.dest_ip g.config.dest_port h gap has
          (is_sock_ok-eq sent.0 (passed_on (is_sock_ok sent.0) (ap (λ r. r.0) (sym same) ∙ ok))))
