-- ===== src/WebSocket/Client/QueuedExamples.antt =====
-- A message of the WebSocket client that goes to the socket layer.
use wiznet_driver.Base.{ℕ, ◌≡◌, refl, arith, true, false, some, List, [], ◌∷◌}
use wiznet_driver.Base.Int.{pos}
use wiznet_driver.Driver.{World}
use wiznet_driver.Driver.Pending.{send_pending_data}
use wiznet_driver.Sockets.Api.{driver_net}
use wiznet_driver.Sockets.Transfer.{send}
use wiznet_driver.Sockets.Transfer.Sent.{IsQueuedAt}
use wiznet_driver.Sockets.Examples.{hal, os, tx_pointer, start, start-IsSound, start-HasGap}
use wiznet_driver.WebSocket.Frame.{op_text}
use wiznet_driver.WebSocket.Frame.RoundTrip.{read_frame}
use wiznet_driver.WebSocket.Client.{Client, connected, send_frame}
use wiznet_driver.WebSocket.Client.Queued.{masked_frame, send_frame-IsQueuedAt}

abbrev client : Client
client = record {
  config = record {
    socket_num = 2;
    host = 10 ∷ 0 ∷ 0 ∷ 1 ∷ [];
    port = 80;
    path = b'/' ∷ [];
    buffers = record {
      tx_buf = some tx_pointer;
      tx_buf_len = 100;
      rx_buf = some tx_pointer;
      rx_buf_len = 100;
    };
  };
  initialized = true;
  state = connected;
  close_time = 0;
  timeout_flag = false;
  disconnect_req_flag = false;
  disconnect_suc_flag = false;
}

abbrev hello : List ℕ
hello = b'h' ∷ b'i' ∷ []

frame_run : (send_frame (driver_net hal os) op_text (some hello) client start).0 ≡ pos 8
unfolding send_frame send
frame_run = refl

send_frame-IsQueuedAt_example :
    (i : ℕ) × (w1 : World) × ((send_frame (driver_net hal os) op_text (some hello) client start).1
      ≡ send_pending_data hal 2 w1)
    × IsQueuedAt hal 2
        (masked_frame os op_text hello start)
        start
        tx_pointer
        (λ segment. segment)
        i
        w1
    × (read_frame (masked_frame os op_text hello start) ≡ some (op_text, hello))
send_frame-IsQueuedAt_example =
    send_frame-IsQueuedAt hal os op_text hello client start tx_pointer 8 (omega arith) (omega arith)
      (omega arith) start-IsSound start-HasGap refl frame_run
