-- ===== src/WebSocket/Client/Control.antt =====
-- What ws_client_process answers to a server's PING and CLOSE.
use wiznet_driver.Base.{ℕ, ◌+◌, ◌/◌, ◌%◌, ◌^◌, ◌≡◌, ◌<◌, ◌≤◌, refl, ap, ◌∙◌, arith, Bool}
use wiznet_driver.Base.{some, List, [], length, All}
use wiznet_driver.Base.Bits.{IsByte}
use wiznet_driver.Net.{Net}
use wiznet_driver.WebSocket.Frame.{op_close, op_ping, op_pong, generate_masking_key}
use wiznet_driver.WebSocket.Frame.RoundTrip.{client_frame, read_frame, read_frame-client_frame}
use wiznet_driver.WebSocket.Frame.Server.{server_frame, payload-server_frame}
use wiznet_driver.WebSocket.Client.{Client, disconnected, is_connected, ws_ok, send_masked}
use wiznet_driver.WebSocket.Client.Sent.{masked_whole}
use wiznet_driver.WebSocket.Client.Process.{ws_client_process, handle_frame}
use wiznet_driver.WebSocket.Client.Frames.{IsReady, process-frame}

module _ (net : Net) (buffer : Bool) (len : ℕ) (payload : List ℕ) (g : Client) (w : net.World) where
  -- A frame with this opcode and these bytes goes out, masked with a new key.
  abbrev pub key_at : net.World → List ℕ
  key_at v = generate_masking_key (net.rand v).0

  abbrev pub answered : ℕ → List ℕ → net.World → net.World
  answered op bytes v =
      (net.send g.config.socket_num (client_frame op bytes (key_at v)) (net.rand v).1).1

  sent-whole :
      (op : ℕ) (bytes : List ℕ) (v : net.World)
      → length bytes + 8 < 2 ^ 16
      → (send_masked net op bytes g v).1 ≡ answered op bytes v
  unfolding send_masked
  sent-whole op bytes v small =
      ap (λ f. (net.send g.config.socket_num f (net.rand v).1).1)
        (masked_whole op bytes (net.rand v).0 small)

  -- The state behind the receive.
  abbrev pub taken : net.World
  taken = (net.receive g.config.socket_num 2048 w).1

  -- A connected client receives a server's PING with at most 58 bytes of payload: it sends one
  -- frame, which the client's own parser reads back as a PONG with the same payload, and returns
  -- WS_OK; nothing is written to the caller's buffer, and the client stays as it is.
  pub ws_client_process-ping :
      length payload ≤ 58
      → All IsByte payload
      → IsReady net g w
      → (net.receive g.config.socket_num 2048 w).0 ≡ server_frame op_ping payload
      → (ws_client_process net buffer len g w ≡ (
        record { result = ws_ok; opcode = some op_ping; written = [] },
        g,
        answered op_pong payload taken,
      ))
        × (read_frame (client_frame op_pong payload (key_at taken)) ≡ some (op_pong, payload))
  unfolding handle_frame generate_masking_key
  ws_client_process-ping small bytes r e =
      let rand_val = (net.rand taken).0 in
      (
        process-frame net buffer len op_ping payload g w (omega arith) (omega arith) r e
            ∙ rw
                (
                  payload-server_frame op_ping payload,
                  sent-whole op_pong payload taken (omega arith),
                )
                refl,
        read_frame-client_frame op_pong payload (rand_val / 2 ^ 24 % 2 ^ 8)
            (rand_val / 2 ^ 16 % 2 ^ 8) (rand_val / 2 ^ 8 % 2 ^ 8) (rand_val % 2 ^ 8) (omega arith)
            (omega arith) bytes (omega arith),
      )

  -- A connected client receives a server's CLOSE with at most 125 bytes of payload: it sends a CLOSE
  -- without payload, waits two seconds, disconnects the socket, is DISCONNECTED and returns WS_OK.
  pub ws_client_process-close :
      length payload ≤ 125
      → IsReady net g w
      → (net.receive g.config.socket_num 2048 w).0 ≡ server_frame op_close payload
      → ws_client_process net buffer len g w ≡ (
        record { result = ws_ok; opcode = some op_close; written = [] },
        record g { state = disconnected },
        (net.disconnect g.config.socket_num (net.delay 2000 (answered op_close [] taken))).1,
      )
  unfolding handle_frame
  ws_client_process-close small r e =
      process-frame net buffer len op_close payload g w (omega arith) (omega arith) r e
      ∙ rw (ap is_connected r.state_connected, sent-whole op_close [] taken (omega arith)) refl
