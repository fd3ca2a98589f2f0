-- ===== src/WebSocket/Client/Frames.antt =====
-- What ws_client_process does with a frame that a server sends.
use wiznet_driver.Base.{ℕ, ◌^◌, ◌≡◌, ◌<◌, ◌≤◌, ◌⊎◌, inl, inr, refl, ap, ◌∙◌, arith}
use wiznet_driver.Base.{Bool, true, false, ltb, not, ◌==◌, if◌then◌else◌, some, List, []}
use wiznet_driver.Base.{◌||◌, length}
use wiznet_driver.Base.Int.{pos, int16}
use wiznet_driver.Net.{Net}
use wiznet_driver.WebSocket.Frame.{op_text, op_binary}
use wiznet_driver.WebSocket.Frame.Server.{server_frame, server_header}
use wiznet_driver.WebSocket.Frame.Server.{
  length-server_frame, parse_header-server_frame, payload-server_frame,
}
use wiznet_driver.WebSocket.Client.{Client, connected, is_established, is_closing, is_connected}
use wiznet_driver.WebSocket.Client.{ws_err_buffer_too_small}
use wiznet_driver.WebSocket.Client.Process.{ws_client_process, ws_process_internal, handle_frame}
use wiznet_driver.WebSocket.Client.Process.{process_parsed, Processed}

-- A connected client with no event flag set, on an open socket.
pub record IsReady (net : Net) (g : Client) (w : net.World) : Type 0 where
  pub initialized : g.initialized ≡ true
  pub open_socket : is_established (net.status g.config.socket_num w) ≡ true
  pub no_timeout : g.timeout_flag ≡ false
  pub no_request : g.disconnect_req_flag ≡ false
  pub no_success : g.disconnect_suc_flag ≡ false
  pub state_connected : g.state ≡ connected

-- Behind the tests of ws_client_process.
past_tests :
    {A : Type 0} (b1 b2 b3 b4 b5 b6 b7 : Bool) (e1 e2 e3 e4 e5 e6 e7 go : A)
    → b1 ≡ true
    → b2 ≡ true
    → b3 ≡ false
    → b4 ≡ false
    → b5 ≡ false
    → b6 ≡ false
    → b7 ≡ true
    → (if not b1
        then e1
        else if not b2
        then e2
        else if b3
        then e3
        else if b4
        then e4
        else if b5
        then e5
        else if b6
        then e6
        else if not b7
        then e7
        else go)
      ≡ go
past_tests b1 b2 b3 b4 b5 b6 b7 e1 e2 e3 e4 e5 e6 e7 go h1 h2 h3 h4 h5 h6 h7 =
    rw (h1, h2, h3, h4, h5, h6, h7) refl

module _ (net : Net) (buffer : Bool) (len op : ℕ) (payload : List ℕ) (g : Client)
    (w : net.World) where
  internal-frame :
      op < 16
      → length payload < 2 ^ 16
      → (net.receive g.config.socket_num 2048 w).0 ≡ server_frame op payload
      → ws_process_internal net buffer len g w
        ≡ handle_frame net buffer len
            (server_frame op payload)
            (server_header op (length payload))
            g
            (net.receive g.config.socket_num 2048 w).1
  unfolding ws_process_internal process_parsed
  internal-frame ho hn e = rw (e, parse_header-server_frame op payload ho hn) (ground arith)

  pub process-frame :
      op < 16
      → length payload < 2 ^ 16
      → IsReady net g w
      → (net.receive g.config.socket_num 2048 w).0 ≡ server_frame op payload
      → ws_client_process net buffer len g w
        ≡ handle_frame net buffer len
            (server_frame op payload)
            (server_header op (length payload))
            g
            (net.receive g.config.socket_num 2048 w).1
  unfolding ws_client_process
  process-frame ho hn r e =
      past_tests g.initialized (is_established (net.status g.config.socket_num w)) g.timeout_flag
        g.disconnect_req_flag g.disconnect_suc_flag (is_closing g.state) (is_connected g.state) _ _
        _ _ _ _ _ (ws_process_internal net buffer len g w) r.initialized r.open_socket r.no_timeout
        r.no_request r.no_success (ap is_closing r.state_connected)
        (ap is_connected r.state_connected)
      ∙ internal-frame ho hn e

module _ (net : Net) (buffer : Bool) (len op : ℕ) (payload : List ℕ) (g : Client)
    (w : net.World) where
  abbrev pub after : net.World
  after = (net.receive g.config.socket_num 2048 w).1

  -- What it gives back for a payload that does not fit, and for one that does.
  abbrev pub too_small : Processed
  too_small = record { result = ws_err_buffer_too_small; opcode = some op; written = [] }

  abbrev pub whole : Processed
  whole = record { result = pos (length payload); opcode = some op; written = payload }

  data-handled :
      (op ≡ op_text) ⊎ (op ≡ op_binary)
      → length payload < 2 ^ 15
      → handle_frame net true len
          (server_frame op payload)
          (server_header op (length payload))
          g
          after
        ≡ (if ltb len (length payload) then too_small else whole, g, after)
  unfolding handle_frame
  data-handled which small =
      let is_data : (op == op_text || op == op_binary) ≡ true = ground arith in
      let number : int16 (pos (length payload)) ≡ pos (length payload) = ground arith in
      rw (is_data, number, payload-server_frame op payload) (split (ltb len (length payload)))
    where
      split :
          (b : Bool)
          → if◌then◌else◌ {A = Processed × Client × net.World} b
              (too_small, g, after)
              (whole, g, after)
            ≡ (if b then too_small else whole, g, after)
      split true = refl
      split false = refl

  -- A connected client receives a text or binary frame of a server, of at most 2048 bytes. Where the
  -- payload fits into the caller's buffer, ws_client_process returns its length, its opcode and its
  -- bytes, and otherwise WS_ERR_BUFFER_TOO_SMALL and writes nothing; the client stays as it is.
  pub ws_client_process-data :
      (op ≡ op_text) ⊎ (op ≡ op_binary)
      → length (server_frame op payload) ≤ 2048
      → IsReady net g w
      → (net.receive g.config.socket_num 2048 w).0 ≡ server_frame op payload
      → ws_client_process net true len g w
        ≡ (if ltb len (length payload) then too_small else whole, g, after)
  ws_client_process-data which small r e =
      let fits = length-server_frame op payload in
      process-frame net true len op payload g w (data_opcode which) (omega arith) r e
      ∙ data-handled which (omega arith)
    where
      data_opcode : (op ≡ op_text) ⊎ (op ≡ op_binary) → op < 16
      data_opcode (inl e) = omega arith
      data_opcode (inr e) = omega arith
