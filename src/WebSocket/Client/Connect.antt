-- ===== src/WebSocket/Client/Connect.antt =====
-- Src/websocket_client.c: ws_client_connect. Interrupts may set the client's event flags while it
-- waits; the function does not read them, and they are left as it clears them.
use wiznet_driver.Base.{ℕ, zero, suc, ◌+◌, ◌-◌, ◌%◌, ◌^◌, Bool, true, false, not, ltb}
use wiznet_driver.Base.{if◌then◌else◌, Option, some, List, [], ◌++◌, length}
use wiznet_driver.Base.Int.{ℤ}
use wiznet_driver.Net.{Net, SocketStatus, closed, is_sock_ok, protocol_tcp}
use wiznet_driver.Dns.Message.{c_string}
use wiznet_driver.WebSocket.Client.{Client, ws_ok, ws_err_not_initialized, ws_err_socket_fail}
use wiznet_driver.WebSocket.Client.{ws_err_timeout, disconnected, connected}
use wiznet_driver.WebSocket.Handshake.{handshake, ws_generate_key, ws_parse_handshake_response}
use wiznet_driver.WebSocket.Handshake.{contains, crlf, ws_err_handshake_fail}

abbrev pub ws_err_connect_fail : ℤ
ws_err_connect_fail = ℤ.negsuc 4

-- `sizeof(ws_rx_temp)`
abbrev pub ws_rx_size : ℕ
ws_rx_size = 2048

-- The pointer to ws_socket_callback.
abbrev pub ws_callback : Option ℕ
ws_callback = some 0

abbrev pub sub32 : ℕ → ℕ → ℕ
sub32 a b = (a + 2 ^ 32 - b % 2 ^ 32) % 2 ^ 32

abbrev pub is_closed : SocketStatus → Bool
is_closed closed = true
is_closed _ = false

abbrev pub is_ws_ok : ℤ → Bool
is_ws_ok (ℤ.pos zero) = true
is_ws_ok _ = false

-- `ws_rx_temp` as a C string holds an empty line.
abbrev pub is_complete : List ℕ → Bool
is_complete response = contains (crlf ++ crlf) (c_string response)

module _ (net : Net) where
  open net use {World, socket, close, connect, send, receive, status, tick, delay, rand}

  -- The end of a call that does not connect.
  abbrev pub fails : ℤ → Client → World → ℤ × Client × World
  fails code g w = (code, record g { state = disconnected }, (close g.config.socket_num w).1)

  -- The wait for the answer, of which `response` has been received. A round takes a tick at least,
  -- so that 6000 rounds are enough.
  unfoldable pub handshake_loop : ℕ → ℕ → List ℕ → Client → World → ℤ × Client × World
  unfolding ws_parse_handshake_response contains c_string
  handshake_loop zero start_time response g w = fails ws_err_timeout g w
  handshake_loop (suc fuel) start_time response g w =
      let (received, w1) = receive g.config.socket_num (ws_rx_size - length response) w in
      let response' = response ++ received in
      let rest = handshake_loop fuel start_time response' g (delay 100 w1) in
      if ltb (sub32 (tick w) start_time) 6000
      then if ltb 0 (length received)
        then if is_complete response'
          then if is_ws_ok (ws_parse_handshake_response (c_string response'))
            then (ws_ok, record g { state = connected }, w1)
            else fails ws_err_handshake_fail g w1
          else rest
        else rest
      else fails ws_err_timeout g w

  -- The part behind the connection of the socket.
  unfoldable pub open_handshake : Client → World → ℤ × Client × World
  unfolding ws_generate_key handshake handshake_loop
  open_handshake g w =
      let (key, w1) = ws_generate_key rand w in
      let (sent, w2) = send g.config.socket_num (handshake g.config key) w1 in
      if is_sock_ok sent
      then handshake_loop 6000 (tick w2) [] g w2
      else fails ws_err_socket_fail g w2

  unfoldable pub ws_client_connect : Client → World → ℤ × Client × World
  unfolding open_handshake
  ws_client_connect g w =
      let g1 = record g {
        timeout_flag = false;
        disconnect_req_flag = false;
        disconnect_suc_flag = false;
      } in
      let sn = g.config.socket_num in
      let w1 = if is_closed (status sn w) then w else (close sn w).1 in
      let source_port = 30000 + tick w1 % 10000 in
      let (result, w2) = socket sn protocol_tcp source_port g.config.buffers ws_callback w1 in
      let (reached, w3) = connect sn g.config.host g.config.port w2 in
      if not g.initialized
      then (ws_err_not_initialized, g, w)
      else if not (is_sock_ok result)
      then (ws_err_socket_fail, record g1 { state = disconnected }, w2)
      else if not (is_sock_ok reached)
      then fails ws_err_connect_fail g1 w3
      else open_handshake g1 w3
