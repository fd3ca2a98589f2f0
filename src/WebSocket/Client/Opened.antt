-- ===== src/WebSocket/Client/Opened.antt =====
-- How ws_client_connect ends.
use wiznet_driver.Base.{ℕ, zero, suc, ◌+◌, ◌-◌, ◌≡◌, ◌⊎◌, inl, inr, refl, arith, Bool, true, false}
use wiznet_driver.Base.{List, [], ◌++◌, length}
use wiznet_driver.Base.Int.{ℤ}
use wiznet_driver.Net.{Net}
use wiznet_driver.Dns.Message.{c_string}
use wiznet_driver.WebSocket.Base64.{codes}
use wiznet_driver.WebSocket.Client.{Client, ws_ok, disconnected, connected}
use wiznet_driver.WebSocket.Handshake.{ws_err_handshake_fail, handshake, ws_generate_key}
use wiznet_driver.WebSocket.Client.{ws_err_timeout, ws_err_socket_fail, ws_err_not_initialized}
use wiznet_driver.WebSocket.Client.Connect.{fails, ws_err_connect_fail, is_closed, ws_callback}
use wiznet_driver.Base.{if◌then◌else◌, ltb, not, ◌%◌}
use wiznet_driver.Net.{is_sock_ok, protocol_tcp}
use wiznet_driver.WebSocket.Handshake.{contains, ws_parse_handshake_response}
use wiznet_driver.WebSocket.Client.Connect.{is_complete, handshake_loop, open_handshake}
use wiznet_driver.WebSocket.Client.Connect.{ws_client_connect, ws_rx_size, is_ws_ok, sub32}

-- The text is an answer that the client takes.
pub record IsAccepted (response : List ℕ) : Type 0 where
  pub complete : is_complete response ≡ true
  pub code : contains (codes "101") (c_string response) ≡ true
  pub words : contains (codes "Switching Protocols") (c_string response) ≡ true

parsed-IsAccepted :
    (response : List ℕ)
    → is_complete response ≡ true
    → is_ws_ok (ws_parse_handshake_response (c_string response)) ≡ true
    → IsAccepted response
unfolding ws_parse_handshake_response
parsed-IsAccepted response complete e = ground arith

module _ (net : Net) (sn : ℕ) where
  -- A text that the socket received, call by call.
  pub data IsReceived : List ℕ → Type 0 where
    nothing : IsReceived []
    more :
        (text : List ℕ) (len : ℕ) (w : net.World)
        → IsReceived text
        → IsReceived (text ++ (net.receive sn len w).0)

  -- Either the call succeeds and the client is connected, by an answer that the socket received, or
  -- it fails and the client is disconnected.
  abbrev pub IsConcluded : ℤ → Client → Type 0
  IsConcluded code g =
      ((code ≡ ws_ok)
        × (g.state ≡ connected)
        × ((response : List ℕ) × IsReceived response × IsAccepted response))
      ⊎ ((is_ws_ok code ≡ false) × (g.state ≡ disconnected))

  tested-IsConcluded :
      (b : Bool) (u v : ℤ × Client × net.World)
      → IsConcluded u.0 u.1
      → IsConcluded v.0 v.1
      → let r : ℤ × Client × net.World = if b then u else v in IsConcluded r.0 r.1
  tested-IsConcluded true u v p q = p
  tested-IsConcluded false u v p q = q

  ready-IsConcluded :
      (b : Bool) (u v : ℤ × Client × net.World)
      → b ≡ true
      → IsConcluded v.0 v.1
      → let r : ℤ × Client × net.World = if not b then u else v in IsConcluded r.0 r.1
  ready-IsConcluded true u v e h = h
  ready-IsConcluded false u v e h = absurd (cc e)

  -- The tests of one round.
  round-IsConcluded :
      (in_time got complete accepted : Bool) (g : Client) (w w1 : net.World)
      (rest : ℤ × Client × net.World) (response : List ℕ)
      → IsConcluded rest.0 rest.1
      → IsReceived response
      → (complete ≡ true → accepted ≡ true → IsAccepted response)
      → let r : ℤ × Client × net.World =
          if in_time
          then if got
            then if complete
              then if accepted
                then (ws_ok, record g { state = connected }, w1)
                else fails net ws_err_handshake_fail g w1
              else rest
            else rest
          else fails net ws_err_timeout g w in
        IsConcluded r.0 r.1
  round-IsConcluded false got complete accepted g w w1 rest response h received f = inr (refl, refl)
  round-IsConcluded true false complete accepted g w w1 rest response h received f = h
  round-IsConcluded true true false accepted g w w1 rest response h received f = h
  round-IsConcluded true true true false g w w1 rest response h received f = inr (refl, refl)
  round-IsConcluded true true true true g w w1 rest response h received f =
      inl (refl, refl, (response, received, f refl refl))

module _ (net : Net) where
  handshake_loop-IsConcluded :
      (fuel start_time : ℕ) (response : List ℕ) (g : Client) (w : net.World)
      → IsReceived net g.config.socket_num response
      → let r = handshake_loop net fuel start_time response g w in
        IsConcluded net g.config.socket_num r.0 r.1
  unfolding handshake_loop
  handshake_loop-IsConcluded zero start_time response g w received = inr (refl, refl)
  handshake_loop-IsConcluded (suc fuel) start_time response g w received =
      let r = net.receive g.config.socket_num (ws_rx_size - length response) w in
      let response' = response ++ r.0 in
      let received' = more response (ws_rx_size - length response) w received in
      round-IsConcluded net g.config.socket_num (ltb (sub32 (net.tick w) start_time) 6000)
        (ltb 0 (length r.0)) (is_complete response')
        (is_ws_ok (ws_parse_handshake_response (c_string response'))) g w r.1
        (handshake_loop net fuel start_time response' g (net.delay 100 r.1)) response'
        (handshake_loop-IsConcluded fuel start_time response' g (net.delay 100 r.1) received')
        received' (parsed-IsAccepted response')

  open_handshake-IsConcluded :
      (g : Client) (w : net.World)
      → let r = open_handshake net g w in IsConcluded net g.config.socket_num r.0 r.1
  unfolding open_handshake
  open_handshake-IsConcluded g w =
      let key = ws_generate_key net.rand w in
      let sent = net.send g.config.socket_num (handshake g.config key.0) key.1 in
      tested-IsConcluded net g.config.socket_num (is_sock_ok sent.0)
        (handshake_loop net 6000 (net.tick sent.1) [] g sent.1)
        (fails net ws_err_socket_fail g sent.1)
        (handshake_loop-IsConcluded 6000 (net.tick sent.1) [] g sent.1 nothing) (inr (refl, refl))

  -- ws_client_connect of an initialised client either returns WS_OK, and the client is connected
  -- and has received an answer with an empty line, with "101" and with "Switching Protocols"; or it
  -- returns an error, and the client is disconnected.
  pub ws_client_connect-IsConcluded :
      (g : Client) (w : net.World)
      → g.initialized ≡ true
      → let r = ws_client_connect net g w in IsConcluded net g.config.socket_num r.0 r.1
  unfolding ws_client_connect
  ws_client_connect-IsConcluded g w ready =
      let g1 : Client = record g {
        timeout_flag = false;
        disconnect_req_flag = false;
        disconnect_suc_flag = false;
      } in
      let sn = g.config.socket_num in
      let w1 = if is_closed (net.status sn w) then w else (net.close sn w).1 in
      let made =
        net.socket sn protocol_tcp (30000 + net.tick w1 % 10000) g.config.buffers ws_callback w1 in
      let reached = net.connect sn g.config.host g.config.port made.1 in
      let opened : ℤ × Client × net.World =
        if not (is_sock_ok reached.0)
        then fails net ws_err_connect_fail g1 reached.1
        else open_handshake net g1 reached.1 in
      let tried : ℤ × Client × net.World =
        if not (is_sock_ok made.0)
        then (ws_err_socket_fail, record g1 { state = disconnected }, made.1)
        else opened in
      ready-IsConcluded net sn g.initialized (ws_err_not_initialized, g, w) tried ready
        (tested-IsConcluded net sn (not (is_sock_ok made.0))
          (ws_err_socket_fail, record g1 { state = disconnected }, made.1) opened (inr (refl, refl))
          (tested-IsConcluded net sn (not (is_sock_ok reached.0))
            (fails net ws_err_connect_fail g1 reached.1) (open_handshake net g1 reached.1)
            (inr (refl, refl)) (open_handshake-IsConcluded g1 reached.1)))
