-- ===== src/WebSocket/Client/Examples.antt =====
-- The opening handshake with a server that answers at once, and with one that is silent.
use wiznet_driver.Base.{ℕ, ◌+◌, ◌≡◌, refl, arith, true, false, none, List, [], ◌∷◌, ◌++◌}
use wiznet_driver.Net.{Net, sock_ok, established}
use wiznet_driver.WebSocket.Base64.{codes}
use wiznet_driver.WebSocket.Client.{Config, Client, disconnected}
use wiznet_driver.WebSocket.Handshake.{crlf, handshake, pieces, concat, decimal}
use wiznet_driver.WebSocket.Handshake.Printed.{handshake-whole}
use wiznet_driver.WebSocket.Client.Connect.{ws_client_connect, handshake_loop}
use wiznet_driver.WebSocket.Client.Opened.{IsConcluded, ws_client_connect-IsConcluded}
use wiznet_driver.WebSocket.Client.Waited.{handshake_loop-enough}

abbrev answer : List ℕ
answer = codes "HTTP/1.1 101 Switching Protocols" ++ crlf ++ crlf

-- The world is the clock. Whatever is received is `text`.
abbrev net_with : List ℕ → Net
net_with text = record {
  World = ℕ;
  socket = λ sn protocol port buffers f t. (sock_ok, t);
  close = λ sn t. (sock_ok, t);
  connect = λ sn addr port t. (sock_ok, t);
  disconnect = λ sn t. (sock_ok, t);
  send = λ sn buf t. (sock_ok, t);
  sendto = λ sn buf addr port t. (sock_ok, t);
  receive = λ sn len t. (text, t);
  recvfrom = λ sn len t. (none, t);
  status = λ sn t. established;
  tick = λ t. t;
  delay = λ n t. t + n;
  rand = λ t. (0x01020304, t);
}

abbrev config : Config
config = record {
  socket_num = 2;
  host = 192 ∷ 168 ∷ 0 ∷ 1 ∷ [];
  port = 8080;
  path = codes "/chat";
  buffers = record { tx_buf = none; tx_buf_len = 0; rx_buf = none; rx_buf_len = 0 };
}

abbrev client : Client
client = record {
  config = config;
  initialized = true;
  state = disconnected;
  close_time = 0;
  timeout_flag = false;
  disconnect_req_flag = false;
  disconnect_suc_flag = false;
}

abbrev key : List ℕ
key = codes "AAAAAAAAAAAAAAAAAAAAAA=="

decimal-run : decimal 5 8080 ≡ codes "8080"
unfolding decimal
decimal-run = refl

ws_client_connect-IsConcluded_example :
    let r = ws_client_connect (net_with answer) client 7 in IsConcluded (net_with answer) 2 r.0 r.1
ws_client_connect-IsConcluded_example =
    ws_client_connect-IsConcluded (net_with answer) client 7 refl

handshake-whole_example : handshake config key ≡ concat (pieces config key)
handshake-whole_example =
    handshake-whole config key 192 168 0 1 refl (omega arith) (omega arith) refl (omega arith)

handshake_loop-enough_example :
    handshake_loop (net_with []) 6000 0 [] client 0
    ≡ handshake_loop (net_with []) 9000 0 [] client 0
handshake_loop-enough_example =
    handshake_loop-enough (net_with []) 0 6000 9000 [] client 0 (λ len v early. omega arith)
      (omega arith) (omega arith)
