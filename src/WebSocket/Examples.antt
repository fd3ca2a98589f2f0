-- ===== src/WebSocket/Examples.antt =====
-- Runs of the frame and base64 routines on concrete bytes.
use wiznet_driver.Base.{◌+◌, true, false}
use wiznet_driver.Net.{Net, sock_ok, established}
use wiznet_driver.WebSocket.Client.{Client, WsState, connected, send_frame}
use wiznet_driver.WebSocket.Client.Process.{ws_client_process}
use wiznet_driver.WebSocket.Client.Sent.{send_frame-read_frame}
use wiznet_driver.WebSocket.Client.Frames.{IsReady, ws_client_process-data}
use wiznet_driver.WebSocket.Client.Control.{
  answered, ws_client_process-ping, ws_client_process-close,
}
use wiznet_driver.WebSocket.Client.{disconnected, ws_ok}
use wiznet_driver.WebSocket.Frame.{op_ping, op_pong, op_close}
use wiznet_driver.Base.{inl}
use wiznet_driver.Base.Int.{pos}
use wiznet_driver.WebSocket.Frame.{generate_masking_key}
use wiznet_driver.Base.{ℕ, ◌≡◌, refl, arith, some, none, List, [], ◌∷◌}
use wiznet_driver.Base.{length}
use wiznet_driver.WebSocket.Frame.{
  create_frame_header, base_header, mask_payload, mask_from, op_text,
}
use wiznet_driver.WebSocket.Frame.RoundTrip.{client_frame, read_frame, read_frame-client_frame}
use wiznet_driver.WebSocket.Base64.{
  codes, base64_encode, encode_groups, base64_decode, encode_group, base64_char,
}
use wiznet_driver.WebSocket.Base64.{base64_decode-base64_encode}

abbrev hello : List ℕ
hello = b'h' ∷ b'i' ∷ []

abbrev mask_key : List ℕ
mask_key = 1 ∷ 2 ∷ 3 ∷ 255 ∷ []

client_frame-run :
    client_frame op_text hello mask_key ≡ 0x81 ∷ 0x82 ∷ 1 ∷ 2 ∷ 3 ∷ 255 ∷ 105 ∷ 107 ∷ []
unfolding create_frame_header base_header mask_payload mask_from
client_frame-run = refl

base64_encode-run : base64_encode hello ≡ codes "aGk="
unfolding base64_encode encode_groups encode_group base64_char
base64_encode-run = refl

read_frame-client_frame_example :
    read_frame (client_frame op_text hello mask_key) ≡ some (op_text, hello)
read_frame-client_frame_example =
    read_frame-client_frame op_text hello 1 2 3 255 (omega arith) (omega arith) (omega arith)
      (omega arith)

base64_decode-base64_encode_example : base64_decode (base64_encode hello) ≡ hello
base64_decode-base64_encode_example = base64_decode-base64_encode hello (omega arith) (omega arith)

-- The world is the clock. Everything that is sent is sent, and a text frame is always there.
abbrev talking_net : Net
talking_net = record {
  World = ℕ;
  socket = λ sn protocol port buffers f t. (sock_ok, t);
  close = λ sn t. (sock_ok, t);
  connect = λ sn addr port t. (sock_ok, t);
  disconnect = λ sn t. (sock_ok, t);
  send = λ sn buf t. (sock_ok, t + length buf);
  sendto = λ sn buf addr port t. (sock_ok, t);
  receive = λ sn len t. (0x81 ∷ 2 ∷ b'h' ∷ b'i' ∷ [], t);
  recvfrom = λ sn len t. (none, t);
  status = λ sn t. established;
  tick = λ t. t;
  delay = λ n t. t + n;
  rand = λ t. (0x01020304, t);
}

abbrev client_in : WsState → Client
client_in state = record {
  config = record {
    socket_num = 2;
    host = 10 ∷ 0 ∷ 0 ∷ 1 ∷ [];
    port = 80;
    path = b'/' ∷ [];
    buffers = record { tx_buf = none; tx_buf_len = 0; rx_buf = none; rx_buf_len = 0 };
  };
  initialized = true;
  state = state;
  close_time = 0;
  timeout_flag = false;
  disconnect_req_flag = false;
  disconnect_suc_flag = false;
}

send_frame-read_frame_example :
    ((send_frame talking_net op_text (some hello) (client_in connected) 7).1 ≡ 15)
    × (read_frame (client_frame op_text hello (generate_masking_key 0x01020304))
        ≡ some (op_text, hello))
unfolding create_frame_header generate_masking_key mask_payload mask_from base_header
send_frame-read_frame_example =
    send_frame-read_frame talking_net op_text hello (client_in connected) 7 refl refl (omega arith)
      (omega arith) (omega arith)

talking-IsReady : IsReady talking_net (client_in connected) 7
talking-IsReady = record {
  initialized = refl;
  open_socket = refl;
  no_timeout = refl;
  no_request = refl;
  no_success = refl;
  state_connected = refl;
}

ws_client_process-data_example :
    ws_client_process talking_net true 100 (client_in connected) 7
    ≡ (record { result = pos 2; opcode = some op_text; written = hello }, client_in connected, 7)
ws_client_process-data_example =
    ws_client_process-data talking_net true 100 op_text hello (client_in connected) 7 (inl refl)
      (omega arith) talking-IsReady refl

-- The same network with a PING of two bytes in place of the text, and with a CLOSE.
abbrev pinging_net : Net
pinging_net = record talking_net { receive = λ sn len t. (137 ∷ 2 ∷ b'h' ∷ b'i' ∷ [], t) }

abbrev closing_net : Net
closing_net = record talking_net { receive = λ sn len t. (136 ∷ 0 ∷ [], t) }

ws_client_process-ping_example :
    (ws_client_process pinging_net true 100 (client_in connected) 7 ≡ (
      record { result = ws_ok; opcode = some op_ping; written = [] },
      client_in connected,
      answered pinging_net true 100 hello (client_in connected) 7 op_pong hello 7,
    ))
    × (read_frame (client_frame op_pong hello (generate_masking_key 0x01020304))
        ≡ some (op_pong, hello))
ws_client_process-ping_example =
    ws_client_process-ping pinging_net true 100 hello (client_in connected) 7 (omega arith)
      (omega arith)
      record {
        initialized = refl;
        open_socket = refl;
        no_timeout = refl;
        no_request = refl;
        no_success = refl;
        state_connected = refl;
      }
      refl

ws_client_process-close_example : ws_client_process closing_net true 100 (client_in connected) 7 ≡ (
  record { result = ws_ok; opcode = some op_close; written = [] },
  client_in disconnected,
  answered closing_net true 100 [] (client_in connected) 7 op_close [] 7 + 2000,
)
ws_client_process-close_example =
    ws_client_process-close closing_net true 100 [] (client_in connected) 7 (omega arith)
      record {
        initialized = refl;
        open_socket = refl;
        no_timeout = refl;
        no_request = refl;
        no_success = refl;
        state_connected = refl;
      }
      refl
