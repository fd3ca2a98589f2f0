-- ===== src/WebSocket/Client.antt =====
-- Src/websocket_client.c: the client's state and its functions; ws_client_connect stands in
-- Client/Connect, and ws_client_process in Client/Process. A result is the C function's number: a
-- length or an error code.
pub mod Sent
pub mod Queued
pub mod Process
pub mod Frames
pub mod Control
pub mod Connect
pub mod Opened
pub mod Waited
mod Examples
mod QueuedExamples
use wiznet_driver.Base.{
  ℕ, zero, suc, ◌+◌, ◌-◌, ◌%◌, ◌^◌, bit_and, Bool, true, false, not, ◌||◌, ◌&&◌, ltb, leb, ◌==◌,
}
use wiznet_driver.Base.{
  if◌then◌else◌, Option, none, some, List, [], ◌∷◌, ◌++◌, length, take, drop, get_or,
}
use wiznet_driver.Base.Int.{ℤ, pos, negsuc, int16}
use wiznet_driver.Memory.{Pointer}
use wiznet_driver.Net.{
  Net, Buffers, SockResult, SocketStatus, is_sock_ok, established, CallbackType,
}
use wiznet_driver.Net.{discon_req, discon_suc, recv, timeout}
use wiznet_driver.WebSocket.Frame.{
  op_text, op_binary, op_close, op_ping, op_pong, Header, parse_header,
}
use wiznet_driver.WebSocket.Frame.{create_frame_header, mask_payload, generate_masking_key}

abbrev pub ws_ok : ℤ
ws_ok = pos 0

abbrev pub ws_err_invalid_param : ℤ
ws_err_invalid_param = negsuc 0

abbrev pub ws_err_not_initialized : ℤ
ws_err_not_initialized = negsuc 1

abbrev pub ws_err_wrong_state : ℤ
ws_err_wrong_state = negsuc 2

abbrev pub ws_err_socket_fail : ℤ
ws_err_socket_fail = negsuc 3

abbrev pub ws_err_timeout : ℤ
ws_err_timeout = negsuc 6

abbrev pub ws_err_buffer_too_small : ℤ
ws_err_buffer_too_small = negsuc 7

abbrev pub ws_err_disconnected : ℤ
ws_err_disconnected = negsuc 8

abbrev pub ws_err_invalid_frame : ℤ
ws_err_invalid_frame = negsuc 9

-- `ws_state_t`
pub data WsState : Type 0 where
  disconnected connected closing : WsState

abbrev pub is_connected : WsState → Bool
is_connected connected = true
is_connected _ = false

abbrev pub is_closing : WsState → Bool
is_closing closing = true
is_closing _ = false

abbrev pub is_established : SocketStatus → Bool
is_established established = true
is_established _ = false

-- `ws_config_t`; the path is a C string.
pub record Config : Type 0 where
  pub socket_num : ℕ
  pub host : List ℕ
  pub port : ℕ
  pub path : List ℕ
  pub buffers : Buffers

-- The globals of the file.
pub record Client : Type 0 where
  pub config : Config
  pub initialized : Bool
  pub state : WsState
  pub close_time : ℕ
  pub timeout_flag : Bool
  pub disconnect_req_flag : Bool
  pub disconnect_suc_flag : Bool

abbrev pub is_null : Option Pointer → Bool
is_null none = true
is_null (some p) = false

unfoldable pub ws_client_init : Option Config → Client → ℤ × Client
ws_client_init none g = (ws_err_invalid_param, g)
ws_client_init (some config) g =
    let b = config.buffers in
    if leb 8 config.socket_num
      || is_null b.tx_buf
      || is_null b.rx_buf
      || b.tx_buf_len == 0
      || b.rx_buf_len == 0
    then (ws_err_invalid_param, g)
    else (
      ws_ok,
      record g {
        config = config;
        initialized = true;
        state = disconnected;
        timeout_flag = false;
        disconnect_req_flag = false;
        disconnect_suc_flag = false;
      },
    )

-- The callback of the socket, in interrupt context.
unfoldable pub ws_socket_callback : CallbackType → Client → Client
ws_socket_callback timeout g = record g { timeout_flag = true }
ws_socket_callback discon_req g = record g { disconnect_req_flag = true }
ws_socket_callback discon_suc g = record g { disconnect_suc_flag = true }
ws_socket_callback recv g = g

module _ (net : Net) where
  open net use {World, send, tick, rand}

  -- A header with a new masking key, and the payload masked with it. The length is handed over in
  -- 16 bits, so that a frame of 2^16 bytes or more is cut off.
  unfoldable pub send_masked : ℕ → List ℕ → Client → World → SockResult × World
  unfolding create_frame_header mask_payload generate_masking_key
  send_masked op payload g w =
      let (rand_val, w1) = rand w in
      let key = generate_masking_key rand_val in
      let frame =
        create_frame_header op (length payload) true (some key) ++ mask_payload payload key in
      send g.config.socket_num (take (length frame % 2 ^ 16) frame) w1

  -- ws_client_send_binary and ws_client_send_text, which differ in the opcode. The buffer has room
  -- for the header before the payload; its length is that of a header, which is never above 14.
  unfoldable pub send_frame : ℕ → Option (List ℕ) → Client → World → ℤ × World
  unfolding send_masked
  send_frame op none g w =
      (if g.initialized then ws_err_invalid_param else ws_err_not_initialized, w)
  send_frame op (some payload) g w =
      let header_len = (if leb 126 (length payload) then 4 else 2) + 4 in
      let (sent, w1) = send_masked op payload g w in
      if not g.initialized
      then (ws_err_not_initialized, w)
      else if not (is_connected g.state)
      then (ws_err_wrong_state, w)
      else (
        if is_sock_ok sent
            then int16 (pos ((header_len + length payload) % 2 ^ 16))
            else ws_err_socket_fail,
        w1,
      )

  unfoldable pub ws_client_send_binary : Option (List ℕ) → Client → World → ℤ × World
  unfolding send_frame
  ws_client_send_binary = send_frame op_binary

  unfoldable pub ws_client_send_text : Option (List ℕ) → Client → World → ℤ × World
  unfolding send_frame
  ws_client_send_text = send_frame op_text

  unfoldable pub ws_client_ping : Client → World → ℤ × World
  unfolding send_masked
  ws_client_ping g w =
      let (sent, w1) = send_masked op_ping [] g w in
      if not g.initialized
      then (ws_err_not_initialized, w)
      else if not (is_connected g.state)
      then (ws_err_wrong_state, w)
      else (if is_sock_ok sent then ws_ok else ws_err_socket_fail, w1)

  unfoldable pub ws_client_close : Client → World → ℤ × Client × World
  unfolding send_masked
  ws_client_close g w =
      let w1 = (send_masked op_close [] g w).1 in
      if not g.initialized
      then (ws_err_not_initialized, g, w)
      else if is_connected g.state
      then (ws_ok, record g { state = closing; close_time = tick w1 }, w1)
      else (ws_ok, g, w)
