-- ===== src/WebSocket/Client/Process.antt =====
-- Src/websocket_client.c: ws_client_process and ws_process_internal.
use wiznet_driver.Base.{ℕ, ◌+◌, ◌-◌, ◌%◌, ◌^◌, bit_and, Bool, false, not, ◌||◌, ◌&&◌, ltb, ◌==◌}
use wiznet_driver.Base.{if◌then◌else◌, Option, none, some, List, [], length, take, drop, get_or}
use wiznet_driver.Base.Int.{ℤ, pos, int16}
use wiznet_driver.Net.{Net}
use wiznet_driver.WebSocket.Frame.{
  op_text, op_binary, op_close, op_ping, op_pong, Header, parse_header,
}
use wiznet_driver.WebSocket.Frame.{mask_payload}
use wiznet_driver.WebSocket.Client.{
  ws_ok, ws_err_not_initialized, ws_err_wrong_state, ws_err_timeout,
}
use wiznet_driver.WebSocket.Client.{
  ws_err_buffer_too_small, ws_err_disconnected, ws_err_invalid_frame, disconnected,
}
use wiznet_driver.WebSocket.Client.{is_connected, is_closing, is_established, Client}
use wiznet_driver.WebSocket.Client.{send_masked}

-- What ws_client_process gives back: its result, the opcode and the bytes that it wrote.
pub record Processed : Type 0 where
  pub result : ℤ
  pub opcode : Option ℕ
  pub written : List ℕ

module _ (net : Net) where
  open net use {World, close, disconnect, receive, status, tick, delay}

  -- The switch of ws_process_internal over the opcode of a frame that was received whole. A null
  -- `buffer` is `false`.
  unfoldable pub handle_frame :
      Bool → ℕ → List ℕ → Header → Client → World → Processed × Client × World
  unfolding send_masked
  handle_frame buffer len rx h g w =
      let payload = take h.payload_len (drop h.pos rx) in
      let unmasked = if h.mask then mask_payload payload h.key else payload in
      let w1 = (send_masked net op_pong payload g w).1 in
      let w2 = (send_masked net op_close [] g w).1 in
      let reply : ℤ → List ℕ → Processed =
        λ result written. record { result = result; opcode = some h.opcode; written = written } in
      if h.opcode == op_text || h.opcode == op_binary
      then if not buffer
        then (reply ws_ok [], g, w)
        else if ltb len h.payload_len
        then (reply ws_err_buffer_too_small [], g, w)
        else (reply (int16 (pos h.payload_len)) unmasked, g, w)
      else if h.opcode == op_ping
      then (reply ws_ok [], g, w1)
      else if h.opcode == op_close && is_connected g.state
      then (
        reply ws_ok [],
        record g { state = disconnected },
        (disconnect g.config.socket_num (delay 2000 w2)).1,
      )
      else if h.opcode == op_close && is_closing g.state
      then (reply ws_ok [], record g { state = disconnected }, (disconnect g.config.socket_num w).1)
      else (reply ws_ok [], g, w)

  -- The opcode is written before the rest of the header is checked.
  unfoldable pub process_parsed :
      Bool → ℕ → List ℕ → Option Header → Client → World → Processed × Client × World
  unfolding handle_frame
  process_parsed buffer len rx none g w =
      let opcode = bit_and (get_or rx 0 0) 0x0F in
      (record { result = ws_err_invalid_frame; opcode = some opcode; written = [] }, g, w)
  process_parsed buffer len rx (some h) g w = handle_frame buffer len rx h g w

  unfoldable pub ws_process_internal : Bool → ℕ → Client → World → Processed × Client × World
  unfolding process_parsed parse_header
  ws_process_internal buffer len g w =
      let (rx, w1) = receive g.config.socket_num 2048 w in
      if length rx == 0
      then (record { result = ws_ok; opcode = none; written = [] }, g, w1)
      else if ltb (length rx) 2
      then (record { result = ws_err_invalid_frame; opcode = none; written = [] }, g, w1)
      else process_parsed buffer len rx (parse_header rx) g w1

  abbrev ends : ℤ → Client → World → Processed × Client × World
  ends result g w = (record { result = result; opcode = none; written = [] }, g, w)

  unfoldable pub ws_client_process : Bool → ℕ → Client → World → Processed × Client × World
  unfolding ws_process_internal
  ws_client_process buffer len g w =
      let closed = (close g.config.socket_num w).1 in
      let processed = ws_process_internal buffer len g w in
      let waited = (tick w + 2 ^ 32 - g.close_time % 2 ^ 32) % 2 ^ 32 in
      if not g.initialized
      then ends ws_err_not_initialized g w
      else if not (is_established (status g.config.socket_num w))
      then ends ws_err_disconnected (record g { state = disconnected }) w
      else if g.timeout_flag
      then ends ws_err_timeout (record g { timeout_flag = false; state = disconnected }) closed
      else if g.disconnect_req_flag
      then ends ws_err_disconnected (record g { disconnect_req_flag = false; state = disconnected })
          (disconnect g.config.socket_num w).1
      else if g.disconnect_suc_flag
      then ends ws_err_disconnected (record g { disconnect_suc_flag = false; state = disconnected })
          closed
      else if is_closing g.state
      then if ltb 5000 waited
        then ends ws_err_disconnected (record g { state = disconnected }) closed
        else ends ws_ok g w
      else if not (is_connected g.state)
      then ends ws_err_wrong_state g w
      else processed
