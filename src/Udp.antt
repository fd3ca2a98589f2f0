-- ===== src/Udp.antt =====
-- Src/udp_client.c: the UDP sender, over the socket interface.
pub mod Text
pub mod Queued
mod Examples
use wiznet_driver.Base.{ℕ, Bool, true, false, not, ◌==◌, ◌||◌, leb, if◌then◌else◌, List}
use wiznet_driver.Base.{Option, none, some, take, length}
use wiznet_driver.Memory.{Pointer}
use wiznet_driver.Net.{Net, Buffers, SockResult, SocketStatus, udp, is_sock_ok, protocol_udp}

-- `UDP_OK` and the error codes.
pub data UdpResult : Type 0 where
  udp_ok udp_error_invalid_param udp_error_socket_fail : UdpResult
  udp_error_not_initialized udp_error_send_fail : UdpResult

-- `udp_client_config_t`
pub record Config : Type 0 where
  pub socket_num : ℕ
  pub source_port : ℕ
  pub dest_ip : List ℕ
  pub dest_port : ℕ
  pub buffers : Buffers

-- The globals of the file.
pub record Client : Type 0 where
  pub config : Config
  pub initialized : Bool

abbrev pub is_null : Option Pointer → Bool
is_null none = true
is_null (some p) = false

abbrev pub is_udp : SocketStatus → Bool
is_udp udp = true
is_udp _ = false

-- `tx_buf == NULL || rx_buf == NULL || tx_buf_len == 0 || rx_buf_len == 0`
abbrev pub bad_buffers : Buffers → Bool
bad_buffers b = is_null b.tx_buf || is_null b.rx_buf || b.tx_buf_len == 0 || b.rx_buf_len == 0

module _ (net : Net) where
  open net use {World, socket, close, sendto, status}

  -- The call of `socket` in two functions of the file.
  abbrev pub open_socket : Config → World → SockResult × World
  open_socket c w = socket c.socket_num protocol_udp c.source_port c.buffers none w

  -- A null `config` is `none`.
  unfoldable pub udp_client_init : Option Config → Client → World → UdpResult × Client × World
  udp_client_init none g w = (udp_error_invalid_param, g, w)
  udp_client_init (some config) g w =
      let (result, w') = open_socket config w in
      if leb 8 config.socket_num
      then (udp_error_invalid_param, g, w)
      else if bad_buffers config.buffers
      then (udp_error_invalid_param, g, w)
      else if not (is_sock_ok result)
      then (udp_error_socket_fail, record g { config = config }, w')
      else (udp_ok, record { config = config; initialized = true }, w')

  -- The last part of `udp_client_send`.
  abbrev pub send_datagram : Client → List ℕ → World → UdpResult × World
  send_datagram g bytes w =
      let (result, w') = sendto g.config.socket_num bytes g.config.dest_ip g.config.dest_port w in
      (if is_sock_ok result then udp_ok else udp_error_send_fail, w')

  -- A null pointer is `none`; otherwise the list holds the `len` bytes.
  unfoldable pub udp_client_send : Option (List ℕ) → Client → World → UdpResult × World
  udp_client_send none g w =
      (if g.initialized then udp_error_invalid_param else udp_error_not_initialized, w)
  udp_client_send (some bytes) g w =
      let (result, w') = open_socket g.config w in
      if not g.initialized
      then (udp_error_not_initialized, w)
      else if length bytes == 0
      then (udp_error_invalid_param, w)
      else if is_udp (status g.config.socket_num w)
      then send_datagram g bytes w
      else if is_sock_ok result
      then send_datagram g bytes w'
      else (udp_error_socket_fail, w')

  unfoldable pub udp_client_close : Client → World → UdpResult × Client × World
  udp_client_close g w =
      let (result, w') = close g.config.socket_num w in
      if not g.initialized
      then (udp_error_not_initialized, g, w)
      else if is_sock_ok result
      then (udp_ok, record g { initialized = false }, w')
      else (udp_error_socket_fail, g, w')

unfoldable pub udp_client_set_dest_ip : List ℕ → Client → UdpResult × Client
udp_client_set_dest_ip ip g =
    (udp_ok, record g { config = record g.config { dest_ip = take 4 ip } })
