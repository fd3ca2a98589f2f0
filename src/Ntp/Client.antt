-- ===== src/Ntp/Client.antt =====
-- Src/ntp_client.c: the client's state, the exchange with the server and the public functions.
pub mod Answered
pub mod Concluded
mod Waited
mod Examples
use wiznet_driver.Base.{
  ℕ, zero, suc, ◌+◌, ◌-◌, ◌%◌, ◌^◌, Bool, true, false, not, ◌&&◌, ltb, leb, ◌==◌,
}
use wiznet_driver.Base.{if◌then◌else◌, Option, none, some, List, [], ◌∷◌, ◌++◌, take, drop, length}
use wiznet_driver.Net.{Net, Buffers, SockResult, Datagram, is_sock_ok, protocol_udp}
use wiznet_driver.Net.{udp}
use wiznet_driver.Ntp.Packet.{Result, ok, err, invalid_param, socket_fail, timeout, network}
use wiznet_driver.Ntp.Packet.{Response, build_request, parse_response, ntp_to_unix_timestamp}
use wiznet_driver.Ntp.Packet.{ntp_packet_size}

abbrev pub ntp_port : ℕ
ntp_port = 123

-- `ntp_config_t`
pub record Config : Type 0 where
  pub ntp_server : List ℕ
  pub timeout_ms : ℕ
  pub max_retries : ℕ
  pub socket_num : ℕ
  pub version : ℕ
  pub buffers : Buffers

-- The globals of the file that outlive a call.
pub record Client : Type 0 where
  pub config : Config
  pub initialized : Bool
  pub source_port : ℕ
  pub response_buffer : List ℕ

abbrev pub sub32 : ℕ → ℕ → ℕ
sub32 a b = (a + 2 ^ 32 - b % 2 ^ 32) % 2 ^ 32

abbrev pub same_bytes : List ℕ → List ℕ → Bool
same_bytes [] [] = true
same_bytes (x ∷ xs) (y ∷ ys) = x == y && same_bytes xs ys
same_bytes _ _ = false

-- The defaults of `ntp_init`.
abbrev pub with_defaults : Config → Config
with_defaults c = record c {
  timeout_ms = if c.timeout_ms == 0 then 5000 else c.timeout_ms;
  max_retries = if c.max_retries == 0 then 3 else c.max_retries;
  version = if c.version == 0 then 4 else c.version;
}

abbrev pub keep_received : Option Datagram → Client → Client
keep_received none g = g
keep_received (some d) g = record g {
  response_buffer = d.bytes ++ drop (length d.bytes) g.response_buffer;
}

-- A datagram from the server, parsed as a packet of full size, whatever its length.
abbrev pub accept_received : Option Datagram → Client → Option Response
accept_received none g = none
accept_received (some d) g =
    if ltb 0 (length d.bytes) && d.peer_port == ntp_port && same_bytes d.peer_ip g.config.ntp_server
    then elim (parse_response g.response_buffer ntp_packet_size) [ ok r ↦ some r | err e ↦ none ]
    else none

module _ (net : Net) where
  open net use {World, socket, close, sendto, recvfrom, status, tick, delay}

  abbrev pub open_socket : Client → World → SockResult × World
  open_socket g w = socket g.config.socket_num protocol_udp g.source_port g.config.buffers none w

  unfoldable pub ntp_init : Option Config → Client → World → Result (Unit {0}) × Client × World
  ntp_init none g w = (err invalid_param, g, w)
  ntp_init (some config) g w =
      let g1 = record g { config = with_defaults config; source_port = 40000 + tick w % 10000 } in
      let (result, w') = open_socket g1 w in
      if leb 8 config.socket_num
      then (err invalid_param, record g { config = config }, w)
      else if is_sock_ok result
      then (ok tt, record g1 { initialized = true }, w')
      else (err socket_fail, g1, w')

  unfoldable pub send_request : Client → World → Result (Unit {0}) × World
  unfolding build_request
  send_request g w =
      let (sent, w') =
        sendto g.config.socket_num (build_request g.config.version (tick w)) g.config.ntp_server
          ntp_port w in
      (if is_sock_ok sent then ok tt else err network, w')

  -- The wait of _ntp_receive_response. A round takes a tick at least, so that `timeout_ms` rounds
  -- are enough.
  unfoldable pub wait_loop : ℕ → ℕ → Client → World → Option Response × Client × World
  unfolding parse_response
  wait_loop zero start g w = (none, g, w)
  wait_loop (suc fuel) start g w =
      let (received, w1) = recvfrom g.config.socket_num ntp_packet_size w in
      let g1 = keep_received received g in
      let rest = wait_loop fuel start g1 (delay 100 w1) in
      if ltb (sub32 (tick w) start) g.config.timeout_ms
      then elim (accept_received received g1) [ none ↦ rest | some r ↦ (some r, g1, w1) ]
      else (none, g, w)

  -- The attempts of `ntp_get_response`, from number `retry` on, which is an 8-bit counter. `none`
  -- means that the loop has not ended after `fuel` attempts.
  unfoldable pub response_loop : ℕ → ℕ → Client → World → Option (Result Response × Client × World)
  unfolding send_request wait_loop
  response_loop zero retry g w = none
  response_loop (suc fuel) retry g w =
      let (sent, w1) = send_request g w in
      let (found, g2, w2) = wait_loop g.config.timeout_ms (tick w1) g w1 in
      let w3 = if ltb retry g.config.max_retries then delay 100 w2 else w2 in
      let unsent = response_loop fuel ((retry + 1) % 2 ^ 8) g w1 in
      let unanswered = response_loop fuel ((retry + 1) % 2 ^ 8) g2 w3 in
      if ltb g.config.max_retries retry then some (err timeout, g, w) else elim sent [
        | err e ↦ if retry == g.config.max_retries then some (err e, g, w1) else unsent
        | ok _ ↦ elim found [ some r ↦ some (ok r, g2, w2) | none ↦ unanswered ]
      ]

  -- The socket is opened again if it is not open.
  abbrev pub reopen : Client → World → SockResult × World
  reopen g w = elim (status g.config.socket_num w) [
    | udp ↦ (SockResult.sock_ok, w)
    | _ ↦ open_socket g w
  ]

  -- `wants` says that the result pointer is not null.
  unfoldable pub ntp_get_response :
      ℕ → Bool → Client → World → Option (Result Response × Client × World)
  unfolding response_loop
  ntp_get_response fuel wants g w =
      let (result, w1) = reopen g w in
      if not g.initialized
      then some (err socket_fail, g, w)
      else if not wants
      then some (err invalid_param, g, w)
      else if is_sock_ok result
      then response_loop fuel 0 g w1
      else some (err socket_fail, g, w1)

  unfoldable pub ntp_get_time : ℕ → Bool → Client → World → Option (Result ℕ × Client × World)
  unfolding ntp_get_response ntp_to_unix_timestamp
  ntp_get_time fuel wants g w =
      let (result, w1) = reopen g w in
      if not g.initialized
      then some (err socket_fail, g, w)
      else if not wants
      then some (err invalid_param, g, w)
      else if not (is_sock_ok result)
      then some (err socket_fail, g, w1)
      else elim (ntp_get_response fuel true g w1) [
        | none ↦ none
        | some (err e, g2, w2) ↦ some (err e, g2, w2)
        | some (ok r, g2, w2) ↦ some (ok (ntp_to_unix_timestamp (some r.transmit_time)), g2, w2)
      ]

  unfoldable pub ntp_close : Client → World → Result (Unit {0}) × World
  ntp_close g w =
      let (result, w') = close g.config.socket_num w in
      (if is_sock_ok result then ok tt else err socket_fail, w')

unfoldable pub ntp_set_server : Option (List ℕ) → Client → Result (Unit {0}) × Client
ntp_set_server none g = (err invalid_param, g)
ntp_set_server (some server) g =
    (ok tt, record g { config = record g.config { ntp_server = take 4 server } })

unfoldable pub ntp_set_timeout : ℕ → Client → Result (Unit {0}) × Client
ntp_set_timeout timeout_ms g =
    if timeout_ms == 0
    then (err invalid_param, g)
    else (ok tt, record g { config = record g.config { timeout_ms = timeout_ms } })

unfoldable pub ntp_set_max_retries : ℕ → Client → Result (Unit {0}) × Client
ntp_set_max_retries max_retries g =
    (ok tt, record g { config = record g.config { max_retries = max_retries } })

-- The getters. A null pointer to the result is `false`, with nothing written.
unfoldable pub ntp_get_server : Bool → Client → Result (List ℕ)
ntp_get_server wants g = if wants then ok (take 4 g.config.ntp_server) else err invalid_param

abbrev pub ntp_get_timeout : Client → ℕ
ntp_get_timeout g = g.config.timeout_ms

abbrev pub ntp_get_max_retries : Client → ℕ
ntp_get_max_retries g = g.config.max_retries
