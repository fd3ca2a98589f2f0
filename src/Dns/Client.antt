-- ===== src/Dns/Client.antt =====
-- Src/dns_client.c: the client's state, _dns_query and the public functions.
pub mod Retry
pub mod Answered
pub mod Concluded
pub mod Resolved
pub mod Prompt
mod Examples
mod Lookups
use wiznet_driver.Base.{
  ℕ, zero, suc, ◌+◌, ◌-◌, ◌%◌, ◌^◌, Bool, true, false, not, ◌&&◌, ltb, leb, ◌==◌,
}
use wiznet_driver.Base.{if◌then◌else◌, Option, none, some, List, [], ◌∷◌, ◌++◌, take, drop, length}
use wiznet_driver.Net.{Net, Buffers, SockResult, SocketStatus, Datagram, is_sock_ok, protocol_udp}
use wiznet_driver.Net.{udp}
use wiznet_driver.Dns.Result.{Result, ok, err, Error, invalid_param, socket_fail, timeout, network}
use wiznet_driver.Dns.Result.{name_not_found, dns_max_packet_size, dns_max_name_length, dns_port}
use wiznet_driver.Dns.Message.{Response, ARecord, CnameRecord, build_query, parse_response}
use wiznet_driver.Dns.Message.{dns_type_a}

-- `dns_config_t`
pub record Config : Type 0 where
  pub dns_server : List ℕ
  pub timeout_ms : ℕ
  pub max_retries : ℕ
  pub socket_num : ℕ
  pub buffers : Buffers

-- The globals of the file that outlive a call.
pub record Client : Type 0 where
  pub config : Config
  pub initialized : Bool
  pub transaction_id : ℕ
  pub source_port : ℕ
  pub response_buffer : List ℕ

abbrev pub sub32 : ℕ → ℕ → ℕ
sub32 a b = (a + 2 ^ 32 - b % 2 ^ 32) % 2 ^ 32

-- `memcmp` of two addresses of four bytes.
abbrev pub same_bytes : List ℕ → List ℕ → Bool
same_bytes [] [] = true
same_bytes (x ∷ xs) (y ∷ ys) = x == y && same_bytes xs ys
same_bytes _ _ = false

-- The datagram that was received, if it is from the server and parses.
abbrev pub accept : Config → List ℕ → Datagram → Option Response
accept config buffer d =
    if ltb 0 (length d.bytes) && d.peer_port == dns_port && same_bytes d.peer_ip config.dns_server
    then elim (parse_response buffer (length d.bytes)) [ ok r ↦ some r | err e ↦ none ]
    else none

-- The response buffer keeps what it held behind the received bytes.
abbrev pub keep_received : Option Datagram → Client → Client
keep_received none g = g
keep_received (some d) g = record g {
  response_buffer = d.bytes ++ drop (length d.bytes) g.response_buffer;
}

abbrev pub accept_received : Option Datagram → Client → Option Response
accept_received none g = none
accept_received (some d) g = accept g.config g.response_buffer d

module _ (net : Net) where
  open net use {World, socket, close, sendto, recvfrom, status, tick, delay}

  -- `socket` as dns_init and dns_resolve_a call it.
  abbrev pub open_socket : Client → World → SockResult × World
  open_socket g w = socket g.config.socket_num protocol_udp g.source_port g.config.buffers none w

  unfoldable pub dns_init : Option Config → Client → World → Result (Unit {0}) × Client × World
  dns_init none g w = (err invalid_param, g, w)
  dns_init (some config) g w =
      let g1 = record g { config = config } in
      let g2 = record g1 { source_port = 50000 + tick w % 10000 } in
      let (result, w') = open_socket g2 w in
      if leb 8 config.socket_num
      then (err invalid_param, g1, w)
      else if is_sock_ok result
      then (ok tt, record g2 { initialized = true }, w')
      else (err socket_fail, g2, w')

  -- The wait for a response. A round takes a tick at least, so that `timeout_ms` rounds are enough.
  unfoldable pub wait_loop : ℕ → ℕ → Client → World → Option Response × Client × World
  wait_loop zero start g w = (none, g, w)
  wait_loop (suc fuel) start g w =
      let (received, w1) = recvfrom g.config.socket_num dns_max_packet_size w in
      let g1 = keep_received received g in
      let rest = wait_loop fuel start g1 (delay 100 w1) in
      if ltb (sub32 (tick w) start) g.config.timeout_ms
      then elim (accept_received received g1) [ none ↦ rest | some r ↦ (some r, g1, w1) ]
      else (none, g, w)

  -- The attempts, from number `retry` on, which is an 8-bit counter. `none` means that the loop has
  -- not ended after `fuel` attempts.
  unfoldable pub query_loop :
      ℕ → ℕ → List ℕ → Client → World → Option (Result Response × Client × World)
  unfolding wait_loop
  query_loop zero retry query g w = none
  query_loop (suc fuel) retry query g w =
      let (sent, w1) = sendto g.config.socket_num query g.config.dns_server dns_port w in
      let (found, g2, w2) = wait_loop g.config.timeout_ms (tick w1) g w1 in
      let unsent = query_loop fuel ((retry + 1) % 2 ^ 8) query g w1 in
      let unanswered = query_loop fuel ((retry + 1) % 2 ^ 8) query g2 w2 in
      if ltb g.config.max_retries retry
      then some (err timeout, g, w)
      else if not (is_sock_ok sent)
      then if retry == g.config.max_retries then some (err network, g, w1) else unsent
      else elim found [ some r ↦ some (ok r, g2, w2) | none ↦ unanswered ]

  -- The transaction number is taken before the name is checked.
  unfoldable pub dns_query :
      ℕ → List ℕ → ℕ → Client → World → Option (Result Response × Client × World)
  unfolding build_query query_loop
  dns_query fuel hostname qtype g w =
      let g1 = record g { transaction_id = (g.transaction_id + 1) % 2 ^ 16 } in
      if not g.initialized
      then some (err socket_fail, g, w)
      else elim (build_query g.transaction_id (some hostname) qtype) [
        | ok query ↦ query_loop fuel 0 query g1 w
        | err e ↦ some (err e, g1, w)
      ]

  -- The CNAME chain: `depth` names may still be asked for.
  unfoldable pub resolve_loop :
      ℕ → ℕ → List ℕ → Client → World → Option (Result (List ℕ × ℕ) × Client × World)
  unfolding dns_query
  resolve_loop zero fuel name g w = some (err name_not_found, g, w)
  resolve_loop (suc depth) fuel name g w = elim (dns_query fuel name dns_type_a g w) [
    | none ↦ none
    | some (err e, g1, w1) ↦ some (err e, g1, w1)
    | some (ok r, g1, w1) ↦ elim r.answer [
      | some a ↦ some (ok (a.ip_addr, a.ttl), g1, w1)
      | none ↦ elim r.cname [
        | none ↦ some (err name_not_found, g1, w1)
        | some c ↦
            if length c.cname == 0
            then some (err name_not_found, g1, w1)
            else resolve_loop depth fuel (take dns_max_name_length c.cname) g1 w1
      ]
    ]
  ]

  -- The address and its time to live. A null host name or result pointer is `none` or `false`.
  unfoldable pub dns_resolve_a :
      ℕ → Option (List ℕ) → Bool → Client → World → Option (Result (List ℕ × ℕ) × Client × World)
  unfolding resolve_loop
  dns_resolve_a fuel none wants g w = some (err invalid_param, g, w)
  dns_resolve_a fuel (some hostname) false g w = some (err invalid_param, g, w)
  dns_resolve_a fuel (some hostname) true g w =
      let (result, w1) = open_socket g w in
      let name = take dns_max_name_length hostname in
      elim (status g.config.socket_num w) [
        | udp ↦ resolve_loop 5 fuel name g w
        | _ ↦
            if is_sock_ok result
            then resolve_loop 5 fuel name g w1
            else some (err socket_fail, g, w1)
      ]

  unfoldable pub dns_close : Client → World → Result (Unit {0}) × Client × World
  dns_close g w =
      if g.initialized
      then (ok tt, record g { initialized = false }, (close g.config.socket_num w).1)
      else (ok tt, g, w)

-- The setters; a null address is `none`.
unfoldable pub dns_set_server : Option (List ℕ) → Client → Result (Unit {0}) × Client
dns_set_server none g = (err invalid_param, g)
dns_set_server (some server) g =
    (ok tt, record g { config = record g.config { dns_server = take 4 server } })

unfoldable pub dns_set_timeout : ℕ → Client → Result (Unit {0}) × Client
dns_set_timeout timeout_ms g =
    if timeout_ms == 0
    then (err invalid_param, g)
    else (ok tt, record g { config = record g.config { timeout_ms = timeout_ms } })

unfoldable pub dns_set_max_retries : ℕ → Client → Result (Unit {0}) × Client
dns_set_max_retries max_retries g =
    (ok tt, record g { config = record g.config { max_retries = max_retries } })

-- The getters. A null pointer to the result is `false`, with nothing written.
unfoldable pub dns_get_server : Bool → Client → Result (List ℕ)
dns_get_server wants g = if wants then ok (take 4 g.config.dns_server) else err invalid_param

abbrev pub dns_get_timeout : Client → ℕ
dns_get_timeout g = g.config.timeout_ms

abbrev pub dns_get_max_retries : Client → ℕ
dns_get_max_retries g = g.config.max_retries
