-- ===== src/Dns/Client/Prompt.antt =====
-- A lookup that the server answers at once, and what the client does not compare.
use wiznet_driver.Base.{ℕ, zero, suc, ◌+◌, ◌*◌, ◌%◌, ◌^◌, ◌≡◌, ◌<◌, refl, ap, ◌∙◌, arith}
use wiznet_driver.Base.{true, false, not, ltb, ◌==◌, if◌then◌else◌, Option, none, some}
use wiznet_driver.Base.{List, [], ◌∷◌, ◌++◌, append_assoc, length, length-append, take, drop}
use wiznet_driver.Net.{Net, Datagram, sock_ok, udp}
use wiznet_driver.Dns.Result.{
  Result, ok, err, socket_fail, dns_port, dns_max_packet_size, dns_max_name_length,
}
use wiznet_driver.Dns.Name.{is_valid_hostname, encode_name}
use wiznet_driver.Dns.Message.{Response, build_query, parse_response, dns_type_a}
use wiznet_driver.Dns.Message.Record.{question, length-question, record_of}
use wiznet_driver.Dns.Message.Answered.{parse_response-answer}
use wiznet_driver.Dns.Client.{Client, keep_received, accept_received, same_bytes}
use wiznet_driver.Dns.Client.{wait_loop, query_loop, dns_query, resolve_loop, dns_resolve_a, sub32}

-- The server's answer with the transaction number `i1 i2` for the encoded name.
abbrev pub reply : ℕ → ℕ → List ℕ → (ttl ip : ℕ × ℕ × ℕ × ℕ) → List ℕ → List ℕ
reply i1 i2 name (t1, t2, t3, t4) (a, b, c, d) rest =
    question i1 i2 name ++ record_of t1 t2 t3 t4 a b c d rest

abbrev pub ttl_of : ℕ × ℕ × ℕ × ℕ → ℕ
ttl_of (t1, t2, t3, t4) = (t1 * 256 + t2) * 2 ^ 16 + (t3 * 256 + t4)

abbrev pub bytes_of : ℕ × ℕ × ℕ × ℕ → List ℕ
bytes_of (a, b, c, d) = a ∷ b ∷ c ∷ d ∷ []

abbrev response_of : ℕ → ℕ → ℕ × ℕ × ℕ × ℕ → ℕ × ℕ × ℕ × ℕ → Response
response_of i1 i2 ttl ip = record {
  header = record {
    id = i1 * 256 + i2;
    flags = 0x8180;
    qdcount = 1;
    ancount = 1;
    nscount = 0;
    arcount = 0;
  };
  answer = some record { ttl = ttl_of ttl; ip_addr = bytes_of ip };
  cname = none;
}

-- The client once a query has been built.
abbrev pub asked : Client → Client
asked g = record g { transaction_id = (g.transaction_id + 1) % 2 ^ 16 }

module _ (net : Net) (i1 i2 : ℕ) (other encoded : List ℕ) (ttl ip : ℕ × ℕ × ℕ × ℕ) (d : Datagram)
    (valid : is_valid_hostname other ≡ true) (enc : encode_name (some other) ≡ ok encoded)
    (bytes_eq : d.bytes ≡ reply i1 i2 encoded ttl ip []) where
  length-reply : length d.bytes ≡ length encoded + 32
  length-reply =
      ap length bytes_eq
      ∙ omega (
        arith,
        length-append (question i1 i2 encoded)
            (record_of ttl.0 ttl.1 ttl.2 ttl.3 ip.0 ip.1 ip.2 ip.3 []),
        length-question i1 i2 encoded,
      )

  parsed :
      (old : List ℕ)
      → parse_response (d.bytes ++ old) (length d.bytes) ≡ ok (response_of i1 i2 ttl ip)
  parsed old =
      let front = question i1 i2 encoded in
      let record_bytes = record_of ttl.0 ttl.1 ttl.2 ttl.3 ip.0 ip.1 ip.2 ip.3 in
      ap (λ n. parse_response (d.bytes ++ old) n) length-reply
      ∙ ap (λ l. parse_response l (length encoded + 32))
          (ap (λ l. l ++ old) bytes_eq ∙ append_assoc front (record_bytes []) old)
      ∙ parse_response-answer i1 i2 other encoded ttl.0 ttl.1 ttl.2 ttl.3 ip.0 ip.1 ip.2 ip.3 old
          valid enc

  accepted :
      (g : Client)
      → d.peer_port ≡ dns_port
      → same_bytes d.peer_ip g.config.dns_server ≡ true
      → accept_received (some d) (keep_received (some d) g) ≡ some (response_of i1 i2 ttl ip)
  accepted g port server =
      let long : ltb 0 (length d.bytes) ≡ true = ground (arith, length-reply) in
      let at : (d.peer_port == dns_port) ≡ true = ground arith in
      rw (long, at, server, parsed (drop (length d.bytes) g.response_buffer)) refl

  wait_loop-prompt :
      (fuel start : ℕ) (g : Client) (w w2 : net.World)
      → 0 < fuel
      → ltb (sub32 (net.tick w) start) g.config.timeout_ms ≡ true
      → net.recvfrom g.config.socket_num dns_max_packet_size w ≡ (some d, w2)
      → accept_received (some d) (keep_received (some d) g) ≡ some (response_of i1 i2 ttl ip)
      → wait_loop net fuel start g w
        ≡ (some (response_of i1 i2 ttl ip), keep_received (some d) g, w2)
  unfolding wait_loop
  wait_loop-prompt zero start g w w2 pos time got is = absurd (omega arith)
  wait_loop-prompt (suc fuel) start g w w2 pos time got is = rw time (ap round got ∙ rw is refl)
    where
      round : Option Datagram × net.World → Option Response × Client × net.World
      round r = elim (accept_received r.0 (keep_received r.0 g)) [
        | none ↦ wait_loop net fuel start (keep_received r.0 g) (net.delay 100 r.1)
        | some x ↦ (some x, keep_received r.0 g, r.1)
      ]

  query_loop-prompt :
      (fuel : ℕ) (query : List ℕ) (g : Client) (w w2 : net.World)
      → 0 < g.config.timeout_ms
      → let s = net.sendto g.config.socket_num query g.config.dns_server dns_port w in
        s.0 ≡ sock_ok
        → net.recvfrom g.config.socket_num dns_max_packet_size s.1 ≡ (some d, w2)
        → accept_received (some d) (keep_received (some d) g) ≡ some (response_of i1 i2 ttl ip)
        → query_loop net (suc fuel) 0 query g w
          ≡ some (ok (response_of i1 i2 ttl ip), keep_received (some d) g, w2)
  unfolding query_loop
  query_loop-prompt fuel query g w w2 some_time sent got is =
      let s = net.sendto g.config.socket_num query g.config.dns_server dns_port w in
      let none_yet : sub32 (net.tick s.1) (net.tick s.1) ≡ 0 = omega arith in
      let time : ltb (sub32 (net.tick s.1) (net.tick s.1)) g.config.timeout_ms ≡ true =
        ground (arith, none_yet) in
      let waited =
        wait_loop-prompt g.config.timeout_ms (net.tick s.1) g s.1 w2 some_time time got is in
      let first : ltb g.config.max_retries 0 ≡ false = ground arith in
      rw (first, sent) (ap ended waited)
    where
      ended : Option Response × Client × net.World → Option (Result Response × Client × net.World)
      ended r = elim r.0 [
        | some x ↦ some (ok x, r.1, r.2)
        | none ↦ query_loop net fuel 1 query r.1 r.2
      ]

  dns_query-prompt :
      (fuel : ℕ) (name query : List ℕ) (g : Client) (w : net.World)
      (out : Option (Result Response × Client × net.World))
      → g.initialized ≡ true
      → build_query g.transaction_id (some name) dns_type_a ≡ ok query
      → query_loop net fuel 0 query (asked g) w ≡ out
      → dns_query net fuel name dns_type_a g w ≡ out
  unfolding dns_query
  dns_query-prompt fuel name query g w out ready built e =
      ap
        (λ b.
          if not b
          then some (err socket_fail, g, w)
          else sent (build_query g.transaction_id (some name) dns_type_a))
        ready
      ∙ ap sent built
      ∙ e
    where
      sent : Result (List ℕ) → Option (Result Response × Client × net.World)
      sent o = elim o [
        | ok q ↦ query_loop net fuel 0 q (asked g) w
        | err x ↦ some (err x, asked g, w)
      ]

  resolve_loop-prompt :
      (fuel depth : ℕ) (name : List ℕ) (g g' : Client) (w w' : net.World)
      → dns_query net fuel name dns_type_a g w ≡ some (ok (response_of i1 i2 ttl ip), g', w')
      → resolve_loop net (suc depth) fuel name g w ≡ some (ok (bytes_of ip, ttl_of ttl), g', w')
  unfolding resolve_loop
  resolve_loop-prompt fuel depth name g g' w w' e = rw (resolve_loop, e) refl

  -- A server that answers a query at once: where the query is sent and the next datagram that comes
  -- is an answer from the server's address and port, dns_resolve_a returns the address and the time
  -- to live of that answer. It does so whatever valid name the answer is for and whatever
  -- transaction number it has: neither is compared with the query.
  pub dns_resolve_a-reply :
      (fuel : ℕ) (hostname query : List ℕ) (g : Client) (w w2 : net.World)
      → g.initialized ≡ true
      → net.status g.config.socket_num w ≡ udp
      → build_query g.transaction_id (some (take dns_max_name_length hostname)) dns_type_a
        ≡ ok query
      → 0 < g.config.timeout_ms
      → let s = net.sendto g.config.socket_num query g.config.dns_server dns_port w in
        s.0 ≡ sock_ok
        → net.recvfrom g.config.socket_num dns_max_packet_size s.1 ≡ (some d, w2)
        → d.peer_port ≡ dns_port
        → same_bytes d.peer_ip g.config.dns_server ≡ true
        → dns_resolve_a net (suc fuel) (some hostname) true g w
          ≡ some (ok (bytes_of ip, ttl_of ttl), keep_received (some d) (asked g), w2)
  unfolding dns_resolve_a
  dns_resolve_a-reply fuel hostname query g w w2 ready is_open built some_time sent got port
        server =
      let name = take dns_max_name_length hostname in
      rw (dns_resolve_a, is_open)
        (resolve_loop-prompt (suc fuel) 4 name g (keep_received (some d) (asked g)) w w2 (
          dns_query-prompt (suc fuel) name query g w _ ready built (
            query_loop-prompt fuel query (asked g) w w2 some_time sent got
              (accepted (asked g) port server))))
