-- ===== src/Dns/Client/Lookups.antt =====
-- Lookups on a network whose server answers every query with the address of another name.
use wiznet_driver.Base.{ℕ, ◌+◌, ◌≡◌, refl, arith, true, none, some, List, [], ◌∷◌}
use wiznet_driver.Net.{Net, Datagram, sock_ok, udp}
use wiznet_driver.Dns.Result.{ok}
use wiznet_driver.Dns.Name.{is_valid_hostname, valid_from, encode_name, encode_from}
use wiznet_driver.Dns.Message.{build_query}
use wiznet_driver.Dns.Client.{Client, dns_resolve_a, keep_received}
use wiznet_driver.Dns.Client.Prompt.{reply, bytes_of, ttl_of, asked, dns_resolve_a-reply}
use wiznet_driver.Dns.Client.Resolved.{IsResolved, dns_resolve_a-IsResolved}

-- "b", and its wire form
abbrev other : List ℕ
other = b'b' ∷ []

abbrev other_bytes : List ℕ
other_bytes = 1 ∷ b'b' ∷ 0 ∷ []

abbrev answer : Datagram
answer = record {
  bytes = reply 0x12 0x34 other_bytes (0, 0, 0, 60) (93, 184, 216, 34) [];
  peer_ip = 8 ∷ 8 ∷ 8 ∷ 8 ∷ [];
  peer_port = 53;
}

abbrev answering_net : Net
answering_net = record {
  World = ℕ;
  socket = λ sn protocol port buffers f t. (sock_ok, t);
  close = λ sn t. (sock_ok, t);
  connect = λ sn addr port t. (sock_ok, t);
  disconnect = λ sn t. (sock_ok, t);
  send = λ sn buf t. (sock_ok, t);
  sendto = λ sn buf addr port t. (sock_ok, t);
  receive = λ sn len t. ([], t);
  recvfrom = λ sn len t. (some answer, t + 1);
  status = λ sn t. udp;
  tick = λ t. t;
  delay = λ n t. t + n;
  rand = λ t. (4, t);
}

abbrev client : Client
client = record {
  config = record {
    dns_server = 8 ∷ 8 ∷ 8 ∷ 8 ∷ [];
    timeout_ms = 2;
    max_retries = 1;
    socket_num = 1;
    buffers = record { tx_buf = none; tx_buf_len = 0; rx_buf = none; rx_buf_len = 0 };
  };
  initialized = true;
  transaction_id = 1;
  source_port = 50000;
  response_buffer = [];
}

other-valid : is_valid_hostname other ≡ true
unfolding is_valid_hostname valid_from
other-valid = refl

other-encoded : encode_name (some other) ≡ ok other_bytes
unfolding encode_name is_valid_hostname valid_from encode_from
other-encoded = refl

-- "a"
abbrev asked_name : List ℕ
asked_name = b'a' ∷ []

abbrev query : List ℕ
query = 0 ∷ 1 ∷ 1 ∷ 0 ∷ 0 ∷ 1 ∷ 0 ∷ 0 ∷ 0 ∷ 0 ∷ 0 ∷ 0 ∷ 1 ∷ b'a' ∷ 0 ∷ 0 ∷ 1 ∷ 0 ∷ 1 ∷ []

query-built : build_query 1 (some asked_name) 1 ≡ ok query
unfolding build_query encode_name is_valid_hostname valid_from encode_from
query-built = refl

dns_resolve_a-reply_example :
    dns_resolve_a answering_net 3 (some asked_name) true client 0
    ≡ some (
      ok (bytes_of (93, 184, 216, 34), ttl_of (0, 0, 0, 60)),
      keep_received (some answer) (asked client),
      1,
    )
dns_resolve_a-reply_example =
    dns_resolve_a-reply answering_net 0x12 0x34 other other_bytes (0, 0, 0, 60) (93, 184, 216, 34)
      answer other-valid other-encoded refl 2 asked_name query client 0 1 refl refl query-built
      (omega arith) refl refl refl refl

dns_resolve_a-IsResolved_example :
    IsResolved answering_net client.config
      (dns_resolve_a answering_net 3 (some asked_name) true client 0)
dns_resolve_a-IsResolved_example =
    dns_resolve_a-IsResolved answering_net 3 asked_name client 0 (omega arith) (omega arith)
