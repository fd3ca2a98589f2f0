-- ===== src/Dns/Client/Examples.antt =====
-- The attempts of _dns_query over a network that answers nothing.
use wiznet_driver.Base.{◌≤◌, ℕ, ◌+◌, ◌≡◌, ◌≢◌, refl, arith, true, none, [], ◌∷◌}
use wiznet_driver.Net.{Net, Buffers, sock_ok, udp}
use wiznet_driver.Dns.Client.{sub32, wait_loop, Client, query_loop}
use wiznet_driver.Dns.Client.Retry.{
  RoundPasses, wait_loop-none, query_loop-ends, query_loop-endless,
}

-- The world is the clock. Sending works, and nothing comes back.
abbrev silent_net : Net
silent_net = record {
  World = ℕ;
  socket = λ sn protocol port buffers f t. (sock_ok, t);
  close = λ sn t. (sock_ok, t);
  connect = λ sn addr port t. (sock_ok, t);
  disconnect = λ sn t. (sock_ok, t);
  send = λ sn buf t. (sock_ok, t);
  sendto = λ sn buf addr port t. (sock_ok, t);
  receive = λ sn len t. ([], t);
  recvfrom = λ sn len t. (none, t);
  status = λ sn t. udp;
  tick = λ t. t;
  delay = λ n t. t + n;
  rand = λ t. (4, t);
}

abbrev no_buffers : Buffers
no_buffers = record { tx_buf = none; tx_buf_len = 0; rx_buf = none; rx_buf_len = 0 }

abbrev client_with : ℕ → Client
client_with retries = record {
  config = record {
    dns_server = 8 ∷ 8 ∷ 8 ∷ 8 ∷ [];
    timeout_ms = 300;
    max_retries = retries;
    socket_num = 1;
    buffers = no_buffers;
  };
  initialized = true;
  transaction_id = 1;
  source_port = 50000;
  response_buffer = [];
}

query_loop-ends_example : query_loop silent_net 5 0 (1 ∷ []) (client_with 3) 0 ≢ none
query_loop-ends_example =
    query_loop-ends silent_net 5 0 (1 ∷ []) (client_with 3) 0 (omega arith) (omega arith)
      (omega arith)

query_loop-endless_example : query_loop silent_net 1000 0 (1 ∷ []) (client_with 255) 0 ≡ none
query_loop-endless_example =
    query_loop-endless silent_net 1000 0 (1 ∷ []) (client_with 255) 0 (λ sn buf addr port v. refl)
      (λ sn len v. refl) refl (omega arith)

silent_net-RoundPasses : RoundPasses silent_net 1 0 300
silent_net-RoundPasses v h = omega arith

silent : (wait_loop silent_net 300 0 (client_with 3) 0).0 ≡ none
unfolding wait_loop
silent = refl

wait_loop-none_example : 300 ≤ sub32 (wait_loop silent_net 300 0 (client_with 3) 0).2 0
wait_loop-none_example =
    wait_loop-none silent_net 300 0 (client_with 3) 0 silent_net-RoundPasses (omega arith) silent
