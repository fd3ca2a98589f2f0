-- ===== src/Ntp/Client/Examples.antt =====
-- A run of the client on a network whose server answers.
use wiznet_driver.Base.{ℕ, ◌+◌, ◌≡◌, refl, arith, true, none, some, [], ◌∷◌}
use wiznet_driver.Net.{Net, Buffers, sock_ok, udp}
use wiznet_driver.Ntp.Packet.{Time, ok}
use wiznet_driver.Ntp.Packet.Times.{Wire, wire_bytes}
use wiznet_driver.Ntp.Client.{Client, ntp_get_response, ntp_get_time}
use wiznet_driver.Ntp.Client.Concluded.{IsReturned, ntp_get_response-IsReturned}

abbrev noon : Time
noon = record { seconds = 3900000000; fractional = 5 }

abbrev reply : Wire
reply = record {
  flags = 36;
  stratum = 2;
  poll = 4;
  precision = 250;
  root_delay = 0;
  root_dispersion = 0;
  reference_id = 0;
  reference = noon;
  origin = noon;
  received = noon;
  sent = noon;
}

-- The world is the clock.
abbrev answering_net : Net
answering_net = record {
  World = ℕ;
  socket = λ sn protocol port buffers f t. (sock_ok, t);
  close = λ sn t. (sock_ok, t);
  connect = λ sn addr port t. (sock_ok, t);
  disconnect = λ sn t. (sock_ok, t);
  send = λ sn buf t. (sock_ok, t);
  sendto = λ sn buf addr port t. (sock_ok, t);
  receive = λ sn len t. ([], t);
  recvfrom = λ sn len t.
      (some record { bytes = wire_bytes reply; peer_ip = 10 ∷ 0 ∷ 0 ∷ 1 ∷ []; peer_port = 123 }, t);
  status = λ sn t. udp;
  tick = λ t. t;
  delay = λ n t. t + n;
  rand = λ t. (4, t);
}

abbrev no_buffers : Buffers
no_buffers = record { tx_buf = none; tx_buf_len = 0; rx_buf = none; rx_buf_len = 0 }

abbrev client : Client
client = record {
  config = record {
    ntp_server = 10 ∷ 0 ∷ 0 ∷ 1 ∷ [];
    timeout_ms = 2;
    max_retries = 1;
    socket_num = 1;
    version = 4;
    buffers = no_buffers;
  };
  initialized = true;
  source_port = 40000;
  response_buffer = [];
}

ntp_get_time-run :
    (elim (ntp_get_time answering_net 3 true client 0) [ none ↦ none | some (r, g, w) ↦ some r ])
    ≡ some (ok 1691011200)
unfolding ntp_get_time
ntp_get_time-run = refl

ntp_get_response-IsReturned_example :
    IsReturned answering_net client.config (ntp_get_response answering_net 3 true client 0)
ntp_get_response-IsReturned_example =
    ntp_get_response-IsReturned answering_net 3 client 0 refl (omega arith) (omega arith)
