-- ===== src/Ntp/Client/Answered.antt =====
-- What _ntp_receive_response accepts.
use wiznet_driver.Base.{ℕ, zero, suc, ◌≡◌, ◌<◌, refl, ap, ◌∙◌, arith}
use wiznet_driver.Base.{Bool, true, false, ◌&&◌, ltb, ◌==◌, if◌then◌else◌, Option, none, some}
use wiznet_driver.Base.{sym, length, take, drop, take-length-append}
use wiznet_driver.Net.{Net, Datagram}
use wiznet_driver.Ntp.Packet.{Result, ok, err, Response, parse_response}
use wiznet_driver.Ntp.Packet.{ntp_packet_size}
use wiznet_driver.Ntp.Client.{Client, Config, keep_received, accept_received, same_bytes}
use wiznet_driver.Ntp.Client.{wait_loop, sub32, ntp_port}

pub keep_received-config :
    (received : Option Datagram) (g : Client) → (keep_received received g).config ≡ g.config
keep_received-config none g = refl
keep_received-config (some d) g = refl

parsed_ok :
    (p : Result Response) (r : Response)
    → elim p [ ok s ↦ some s | err e ↦ none ] ≡ some r
    → p ≡ ok r
parsed_ok (ok s) r e = ap ok (cc e)
parsed_ok (err x) r e = absurd (cc e)

module _ (net : Net) (c : Config) where
  open net use {World}

  -- The response is what the buffer says after a datagram has been received into it that is not
  -- empty and comes from the server.
  pub record IsAnswer (g : Client) (r : Response) : Type 0 where
    pub datagram : Datagram
    pub before : World
    pub received : (net.recvfrom c.socket_num ntp_packet_size before).0 ≡ some datagram
    pub from_server : same_bytes datagram.peer_ip c.ntp_server ≡ true
    pub from_port : datagram.peer_port ≡ ntp_port
    pub not_empty : 0 < length datagram.bytes
    pub stored : take (length datagram.bytes) g.response_buffer ≡ datagram.bytes
    pub parsed : parse_response g.response_buffer ntp_packet_size ≡ ok r

  abbrev pub IsFound : Option Response × Client × World → Type 0
  IsFound t = (r : Response) → t.0 ≡ some r → IsAnswer t.1 r

  accepted-IsAnswer :
      (o : Option Datagram) (g : Client) (w : World) (r : Response)
      → g.config ≡ c
      → (net.recvfrom c.socket_num ntp_packet_size w).0 ≡ o
      → accept_received o (keep_received o g) ≡ some r
      → IsAnswer (keep_received o g) r
  accepted-IsAnswer none g w r same got e = absurd (cc e)
  accepted-IsAnswer (some d) g w r same got e =
      let g1 : Client = keep_received (some d) g in
      let p : Result Response = parse_response g1.response_buffer ntp_packet_size in
      let q : Option Response = elim p [ ok s ↦ some s | err x ↦ none ] in
      let tests =
        passed (ltb 0 (length d.bytes)) (d.peer_port == ntp_port)
          (same_bytes d.peer_ip g.config.ntp_server) q r e in
      record {
        datagram = d;
        before = w;
        received = got;
        from_server = ap (λ (k : Config). same_bytes d.peer_ip k.ntp_server) (sym same) ∙ tests.2;
        from_port = ground (arith, tests.1);
        not_empty = ground (arith, tests.0);
        stored = take-length-append d.bytes (drop (length d.bytes) g.response_buffer);
        parsed = parsed_ok p r tests.3;
      }
    where
      passed :
          (a b k : Bool) (q : Option Response) (r : Response)
          → (if a && b && k then q else none) ≡ some r
          → (a ≡ true) × (b ≡ true) × (k ≡ true) × (q ≡ some r)
      passed true true true q r e = (refl, refl, refl, e)
      passed true true false q r e = absurd (cc e)
      passed true false k q r e = absurd (cc e)
      passed false b k q r e = absurd (cc e)

  round-IsFound :
      (b : Bool) (o : Option Response) (g g1 : Client) (w w1 : World)
      (rest : Option Response × Client × World)
      → ((r : Response) → o ≡ some r → IsAnswer g1 r)
      → IsFound rest
      → IsFound (
          if b
          then (elim o as (λ o. Option Response × Client × World) [
            | none ↦ rest
            | some r ↦ (some r, g1, w1)
          ])
          else (none, g, w))
  round-IsFound true none g g1 w w1 rest h k r e = k r e
  round-IsFound true (some s) g g1 w w1 rest h k r e = h r e
  round-IsFound false o g g1 w w1 rest h k r e = absurd (cc e)

  pub wait_loop-IsFound :
      (fuel start : ℕ) (g : Client) (w : World)
      → g.config ≡ c
      → IsFound (wait_loop net fuel start g w)
  unfolding wait_loop
  wait_loop-IsFound zero start g w same = λ r e. absurd (cc e)
  wait_loop-IsFound (suc fuel) start g w same =
      let got = net.recvfrom g.config.socket_num ntp_packet_size w in
      let g1 : Client = keep_received got.0 g in
      let port = ap (λ (k : Config). (net.recvfrom k.socket_num ntp_packet_size w).0) (sym same) in
      round-IsFound (ltb (sub32 (net.tick w) start) g.config.timeout_ms) (accept_received got.0 g1)
        g g1 w got.1 (wait_loop net fuel start g1 (net.delay 100 got.1))
        (λ r. accepted-IsAnswer got.0 g w r same port)
        (wait_loop-IsFound fuel start g1 (net.delay 100 got.1)
          (keep_received-config got.0 g ∙ same))

  pub wait_loop-config :
      (fuel start : ℕ) (g : Client) (w : World) → (wait_loop net fuel start g w).1.config ≡ g.config
  unfolding wait_loop
  wait_loop-config zero start g w = refl
  wait_loop-config (suc fuel) start g w =
      let r = net.recvfrom g.config.socket_num ntp_packet_size w in
      ground (
        arith,
        keep_received-config r.0 g,
        wait_loop-config fuel start (keep_received r.0 g) (net.delay 100 r.1),
      )
