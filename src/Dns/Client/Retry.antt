-- ===== src/Dns/Client/Retry.antt =====
-- How often _dns_query asks, and when it ends.
use wiznet_driver.Base.{ℕ, zero, suc, ◌+◌, ◌%◌, ◌^◌, ◌≡◌, ◌≢◌, ◌<◌, ◌≤◌, refl, arith}
use wiznet_driver.Base.{Option, none, some, List}
use wiznet_driver.Net.{Net, sock_ok, Datagram}
use wiznet_driver.Dns.Result.{dns_port, dns_max_packet_size}
use wiznet_driver.Dns.Client.{sub32, Client, query_loop, wait_loop, keep_received}

pub keep_received-config :
    (received : Option Datagram) (g : Client) → (keep_received received g).config ≡ g.config
keep_received-config none g = refl
keep_received-config (some d) g = refl

module _ (net : Net) where
  open net use {World, sendto, recvfrom}

  pub wait_loop-config :
      (fuel start : ℕ) (g : Client) (w : World) → (wait_loop net fuel start g w).1.config ≡ g.config
  unfolding wait_loop
  wait_loop-config zero start g w = refl
  wait_loop-config (suc fuel) start g w =
      let r = net.recvfrom g.config.socket_num dns_max_packet_size w in
      ground (
        arith,
        keep_received-config r.0 g,
        wait_loop-config fuel start (keep_received r.0 g) (net.delay 100 r.1),
      )

  -- With at most 254 retries the attempts end, on every network, from every attempt on: as many
  -- rounds as there are attempts left, and one more, are enough.
  pub query_loop-ends :
      (fuel retry : ℕ) (query : List ℕ) (g : Client) (w : World)
      → g.config.max_retries < 255
      → retry ≤ g.config.max_retries + 1
      → g.config.max_retries + 2 ≤ fuel + retry
      → query_loop net fuel retry query g w ≢ none
  unfolding query_loop
  query_loop-ends zero retry query g w small at enough = absurd (omega arith)
  query_loop-ends (suc fuel) retry query g w small at enough =
      let s = net.sendto g.config.socket_num query g.config.dns_server dns_port w in
      let r = wait_loop net g.config.timeout_ms (net.tick s.1) g s.1 in
      let same = wait_loop-config g.config.timeout_ms (net.tick s.1) g s.1 in
      let next : ℕ = (retry + 1) % 2 ^ 8 in
      ground (
        arith,
        same,
        query_loop-ends fuel next query g s.1 small,
        query_loop-ends fuel next query r.1 r.2 (rw same small),
      )

  wait_loop-silent :
      (fuel start : ℕ) (g : Client) (w : World)
      → ((sn len : ℕ) (v : World) → (recvfrom sn len v).0 ≡ none)
      → (wait_loop net fuel start g w).0 ≡ none
  unfolding wait_loop
  wait_loop-silent zero start g w silent = refl
  wait_loop-silent (suc fuel) start g w silent =
      let r = net.recvfrom g.config.socket_num dns_max_packet_size w in
      ground (
        arith,
        silent g.config.socket_num dns_max_packet_size w,
        wait_loop-silent fuel start (keep_received r.0 g) (net.delay 100 r.1) silent,
      )

  -- With 255 retries they never end where every query is sent and nothing is received: the 8-bit
  -- counter never passes 255, whatever the number of rounds.
  pub query_loop-endless :
      (fuel retry : ℕ) (query : List ℕ) (g : Client) (w : World)
      → ((sn : ℕ) (buf addr : List ℕ) (port : ℕ) (v : World)
          → (sendto sn buf addr port v).0 ≡ sock_ok)
      → ((sn len : ℕ) (v : World) → (recvfrom sn len v).0 ≡ none)
      → g.config.max_retries ≡ 255
      → retry < 256
      → query_loop net fuel retry query g w ≡ none
  unfolding query_loop
  query_loop-endless zero retry query g w sent silent most at = refl
  query_loop-endless (suc fuel) retry query g w sent silent most at =
      let s = net.sendto g.config.socket_num query g.config.dns_server dns_port w in
      let start = net.tick s.1 in
      let r = wait_loop net g.config.timeout_ms start g s.1 in
      let same = wait_loop-config g.config.timeout_ms start g s.1 in
      ground (
        arith,
        sent g.config.socket_num query g.config.dns_server dns_port w,
        wait_loop-silent g.config.timeout_ms start g s.1 silent,
        same,
        query_loop-endless fuel ((retry + 1) % 2 ^ 8) query r.1 r.2 sent silent (rw same most),
      )

-- Each round of the wait lets the clock go on, as seen from the start, while the time is not over.
abbrev pub RoundPasses : Net → ℕ → ℕ → ℕ → Type 0
RoundPasses net sn start timeout =
    (v : net.World)
    → sub32 (net.tick v) start < timeout
    → sub32 (net.tick v) start
      < sub32 (net.tick (net.delay 100 (net.recvfrom sn dns_max_packet_size v).1)) start

module _ (net : Net) where
  open net use {World}

  -- The wait for a response gives up only when the time is over: with a clock that goes on in each
  -- round, and as many rounds as there are milliseconds left, no response means that `timeout_ms`
  -- have passed since the start.
  pub wait_loop-none :
      (fuel start : ℕ) (g : Client) (w : World)
      → RoundPasses net g.config.socket_num start g.config.timeout_ms
      → g.config.timeout_ms ≤ fuel + sub32 (net.tick w) start
      → (wait_loop net fuel start g w).0 ≡ none
      → g.config.timeout_ms ≤ sub32 (net.tick (wait_loop net fuel start g w).2) start
  unfolding wait_loop
  wait_loop-none zero start g w passes enough e = omega arith
  wait_loop-none (suc fuel) start g w passes enough e =
      let r = net.recvfrom g.config.socket_num dns_max_packet_size w in
      let g1 : Client = keep_received r.0 g in
      let same = keep_received-config r.0 g in
      ground
        (arith, same, passes w, wait_loop-none fuel start g1 (net.delay 100 r.1) (rw same passes))
