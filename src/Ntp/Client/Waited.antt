-- ===== src/Ntp/Client/Waited.antt =====
-- How long _ntp_receive_response waits.
use wiznet_driver.Base.{ℕ, zero, suc, ◌+◌, ◌≡◌, ◌<◌, ◌≤◌, refl, sym, arith}
use wiznet_driver.Base.{none}
use wiznet_driver.Net.{Net}
use wiznet_driver.Ntp.Packet.{ntp_packet_size}
use wiznet_driver.Ntp.Client.{Client, Config, wait_loop, keep_received, sub32}
use wiznet_driver.Ntp.Client.Answered.{keep_received-config}

-- Each round lets the clock go on, as seen from the start, while the time is not over.
abbrev RoundPasses : Net → ℕ → Config → Type 0
RoundPasses net start c =
    (v : net.World)
    → sub32 (net.tick v) start < c.timeout_ms
    → sub32 (net.tick v) start
      < sub32 (net.tick (net.delay 100 (net.recvfrom c.socket_num ntp_packet_size v).1)) start

module _ (net : Net) (start : ℕ) where
  over :
      (fuel : ℕ) (g : Client) (w : net.World)
      → g.config.timeout_ms ≤ sub32 (net.tick w) start
      → wait_loop net fuel start g w ≡ (none, g, w)
  unfolding wait_loop
  over zero g w late = refl
  over (suc fuel) g w late = ground arith

  -- As many rounds as the timeout has milliseconds are enough: with a clock that goes on in each
  -- round, the wait ends in the same way with any two numbers of rounds that reach its end.
  wait_loop-enough :
      (fuel fuel' : ℕ) (g : Client) (w : net.World)
      → RoundPasses net start g.config
      → g.config.timeout_ms ≤ fuel + sub32 (net.tick w) start
      → g.config.timeout_ms ≤ fuel' + sub32 (net.tick w) start
      → wait_loop net fuel start g w ≡ wait_loop net fuel' start g w
  unfolding wait_loop
  wait_loop-enough zero fuel' g w passes enough enough' = sym (over fuel' g w (omega arith))
  wait_loop-enough (suc fuel) zero g w passes enough enough' = over (suc fuel) g w (omega arith)
  wait_loop-enough (suc fuel) (suc fuel') g w passes enough enough' =
      let r = net.recvfrom g.config.socket_num ntp_packet_size w in
      let g1 : Client = keep_received r.0 g in
      let same = keep_received-config r.0 g in
      let passed = passes w in
      let again = wait_loop-enough fuel fuel' g1 (net.delay 100 r.1) (rw same passes) in
      ground (arith, same, passed, again)
