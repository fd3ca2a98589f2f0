-- ===== src/WebSocket/Client/Waited.antt =====
-- How long ws_client_connect waits for the answer to its request, and the key that it sends.
use wiznet_driver.Base.{ℕ, zero, suc, ◌+◌, ◌-◌, ◌≡◌, ◌<◌, ◌≤◌, refl, sym, ap, ◌∙◌, arith}
use wiznet_driver.Base.{List, ◌++◌, length}
use wiznet_driver.Net.{Net}
use wiznet_driver.WebSocket.Base64.{base64_encode, base64_decode, length-base64_encode}
use wiznet_driver.WebSocket.Base64.{base64_decode-base64_encode}
use wiznet_driver.Base.{All, take-all}
use wiznet_driver.Base.Bits.{IsByte}
use wiznet_driver.WebSocket.Client.{Client, ws_err_timeout}
use wiznet_driver.WebSocket.Handshake.{ws_generate_key, random_bytes}
use wiznet_driver.WebSocket.Handshake.{ws_key_len}
use wiznet_driver.WebSocket.Client.Connect.{fails, handshake_loop, sub32}
use wiznet_driver.WebSocket.Client.Connect.{ws_rx_size}

-- Each round lets the clock go on, as seen from the start, while the time is not over.
abbrev pub ReceivePasses : Net → ℕ → ℕ → Type 0
ReceivePasses net sn start =
    (len : ℕ) (v : net.World)
    → sub32 (net.tick v) start < 6000
    → sub32 (net.tick v) start < sub32 (net.tick (net.delay 100 (net.receive sn len v).1)) start

module _ (net : Net) (start : ℕ) where
  over :
      (fuel : ℕ) (response : List ℕ) (g : Client) (w : net.World)
      → 6000 ≤ sub32 (net.tick w) start
      → handshake_loop net fuel start response g w ≡ fails net ws_err_timeout g w
  unfolding handshake_loop
  over zero response g w late = refl
  over (suc fuel) response g w late = ground arith

  -- The 6000 rounds of the wait are enough: with a clock that goes on in each round, the wait ends
  -- in the same way with any two numbers of rounds that reach the end of the 6000 milliseconds.
  pub handshake_loop-enough :
      (fuel fuel' : ℕ) (response : List ℕ) (g : Client) (w : net.World)
      → ReceivePasses net g.config.socket_num start
      → 6000 ≤ fuel + sub32 (net.tick w) start
      → 6000 ≤ fuel' + sub32 (net.tick w) start
      → handshake_loop net fuel start response g w ≡ handshake_loop net fuel' start response g w
  unfolding handshake_loop
  handshake_loop-enough zero fuel' response g w passes enough enough' =
      sym (over fuel' response g w (omega arith))
  handshake_loop-enough (suc fuel) zero response g w passes enough enough' =
      over (suc fuel) response g w (omega arith)
  handshake_loop-enough (suc fuel) (suc fuel') response g w passes enough enough' =
      let r = net.receive g.config.socket_num (ws_rx_size - length response) w in
      let passed = passes (ws_rx_size - length response) w in
      let again = handshake_loop-enough fuel fuel' (response ++ r.0) g (net.delay 100 r.1) passes in
      ground (arith, passed, again)

module _ {World : Type 0} (rand : World → ℕ × World) where
  length-random_bytes : (n : ℕ) (w : World) → length (random_bytes rand n w).0 ≡ n
  unfolding random_bytes
  length-random_bytes zero w = refl
  length-random_bytes (suc n) w = ap suc (length-random_bytes n (rand w).1)

  random_bytes-bytes : (n : ℕ) (w : World) → All IsByte (random_bytes rand n w).0
  unfolding random_bytes
  random_bytes-bytes zero w = tt
  random_bytes-bytes (suc n) w = (omega arith, random_bytes-bytes n (rand w).1)

  -- The key of the request has 24 characters, and decodes to the 16 random bytes.
  ws_generate_key-decodes :
      (w : World)
      → (length (ws_generate_key rand w).0 ≡ 24)
        × (base64_decode (ws_generate_key rand w).0 ≡ (random_bytes rand ws_key_len w).0)
  unfolding ws_generate_key
  ws_generate_key-decodes w =
      let raw = (random_bytes rand ws_key_len w).0 in
      let len : length (base64_encode raw) ≡ 24 = omega (
        arith,
        length-base64_encode raw (omega (arith, length-random_bytes ws_key_len w)),
        length-random_bytes ws_key_len w,
      ) in
      let whole = take-all 24 (base64_encode raw) (omega arith) in
      (
        ap length whole ∙ len,
        ap base64_decode whole
            ∙ base64_decode-base64_encode raw (omega (arith, length-random_bytes ws_key_len w))
                (random_bytes-bytes ws_key_len w),
      )
