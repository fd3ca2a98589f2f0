-- ===== src/Ntp/Client/Concluded.antt =====
-- What ntp_get_response returns, and that it does.
use wiznet_driver.Base.{
  ℕ, zero, suc, ◌+◌, ◌%◌, ◌^◌, ◌≡◌, ◌<◌, ◌≤◌, ◌⊎◌, inl, inr, refl, ap, ◌∙◌, arith,
}
use wiznet_driver.Base.{Bool, true, false, not, ltb, ◌==◌, if◌then◌else◌, Option, none, some}
use wiznet_driver.Net.{Net, is_sock_ok}
use wiznet_driver.Ntp.Packet.{Result, ok, err, timeout, network, Response}
use wiznet_driver.Ntp.Packet.{build_request}
use wiznet_driver.Ntp.Client.{Client, Config}
use wiznet_driver.Ntp.Client.{wait_loop, send_request, response_loop, ntp_port}
use wiznet_driver.Ntp.Client.{ntp_get_response, reopen}
use wiznet_driver.Ntp.Packet.{socket_fail}
use wiznet_driver.Ntp.Client.Answered.{IsAnswer, wait_loop-IsFound, wait_loop-config}

module _ (net : Net) (c : Config) where
  open net use {World}

  -- How an exchange ends: with an answer, or because nothing came or nothing could be sent.
  abbrev pub Ends : Result Response → Client → Type 0
  Ends (ok r) g = IsAnswer net c g r
  Ends (err e) g = (e ≡ timeout) ⊎ (e ≡ network)

  -- The loop has ended, in this way.
  abbrev pub IsConcluded : Option (Result Response × Client × World) → Type 0
  IsConcluded o =
      (result : Result Response) × (g : Client) × (w : World) × (o ≡ some (result, g, w))
      × Ends result g

  if-IsConcluded :
      (b : Bool) (u v : Option (Result Response × Client × World))
      → (b ≡ true → IsConcluded u)
      → (b ≡ false → IsConcluded v)
      → IsConcluded (if b then u else v)
  if-IsConcluded true u v h k = h refl
  if-IsConcluded false u v h k = k refl

  found-IsConcluded :
      (o : Option Response) (g : Client) (w : World)
      (rest : Option (Result Response × Client × World))
      → ((r : Response) → o ≡ some r → IsAnswer net c g r)
      → IsConcluded rest
      → IsConcluded (elim o [ some r ↦ some (ok r, g, w) | none ↦ rest ])
  found-IsConcluded none g w rest h k = k
  found-IsConcluded (some r) g w rest h k = (ok r, g, w, refl, h r refl)

  sent-IsConcluded :
      (b last : Bool) (g : Client) (w : World)
      (unsent answered : Option (Result Response × Client × World))
      → IsConcluded unsent
      → IsConcluded answered
      → IsConcluded (elim (if◌then◌else◌ {0} {A = Result (Unit {0})} b (ok tt) (err network)) [
        | err e ↦ if last then some (err e, g, w) else unsent
        | ok _ ↦ answered
      ])
  sent-IsConcluded true last g w unsent answered h k = k
  sent-IsConcluded false true g w unsent answered h k = (err network, g, w, refl, inr refl)
  sent-IsConcluded false false g w unsent answered h k = h

  -- With at most 254 retries, on every network: as many rounds as attempts are left, and one more,
  -- end the exchange, with an error or with an answer.
  response_loop-IsConcluded :
      (fuel retry : ℕ) (g : Client) (w : World)
      → g.config ≡ c
      → c.max_retries < 255
      → retry ≤ c.max_retries + 1
      → c.max_retries + 2 ≤ fuel + retry
      → IsConcluded (response_loop net fuel retry g w)
  unfolding response_loop send_request
  response_loop-IsConcluded zero retry g w same small at enough = absurd (omega arith)
  response_loop-IsConcluded (suc fuel) retry g w same small at enough =
      let s =
        net.sendto g.config.socket_num (build_request g.config.version (net.tick w))
          g.config.ntp_server ntp_port w in
      let r = wait_loop net g.config.timeout_ms (net.tick s.1) g s.1 in
      let next : ℕ = (retry + 1) % 2 ^ 8 in
      let w3 = if ltb retry g.config.max_retries then net.delay 100 r.2 else r.2 in
      let kept = wait_loop-config net c g.config.timeout_ms (net.tick s.1) g s.1 ∙ same in
      let most : g.config.max_retries ≡ c.max_retries = ap (λ (k : Config). k.max_retries) same in
      if-IsConcluded (ltb g.config.max_retries retry) (some (err timeout, g, w)) _
        (λ over. (err timeout, g, w, refl, inl refl))
        (λ left.
          let room : retry ≤ g.config.max_retries = ground arith in
          let next_at : next ≤ c.max_retries + 1 = omega arith in
          let next_enough : c.max_retries + 2 ≤ fuel + next = omega arith in
          sent-IsConcluded (is_sock_ok s.0) (retry == g.config.max_retries) g s.1
            (response_loop net fuel next g s.1) _
            (response_loop-IsConcluded fuel next g s.1 same small next_at next_enough)
            (found-IsConcluded r.0 r.1 r.2 (response_loop net fuel next r.1 w3)
              (wait_loop-IsFound net c g.config.timeout_ms (net.tick s.1) g s.1 same)
              (response_loop-IsConcluded fuel next r.1 w3 kept small next_at next_enough)))

  -- A call has returned: the socket could not be opened, or the exchange has ended.
  abbrev pub IsReturned : Option (Result Response × Client × World) → Type 0
  IsReturned o =
      (result : Result Response) × (g : Client) × (w : World) × (o ≡ some (result, g, w))
      × ((result ≡ err socket_fail) ⊎ Ends result g)

  opened-IsReturned :
      (b : Bool) (u : Option (Result Response × Client × World)) (g : Client) (w : World)
      → IsConcluded u
      → IsReturned (if b then u else some (err socket_fail, g, w))
  opened-IsReturned true u g w (result, g', w', e, ends) = (result, g', w', e, inr ends)
  opened-IsReturned false u g w h = (err socket_fail, g, w, refl, inl refl)

  ready-IsReturned :
      (b : Bool) (u v : Option (Result Response × Client × World))
      → b ≡ true
      → IsReturned v
      → IsReturned (if not b then u else v)
  ready-IsReturned true u v e h = h
  ready-IsReturned false u v e h = absurd (cc e)

-- With at most 254 retries, ntp_get_response of an initialised client returns on every network: as
-- many rounds as attempts and one more are enough, where each attempt waits for as many rounds as
-- the timeout has milliseconds. It returns an error for a socket, a network or a
-- timeout, or else what the response buffer says after a datagram that is not empty came into it
-- from the server's address and port.
pub ntp_get_response-IsReturned :
    (net : Net) (fuel : ℕ) (g : Client) (w : net.World)
    → g.initialized ≡ true
    → g.config.max_retries < 255
    → g.config.max_retries + 2 ≤ fuel
    → IsReturned net g.config (ntp_get_response net fuel true g w)
unfolding ntp_get_response
ntp_get_response-IsReturned net fuel g w ready small enough =
    let (result, w1) = reopen net g w in
    ready-IsReturned net g.config g.initialized (some (err socket_fail, g, w)) _ ready (
      opened-IsReturned net g.config (is_sock_ok result) (response_loop net fuel 0 g w1) g w1
        (response_loop-IsConcluded net g.config fuel 0 g w1 refl small (omega arith) (omega arith)))
