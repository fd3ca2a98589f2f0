-- ===== src/Dns/Client/Concluded.antt =====
-- How a query of the DNS client ends, and that it does.
use wiznet_driver.Base.{ℕ, zero, suc, ◌+◌, ◌%◌, ◌^◌, ◌≡◌, ◌<◌, ◌≤◌, refl, ap, ◌∙◌, arith}
use wiznet_driver.Base.{Bool, true, false, not, ltb, ◌==◌, if◌then◌else◌, Option, none, some, List}
use wiznet_driver.Net.{Net, is_sock_ok}
use wiznet_driver.Dns.Result.{Result, ok, err, timeout, network, socket_fail}
use wiznet_driver.Dns.Result.{dns_port}
use wiznet_driver.Dns.Message.{Response, build_query, dns_type_a}
use wiznet_driver.Dns.Client.{Client, Config, wait_loop, query_loop, dns_query}
use wiznet_driver.Dns.Client.Retry.{wait_loop-config}
use wiznet_driver.Dns.Client.Answered.{IsAnswer, wait_loop-IsFound}

module _ (net : Net) (c : Config) where
  open net use {World}

  abbrev pub Ends : Result Response → Client → Type 0
  Ends (ok r) g = IsAnswer net c g r
  Ends (err e) g = Unit {0}

  -- A query has ended, in this way.
  abbrev pub IsConcluded : Option (Result Response × Client × World) → Type 0
  IsConcluded o =
      (result : Result Response) × (g : Client) × (w : World) × (o ≡ some (result, g, w))
      × (g.config ≡ c)
      × Ends result g

  if-IsConcluded :
      (b : Bool) (u v : Option (Result Response × Client × World))
      → (b ≡ true → IsConcluded u)
      → (b ≡ false → IsConcluded v)
      → IsConcluded (if b then u else v)
  if-IsConcluded true u v h k = h refl
  if-IsConcluded false u v h k = k refl

  found-IsConcluded :
      (o : Option Response) (g : Client) (w : World)
      (rest : Option (Result Response × Client × World))
      → g.config ≡ c
      → ((r : Response) → o ≡ some r → IsAnswer net c g r)
      → IsConcluded rest
      → IsConcluded (elim o [ some r ↦ some (ok r, g, w) | none ↦ rest ])
  found-IsConcluded none g w rest same h k = k
  found-IsConcluded (some r) g w rest same h k = (ok r, g, w, refl, same, h r refl)

  query_loop-IsConcluded :
      (fuel retry : ℕ) (query : List ℕ) (g : Client) (w : World)
      → g.config ≡ c
      → c.max_retries < 255
      → retry ≤ c.max_retries + 1
      → c.max_retries + 2 ≤ fuel + retry
      → IsConcluded (query_loop net fuel retry query g w)
  unfolding query_loop
  query_loop-IsConcluded zero retry query g w same small at enough = absurd (omega arith)
  query_loop-IsConcluded (suc fuel) retry query g w same small at enough =
      let s = net.sendto g.config.socket_num query g.config.dns_server dns_port w in
      let r = wait_loop net g.config.timeout_ms (net.tick s.1) g s.1 in
      let next : ℕ = (retry + 1) % 2 ^ 8 in
      let kept = wait_loop-config net g.config.timeout_ms (net.tick s.1) g s.1 ∙ same in
      let most : g.config.max_retries ≡ c.max_retries = ap (λ (k : Config). k.max_retries) same in
      if-IsConcluded (ltb g.config.max_retries retry) (some (err timeout, g, w)) _
        (λ over. (err timeout, g, w, refl, same, tt))
        (λ left.
          let room : retry ≤ g.config.max_retries = ground arith in
          let next_at : next ≤ c.max_retries + 1 = omega arith in
          let next_enough : c.max_retries + 2 ≤ fuel + next = omega arith in
          if-IsConcluded (not (is_sock_ok s.0)) _ _
            (λ failed.
              if-IsConcluded (retry == g.config.max_retries) _
                (query_loop net fuel next query g s.1)
                (λ last. (err network, g, s.1, refl, same, tt))
                (λ more.
                  query_loop-IsConcluded fuel next query g s.1 same small next_at next_enough))
            (λ sent.
              found-IsConcluded r.0 r.1 r.2 (query_loop net fuel next query r.1 r.2) kept
                (wait_loop-IsFound net c g.config.timeout_ms (net.tick s.1) g s.1 same)
                (query_loop-IsConcluded fuel next query r.1 r.2 kept small next_at next_enough)))

  pub dns_query-IsConcluded :
      (fuel : ℕ) (name : List ℕ) (g : Client) (w : World)
      → g.config ≡ c
      → c.max_retries < 255
      → c.max_retries + 2 ≤ fuel
      → IsConcluded (dns_query net fuel name dns_type_a g w)
  unfolding dns_query
  dns_query-IsConcluded fuel name g w same small enough =
      if-IsConcluded (not g.initialized) _ _ (λ _. (err socket_fail, g, w, refl, same, tt))
        (λ _. built (build_query g.transaction_id (some name) dns_type_a))
    where
      g1 : Client
      g1 = record g { transaction_id = (g.transaction_id + 1) % 2 ^ 16 }

      built :
          (o : Result (List ℕ))
          → IsConcluded
              (elim o [ ok query ↦ query_loop net fuel 0 query g1 w | err e ↦ some (err e, g1, w) ])
      built (ok query) =
          query_loop-IsConcluded fuel 0 query g1 w same small (omega arith) (omega arith)
      built (err e) = (err e, g1, w, refl, same, tt)
