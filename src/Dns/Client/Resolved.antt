-- ===== src/Dns/Client/Resolved.antt =====
-- What dns_resolve_a returns, and that it does.
use wiznet_driver.Base.{ℕ, zero, suc, ◌+◌, ◌≡◌, ◌<◌, ◌≤◌, refl}
use wiznet_driver.Base.{Bool, true, false, ◌==◌, if◌then◌else◌, Option, none, some, List}
use wiznet_driver.Base.{length, take}
use wiznet_driver.Net.{Net, SocketStatus, is_sock_ok}
use wiznet_driver.Net.{udp, closed, init, listen, established, close_wait, other}
use wiznet_driver.Dns.Result.{Result, ok, err, socket_fail, name_not_found}
use wiznet_driver.Dns.Result.{dns_max_name_length}
use wiznet_driver.Dns.Message.{Response, ARecord, CnameRecord, dns_type_a}
use wiznet_driver.Dns.Client.{Client, Config, dns_query, resolve_loop}
use wiznet_driver.Dns.Client.{dns_resolve_a, open_socket}
use wiznet_driver.Dns.Client.Answered.{IsAnswer}
use wiznet_driver.Dns.Client.Concluded.{IsConcluded, dns_query-IsConcluded}

module _ (net : Net) (c : Config) where
  open net use {World}

  -- An address comes from the answer that a response has.
  abbrev pub Gives : Result (List ℕ × ℕ) → Client → Type 0
  Gives (ok (ip, ttl)) g =
      (r : Response) × IsAnswer net c g r × (r.answer ≡ some (record { ttl = ttl; ip_addr = ip }))
  Gives (err e) g = Unit {0}

  -- A name has been looked up, with this result.
  abbrev pub IsResolved : Option (Result (List ℕ × ℕ) × Client × World) → Type 0
  IsResolved o =
      (result : Result (List ℕ × ℕ)) × (g : Client) × (w : World) × (o ≡ some (result, g, w))
      × Gives result g

  resolve_loop-IsResolved :
      (depth fuel : ℕ) (name : List ℕ) (g : Client) (w : World)
      → g.config ≡ c
      → c.max_retries < 255
      → c.max_retries + 2 ≤ fuel
      → IsResolved (resolve_loop net depth fuel name g w)
  unfolding resolve_loop
  resolve_loop-IsResolved zero fuel name g w same small enough =
      (err name_not_found, g, w, refl, tt)
  resolve_loop-IsResolved (suc depth) fuel name g w same small enough =
      asked (dns_query net fuel name dns_type_a g w)
        (dns_query-IsConcluded net c fuel name g w same small enough)
        (λ name' g' w' kept. resolve_loop-IsResolved depth fuel name' g' w' kept small enough)
    where
      -- The answer of a response, or the name that it gives in place of the one asked for.
      answered :
          (r : Response) (g' : Client) (w' : World)
          → g'.config ≡ c
          → IsAnswer net c g' r
          → ((name' : List ℕ) (g'' : Client) (w'' : World)
              → g''.config ≡ c
              → IsResolved (resolve_loop net depth fuel name' g'' w''))
          → (a : Option ARecord) → r.answer ≡ a
          → (n : Option CnameRecord)
          → IsResolved (elim a as (λ a. Option (Result (List ℕ × ℕ) × Client × World)) [
            | some a ↦ some (ok (a.ip_addr, a.ttl), g', w')
            | none ↦ elim n [
              | none ↦ some (err name_not_found, g', w')
              | some k ↦
                  if length k.cname == 0
                  then some (err name_not_found, g', w')
                  else resolve_loop net depth fuel (take dns_max_name_length k.cname) g' w'
            ]
          ])
      answered r g' w' kept is again (some a) e n =
          (ok (a.ip_addr, a.ttl), g', w', refl, (r, is, e))
      answered r g' w' kept is again none e none = (err name_not_found, g', w', refl, tt)
      answered r g' w' kept is again none e (some k) =
          chained (length k.cname == 0) (again (take dns_max_name_length k.cname) g' w' kept)
        where
          chained :
              (b : Bool)
              → IsResolved (resolve_loop net depth fuel (take dns_max_name_length k.cname) g' w')
              → IsResolved (
                  if b
                  then some (err name_not_found, g', w')
                  else resolve_loop net depth fuel (take dns_max_name_length k.cname) g' w')
          chained true h = (err name_not_found, g', w', refl, tt)
          chained false h = h

      asked :
          (o : Option (Result Response × Client × World))
          → IsConcluded net c o
          → ((name' : List ℕ) (g'' : Client) (w'' : World)
              → g''.config ≡ c
              → IsResolved (resolve_loop net depth fuel name' g'' w''))
          → IsResolved (elim o [
            | none ↦ none
            | some (err e, g1, w1) ↦ some (err e, g1, w1)
            | some (ok r, g1, w1) ↦ elim r.answer [
              | some a ↦ some (ok (a.ip_addr, a.ttl), g1, w1)
              | none ↦ elim r.cname [
                | none ↦ some (err name_not_found, g1, w1)
                | some k ↦
                    if length k.cname == 0
                    then some (err name_not_found, g1, w1)
                    else resolve_loop net depth fuel (take dns_max_name_length k.cname) g1 w1
              ]
            ]
          ])
      asked o (ok r, g', w', e, kept, is) again =
          rw e (answered r g' w' kept is again r.answer refl r.cname)
      asked o (err x, g', w', e, kept, is) again = rw e (err x, g', w', refl, tt)

-- With at most 254 retries, dns_resolve_a returns on every network: as many rounds as attempts and
-- one more are enough for each name of the chain, where each attempt waits for as many rounds as
-- the timeout has milliseconds. Where it returns an address, that is the answer of a response which
-- the parser took from a datagram that came from the server's address and port.
pub dns_resolve_a-IsResolved :
    (net : Net) (fuel : ℕ) (hostname : List ℕ) (g : Client) (w : net.World)
    → g.config.max_retries < 255
    → g.config.max_retries + 2 ≤ fuel
    → IsResolved net g.config (dns_resolve_a net fuel (some hostname) true g w)
unfolding dns_resolve_a
dns_resolve_a-IsResolved net fuel hostname g w small enough =
    opened (net.status g.config.socket_num w)
  where
    name : List ℕ
    name = take dns_max_name_length hostname

    again : (v : net.World) → IsResolved net g.config (resolve_loop net 5 fuel name g v)
    again v = resolve_loop-IsResolved net g.config 5 fuel name g v refl small enough

    after_open :
        (b : Bool) (v : net.World)
        → IsResolved net g.config
            (if b then resolve_loop net 5 fuel name g v else some (err socket_fail, g, v))
    after_open true v = again v
    after_open false v = (err socket_fail, g, v, refl, tt)

    reopened : IsResolved net g.config (
        if is_sock_ok (open_socket net g w).0
        then resolve_loop net 5 fuel name g (open_socket net g w).1
        else some (err socket_fail, g, (open_socket net g w).1))
    reopened = after_open (is_sock_ok (open_socket net g w).0) (open_socket net g w).1

    opened :
        (s : SocketStatus)
        → IsResolved net g.config (elim s [
          | udp ↦ resolve_loop net 5 fuel name g w
          | _ ↦
              if is_sock_ok (open_socket net g w).0
              then resolve_loop net 5 fuel name g (open_socket net g w).1
              else some (err socket_fail, g, (open_socket net g w).1)
        ])
    opened udp = again w
    opened closed = reopened
    opened init = reopened
    opened listen = reopened
    opened established = reopened
    opened close_wait = reopened
    opened other = reopened
