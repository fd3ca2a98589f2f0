-- ===== src/Dns/Message/Asked.antt =====
-- What the parser's routines read from a query that _dns_build_query has built.
use wiznet_driver.Base.{ℕ, ◌+◌, ◌^◌, ◌≡◌, ◌<◌, refl, ap, ◌∙◌, arith}
use wiznet_driver.Base.{true, some, List, [], ◌∷◌, ◌++◌, length, length-append}
use wiznet_driver.Base.Bits.{shr, low_bits}
use wiznet_driver.Dns.Result.{ok}
use wiznet_driver.Dns.Name.{is_valid_hostname, encode_name, decode_name}
use wiznet_driver.Dns.Name.Skip.{skip_name-encode_name}
use wiznet_driver.Dns.Name.Decoded.{decode_name-encode_name}
use wiznet_driver.Dns.Message.{build_query, parse_header, skip_question, be16_bytes}
use wiznet_driver.Dns.Message.Answered.{skip_question-one, length-encoded, length-valid}

-- The query, with the wire form of the name.
abbrev pub query_of : ℕ → List ℕ → ℕ → List ℕ
query_of id bytes qtype =
    low_bits (shr id 8) 8
    ∷ low_bits id 8
    ∷ 1
    ∷ 0
    ∷ 0
    ∷ 1
    ∷ 0
    ∷ 0
    ∷ 0
    ∷ 0
    ∷ 0
    ∷ 0
    ∷ (bytes ++ (be16_bytes qtype ++ (0x00 ∷ 0x01 ∷ [])))

-- A query for a valid host name is built, and read back: the header has the transaction's number,
-- the recursion flag and one question, whose name is the host name, and the question ends where the
-- query ends.
pub build_query-read :
    (id qtype : ℕ) (hostname bytes : List ℕ)
    → id < 2 ^ 16
    → is_valid_hostname hostname ≡ true
    → encode_name (some hostname) ≡ ok bytes
    → let q = query_of id bytes qtype in
      (build_query id (some hostname) qtype ≡ ok q)
      × (parse_header q
          ≡ record { id = id; flags = 0x0100; qdcount = 1; ancount = 0; nscount = 0; arcount = 0 })
      × ((decode_name q (length q) 12 255).0 ≡ hostname)
      × (skip_question q (length q) 1 12 ≡ ok (length q))
unfolding build_query parse_header
build_query-read id qtype hostname bytes small v enc =
    let q = query_of id bytes qtype in
    let rest = be16_bytes qtype ++ (0x00 ∷ 0x01 ∷ []) in
    let size : length q ≡ length bytes + 16 = omega (arith, length-append bytes rest) in
    let short = length-valid hostname v in
    let long = length-encoded hostname bytes v enc in
    let skip =
      skip_name-encode_name hostname q bytes rest (length q) 12 v enc refl (omega arith)
        (omega arith) in
    (
      rw enc refl,
      ap
          (λ i. record {
            id = i;
            flags = 0x0100;
            qdcount = 1;
            ancount = 0;
            nscount = 0;
            arcount = 0;
          })
          (omega arith),
      ap (λ t. t.0)
          (decode_name-encode_name hostname q bytes rest 12 255 v enc refl (omega arith)
            (omega arith) (omega arith)),
      skip_question-one q (length q) (12 + length bytes) skip (omega arith) ∙ ap ok (omega arith),
    )
