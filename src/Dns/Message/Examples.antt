-- ===== src/Dns/Message/Examples.antt =====
-- A query and its answer, byte for byte.
use wiznet_driver.Base.{ℕ, ◌≡◌, refl, arith, true, some, none, List, [], ◌∷◌, ◌++◌, length}
use wiznet_driver.Dns.Result.{ok}
use wiznet_driver.Dns.Name.{is_valid_hostname, valid_from, encode_name, encode_from, decode_name}
use wiznet_driver.Dns.Message.{build_query, parse_header, skip_question}
use wiznet_driver.Dns.Message.{parse_response}
use wiznet_driver.Dns.Message.Record.{question, record_of}
use wiznet_driver.Dns.Message.Answered.{parse_response-answer}
use wiznet_driver.Dns.Message.Asked.{query_of, build_query-read}

-- "a.bc", and its wire form
abbrev host : List ℕ
host = b'a' ∷ b'.' ∷ b'b' ∷ b'c' ∷ []

abbrev host_bytes : List ℕ
host_bytes = 1 ∷ b'a' ∷ 2 ∷ b'b' ∷ b'c' ∷ 0 ∷ []

host-valid : is_valid_hostname host ≡ true
unfolding is_valid_hostname valid_from
host-valid = refl

host-encoded : encode_name (some host) ≡ ok host_bytes
unfolding encode_name is_valid_hostname valid_from encode_from
host-encoded = refl

parse_response-answer_example :
    parse_response (question 0x12 0x34 host_bytes ++ record_of 0 0 0 60 93 184 216 34 (7 ∷ [])) 38
    ≡ ok record {
      header = record {
        id = 0x1234;
        flags = 0x8180;
        qdcount = 1;
        ancount = 1;
        nscount = 0;
        arcount = 0;
      };
      answer = some record { ttl = 60; ip_addr = 93 ∷ 184 ∷ 216 ∷ 34 ∷ [] };
      cname = none;
    }
parse_response-answer_example =
    parse_response-answer 0x12 0x34 host host_bytes 0 0 0 60 93 184 216 34 (7 ∷ []) host-valid
      host-encoded

build_query-read_example :
    let q = query_of 0x1234 host_bytes 1 in
    (build_query 0x1234 (some host) 1 ≡ ok q)
    × (parse_header q ≡ record {
      id = 0x1234;
      flags = 0x0100;
      qdcount = 1;
      ancount = 0;
      nscount = 0;
      arcount = 0;
    })
    × ((decode_name q (length q) 12 255).0 ≡ host)
    × (skip_question q (length q) 1 12 ≡ ok (length q))
build_query-read_example =
    build_query-read 0x1234 1 host host_bytes (omega arith) host-valid host-encoded
