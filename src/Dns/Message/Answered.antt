-- ===== src/Dns/Message/Answered.antt =====
-- What _dns_parse_response reads from a server's answer to the question for an address.
use wiznet_driver.Base.{ℕ, ◌+◌, ◌*◌, ◌^◌, ◌≡◌, ◌<◌, ◌≤◌, refl, sym, ap, ◌∙◌, arith, true}
use wiznet_driver.Base.{false, some, none, List, [], ◌∷◌, ◌++◌, length}
use wiznet_driver.Base.{ltb, append_assoc}
use wiznet_driver.Base.Bits.{low_bits}
use wiznet_driver.Dns.Result.{ok}
use wiznet_driver.Dns.Name.{is_valid_hostname, encode_name, skip_name}
use wiznet_driver.Dns.Name.Skip.{skip_name-encode_name}
use wiznet_driver.Dns.Name.Encoded.{encode_name-wire, split, wire, length-wire}
use wiznet_driver.Dns.Message.{Response, parse_header, skip_question, parse_answers}
use wiznet_driver.Dns.Message.{parse_response}
use wiznet_driver.Dns.Message.Record.{question, length-question, record_of, packet}
use wiznet_driver.Dns.Message.Record.{parse_answers-record}

-- The question section of the answer.
pub skip_question-one :
    (buffer : List ℕ) (len p : ℕ)
    → skip_name buffer len 12 ≡ ok p
    → p + 4 ≤ len
    → skip_question buffer len 1 12 ≡ ok (p + 4)
unfolding skip_question
skip_question-one buffer len p skip fits =
    let there : ltb len (p + 4) ≡ false = ground arith in rw (skip, there) refl

-- Behind a header without an error, the parser goes through the two sections.
parse_response-sections :
    (buffer : List ℕ) (len pos : ℕ) (r : Response)
    → let h = parse_header buffer in
      12 ≤ len
      → low_bits h.flags 4 ≡ 0
      → skip_question buffer len h.qdcount 12 ≡ ok pos
      → parse_answers h.ancount buffer len pos (record { header = h; answer = none; cname = none })
        ≡ ok r
      → parse_response buffer len ≡ ok r
unfolding parse_response
parse_response-sections buffer len pos r whole fine asked answered =
    let long : ltb len 12 ≡ false = ground arith in rw (long, fine, asked) answered

pub length-valid : (hostname : List ℕ) → is_valid_hostname hostname ≡ true → length hostname ≤ 253
unfolding is_valid_hostname
length-valid hostname v = ground arith

-- The wire form of a name is two bytes longer than the name.
pub length-encoded :
    (hostname bytes : List ℕ)
    → is_valid_hostname hostname ≡ true
    → encode_name (some hostname) ≡ ok bytes
    → length bytes ≡ length hostname + 2
length-encoded hostname bytes v enc =
    let same : wire (split [] hostname) ≡ bytes = cc (sym (encode_name-wire hostname v).1 ∙ enc) in
    ap length (sym same) ∙ length-wire hostname [] ∙ omega arith

-- The server's answer to the question for the address of a host: the parser takes its time to live
-- and its four address bytes, whatever stands in the buffer behind the answer.
pub parse_response-answer :
    (i1 i2 : ℕ) (hostname bytes : List ℕ) (t1 t2 t3 t4 a b c d : ℕ) (rest : List ℕ)
    → is_valid_hostname hostname ≡ true
    → encode_name (some hostname) ≡ ok bytes
    → parse_response
        (question i1 i2 bytes ++ record_of t1 t2 t3 t4 a b c d rest)
        (length bytes + 32)
      ≡ ok record {
        header = record {
          id = i1 * 256 + i2;
          flags = 0x8180;
          qdcount = 1;
          ancount = 1;
          nscount = 0;
          arcount = 0;
        };
        answer = some record {
          ttl = (t1 * 256 + t2) * 2 ^ 16 + (t3 * 256 + t4);
          ip_addr = a ∷ b ∷ c ∷ d ∷ [];
        };
        cname = none;
      }
unfolding parse_header packet
parse_response-answer i1 i2 hostname bytes t1 t2 t3 t4 a b c d rest v enc =
    let front = question i1 i2 bytes in
    let tail = record_of t1 t2 t3 t4 a b c d rest in
    let len = length bytes + 32 in
    let front_len : length front ≡ length bytes + 16 = length-question i1 i2 bytes in
    let small : len < 65000 =
      omega (arith, length-encoded hostname bytes v enc, length-valid hostname v) in
    let skip =
      skip_name-encode_name hostname (front ++ tail) bytes ((0 ∷ 1 ∷ 0 ∷ 1 ∷ []) ++ tail) len 12 v
        enc (append_assoc bytes (0 ∷ 1 ∷ 0 ∷ 1 ∷ []) tail) (omega arith) (omega arith) in
    let asked = skip_question-one (front ++ tail) len (12 + length bytes) skip (omega arith) in
    let at_record : 12 + length bytes + 4 ≡ length front = omega arith in
    let none_yet : Response = record {
      header = parse_header (front ++ tail);
      answer = none;
      cname = none;
    } in
    parse_response-sections (front ++ tail) len (12 + length bytes + 4) _ (omega arith) refl asked (
      ap (λ n. parse_answers 1 (front ++ tail) len n none_yet) at_record
      ∙ parse_answers-record front t1 t2 t3 t4 a b c d rest (parse_header (front ++ tail)) len
          (omega arith) small)
