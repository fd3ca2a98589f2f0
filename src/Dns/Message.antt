-- ===== src/Dns/Message.antt =====
-- Src/dns_client.c: the query and the response: _dns_build_query and _dns_parse_response.
pub mod Record
pub mod Answered
pub mod Asked
mod Examples
use wiznet_driver.Base.{ℕ, zero, suc, ◌+◌, ◌*◌, ◌%◌, ◌^◌, Bool, true, false, not, ◌&&◌, ltb, ◌==◌}
use wiznet_driver.Base.{if◌then◌else◌, Option, none, some, List, [], ◌∷◌, ◌++◌, take, drop, get_or}
use wiznet_driver.Base.Bits.{shr, low_bits, be16}
use wiznet_driver.Dns.Result.{Result, ok, err, ◌>>=◌, invalid_param, format, server_error}
use wiznet_driver.Dns.Result.{name_not_found, dns_header_size, dns_max_name_length}
use wiznet_driver.Dns.Name.{encode_name, decode_name, skip_name}

abbrev pub dns_type_a : ℕ
dns_type_a = 1

abbrev pub dns_type_cname : ℕ
dns_type_cname = 5

-- `dns_header_t`
pub record Header : Type 0 where
  pub id : ℕ
  pub flags : ℕ
  pub qdcount : ℕ
  pub ancount : ℕ
  pub nscount : ℕ
  pub arcount : ℕ

-- `dns_a_record_t` and `dns_cname_record_t`; the latter's name is a C string.
pub record ARecord : Type 0 where
  pub ttl : ℕ
  pub ip_addr : List ℕ

pub record CnameRecord : Type 0 where
  pub ttl : ℕ
  pub cname : List ℕ

-- `dns_response_t`. A record and its flag `has_…` are an option; the field `type` is the constant
-- that the parser tested for.
pub record Response : Type 0 where
  pub header : Header
  pub answer : Option ARecord
  pub cname : Option CnameRecord

-- Two bytes, high first.
abbrev pub be16_bytes : ℕ → List ℕ
be16_bytes v = low_bits (shr v 8) 8 ∷ low_bits v 8 ∷ []

-- The query for the transaction `id`, and the question.
unfoldable pub build_query : ℕ → Option (List ℕ) → ℕ → Result (List ℕ)
unfolding encode_name
build_query id none qtype = err invalid_param
build_query id (some hostname) qtype = encode_name (some hostname) >>= λ name. ok (
    be16_bytes id
    ++ (be16_bytes 0x0100
        ++ (be16_bytes 1
            ++ (be16_bytes 0
                ++ (be16_bytes 0
                    ++ (be16_bytes 0 ++ (name ++ (be16_bytes qtype ++ (0x00 ∷ 0x01 ∷ [])))))))))

-- A 16-bit and a 32-bit field of the packet.
abbrev pub u16_at : List ℕ → ℕ → ℕ
u16_at buffer pos = be16 (get_or buffer pos 0) (get_or buffer (pos + 1) 0)

abbrev pub u32_at : List ℕ → ℕ → ℕ
u32_at buffer pos = u16_at buffer pos * 2 ^ 16 + u16_at buffer (pos + 2)

-- The characters before the first NUL.
unfoldable pub c_string : List ℕ → List ℕ
c_string [] = []
c_string (c ∷ cs) = if c == 0 then [] else c ∷ c_string cs

unfoldable pub parse_header : List ℕ → Header
parse_header buffer = record {
  id = u16_at buffer 0;
  flags = u16_at buffer 2;
  qdcount = u16_at buffer 4;
  ancount = u16_at buffer 6;
  nscount = u16_at buffer 8;
  arcount = u16_at buffer 10;
}

abbrev pub is_some : {A : Type 0} → Option A → Bool
is_some none = false
is_some (some a) = true

-- What a resource record of the type `type` with data at `pos` adds: the first A record of four
-- bytes, and the first CNAME record.
unfoldable pub take_record : List ℕ → ℕ → ℕ → ℕ → ℕ → ℕ → Response → Response
unfolding c_string decode_name
take_record buffer len type ttl rdlength pos r =
    let name = (decode_name buffer len pos (dns_max_name_length + 1)).0 in
    if type == dns_type_a && rdlength == 4 && not (is_some r.answer)
    then record r { answer = some record { ttl = ttl; ip_addr = take 4 (drop pos buffer) } }
    else if type == dns_type_cname && not (is_some r.cname)
    then record r {
      cname = some record { ttl = ttl; cname = take dns_max_name_length (c_string name) };
    }
    else r

-- The answer records from `pos` on, of which `left` are left.
unfoldable pub parse_answers : ℕ → List ℕ → ℕ → ℕ → Response → Result Response
unfolding skip_name take_record
parse_answers zero buffer len pos r = ok r
parse_answers (suc left) buffer len pos r =
    if ltb pos len
    then (skip_name buffer len pos >>= λ p.
        let rdlength = u16_at buffer (p + 8) in
        let data_pos = p + 10 in
        let next =
          parse_answers left buffer len ((data_pos + rdlength) % 2 ^ 16) (
            take_record buffer len (u16_at buffer p) (u32_at buffer (p + 4)) rdlength data_pos r) in
        if ltb len (p + 10)
        then err format
        else if ltb len (data_pos + rdlength)
        then err format
        else next)
    else ok r

-- The question section: the position behind it.
unfoldable pub skip_question : List ℕ → ℕ → ℕ → ℕ → Result ℕ
unfolding skip_name
skip_question buffer len qdcount pos =
    if ltb 0 qdcount
    then (skip_name buffer len pos >>= λ p. if ltb len (p + 4) then err format else ok (p + 4))
    else ok pos

-- `len` bytes of the packet were received; the buffer may hold older bytes behind them.
unfoldable pub parse_response : List ℕ → ℕ → Result Response
unfolding parse_header skip_question parse_answers
parse_response buffer len =
    let header = parse_header buffer in
    let rcode = low_bits header.flags 4 in
    if ltb len dns_header_size
    then err invalid_param
    else if not (rcode == 0)
    then if rcode == 3 then err name_not_found else err server_error
    else skip_question buffer len header.qdcount 12 >>= λ pos.
        parse_answers header.ancount buffer len pos
          (record { header = header; answer = none; cname = none })
