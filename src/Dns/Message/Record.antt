-- ===== src/Dns/Message/Record.antt =====
-- An answer record with an address, and what the parser takes from it.
use wiznet_driver.Base.{ℕ, zero, suc, ◌+◌, ◌*◌, ◌^◌, ◌≡◌, ◌<◌, ◌≤◌, refl, ap, ap₂, ◌∙◌, arith}
use wiznet_driver.Base.{
  false, some, none, List, [], ◌∷◌, ◌++◌, length, drop, take, get_or, get_or-append,
}
use wiznet_driver.Base.{length-append, lt→ltb, ltb}
use wiznet_driver.Base.Bits.{be16}
use wiznet_driver.Dns.Result.{ok}
use wiznet_driver.Dns.Name.{skip_name, skip_loop}
use wiznet_driver.Dns.Message.{Header, Response, parse_answers}
use wiznet_driver.Dns.Message.{take_record, u16_at, u32_at}

module _ (i1 i2 : ℕ) (name : List ℕ) where
  -- The header of an answer with one question and one record, and the question.
  abbrev pub question : List ℕ
  question = i1 ∷ i2 ∷ 0x81 ∷ 0x80 ∷ 0 ∷ 1 ∷ 0 ∷ 1 ∷ 0 ∷ 0 ∷ 0 ∷ 0 ∷ (name ++ (0 ∷ 1 ∷ 0 ∷ 1 ∷ []))

  pub length-question : length question ≡ length name + 16
  length-question = omega (arith, length-append name (0 ∷ 1 ∷ 0 ∷ 1 ∷ []))

-- A name that is a pointer is two bytes long.
skip_loop-pointer :
    (fuel : ℕ) (buffer : List ℕ) (len pos : ℕ)
    → 0 < fuel
    → get_or buffer pos 0 ≡ 0xC0
    → pos < len
    → len < 65000
    → skip_loop fuel buffer len pos ≡ ok (pos + 2)
unfolding skip_loop
skip_loop-pointer zero buffer len pos h hd inside small = absurd (omega arith)
skip_loop-pointer (suc fuel) buffer len pos h hd inside small = rw hd (ground arith)

skip_name-pointer :
    (buffer : List ℕ) (len pos : ℕ)
    → get_or buffer pos 0 ≡ 0xC0
    → pos < len
    → len < 65000
    → skip_name buffer len pos ≡ ok (pos + 2)
unfolding skip_name
skip_name-pointer buffer len pos hd inside small =
    ground (arith, skip_loop-pointer len buffer len pos (omega arith) hd inside small)

drop-append : (xs ys : List ℕ) (k : ℕ) → drop (length xs + k) (xs ++ ys) ≡ drop k ys
drop-append [] ys k = ap (λ n. drop n ys) (omega arith)
drop-append (x ∷ xs) ys k = rw (shift (length xs) k) (drop-append xs ys k)
  where
    shift : (n k : ℕ) → suc n + k ≡ suc (n + k)
    shift n k = omega arith

-- One record, whose name ends at `p`.
parse_answers-one :
    (buffer : List ℕ) (len pos p rdlength : ℕ) (r : Response)
    → pos < len
    → skip_name buffer len pos ≡ ok p
    → u16_at buffer (p + 8) ≡ rdlength
    → p + 10 + rdlength ≤ len
    → parse_answers 1 buffer len pos r
      ≡ ok (
          take_record buffer len
            (u16_at buffer p)
            (u32_at buffer (p + 4))
            (u16_at buffer (p + 8))
            (p + 10)
            r)
unfolding parse_answers
parse_answers-one buffer len pos p rdlength r inside skip size fits =
    let there = lt→ltb pos len inside in
    let header_fits : ltb len (p + 10) ≡ false = ground arith in
    let data_fits : ltb len (p + 10 + u16_at buffer (p + 8)) ≡ false = rw size (ground arith) in
    rw (there, skip, header_fits, data_fits) refl

-- A record for the name at offset 12: its time to live and the address.
abbrev pub record_of : ℕ → ℕ → ℕ → ℕ → ℕ → ℕ → ℕ → ℕ → List ℕ → List ℕ
record_of t1 t2 t3 t4 a b c d rest =
    0xC0 ∷ 0x0C ∷ 0 ∷ 1 ∷ 0 ∷ 1 ∷ t1 ∷ t2 ∷ t3 ∷ t4 ∷ 0 ∷ 4 ∷ a ∷ b ∷ c ∷ d ∷ rest

module _ (front : List ℕ) (t1 t2 t3 t4 a b c d : ℕ) (rest : List ℕ) where
  unfoldable pub packet : List ℕ
  packet = front ++ record_of t1 t2 t3 t4 a b c d rest

  at :
      (k : ℕ) → get_or packet (length front + k) 0 ≡ get_or (record_of t1 t2 t3 t4 a b c d rest) k 0
  unfolding packet
  at k = get_or-append front (record_of t1 t2 t3 t4 a b c d rest) k 0

  drop-address : drop (length front + 12) packet ≡ a ∷ b ∷ c ∷ d ∷ rest
  unfolding packet
  drop-address = drop-append front (record_of t1 t2 t3 t4 a b c d rest) 12

  at_index :
      (k i : ℕ)
      → i ≡ length front + k
      → get_or packet i 0 ≡ get_or (record_of t1 t2 t3 t4 a b c d rest) k 0
  at_index k i e = ap (λ n. get_or packet n 0) e ∙ at k

  -- The fields of the record.
  type_eq : u16_at packet (length front + 2) ≡ 1
  type_eq =
      ap₂ be16 (at_index 2 (length front + 2) refl)
        (at_index 3 (length front + 2 + 1) (omega arith))

  length_eq : u16_at packet (length front + 2 + 8) ≡ 4
  length_eq =
      ap₂ be16 (at_index 10 (length front + 2 + 8) (omega arith))
        (at_index 11 (length front + 2 + 8 + 1) (omega arith))

  ttl_eq : u32_at packet (length front + 2 + 4) ≡ (t1 * 256 + t2) * 2 ^ 16 + (t3 * 256 + t4)
  ttl_eq =
      ap₂ (λ high low. high * 2 ^ 16 + low)
        (ap₂ be16 (at_index 6 (length front + 2 + 4) (omega arith))
          (at_index 7 (length front + 2 + 4 + 1) (omega arith)))
        (ap₂ be16 (at_index 8 (length front + 2 + 4 + 2) (omega arith))
          (at_index 9 (length front + 2 + 4 + 2 + 1) (omega arith)))

  address_eq : take 4 (drop (length front + 2 + 10) packet) ≡ a ∷ b ∷ c ∷ d ∷ []
  address_eq =
      ap (λ n. take 4 (drop n packet)) {x = length front + 2 + 10} {y = length front + 12}
        (omega arith)
      ∙ ap (take 4) drop-address

  taken :
      (h : Header) (len : ℕ)
      → take_record packet len
          (u16_at packet (length front + 2))
          (u32_at packet (length front + 2 + 4))
          (u16_at packet (length front + 2 + 8))
          (length front + 2 + 10)
          (record { header = h; answer = none; cname = none })
        ≡ record {
          header = h;
          answer = some record {
            ttl = (t1 * 256 + t2) * 2 ^ 16 + (t3 * 256 + t4);
            ip_addr = a ∷ b ∷ c ∷ d ∷ [];
          };
          cname = none;
        }
  unfolding take_record
  taken h len =
      let none_yet : Response = record { header = h; answer = none; cname = none } in
      ap
        (λ t.
          take_record packet len t (u32_at packet (length front + 2 + 4))
            (u16_at packet (length front + 2 + 8)) (length front + 2 + 10) none_yet)
        type_eq
      ∙ ap
          (λ l.
            take_record packet len 1 (u32_at packet (length front + 2 + 4)) l
              (length front + 2 + 10) none_yet)
          length_eq
      ∙ ap₂
          (λ t ip. record {
            header = h;
            answer = some record { ttl = t; ip_addr = ip };
            cname = none;
          })
          ttl_eq address_eq

  -- The only record of the answer section.
  pub parse_answers-record :
      (h : Header) (len : ℕ)
      → len ≡ length front + 16
      → len < 65000
      → parse_answers 1 packet len
          (length front)
          (record { header = h; answer = none; cname = none })
        ≡ ok record {
          header = h;
          answer = some record {
            ttl = (t1 * 256 + t2) * 2 ^ 16 + (t3 * 256 + t4);
            ip_addr = a ∷ b ∷ c ∷ d ∷ [];
          };
          cname = none;
        }
  unfolding parse_answers
  parse_answers-record h len e small =
      let skip =
        skip_name-pointer packet len (length front) (at_index 0 (length front) (omega arith))
          (omega arith) small in
      parse_answers-one packet len (length front) (length front + 2) 4
        (record { header = h; answer = none; cname = none }) (omega arith) skip length_eq
        (omega arith)
      ∙ ap ok (taken h len)
