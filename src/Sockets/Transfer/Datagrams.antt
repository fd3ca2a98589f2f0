-- ===== src/Sockets/Transfer/Datagrams.antt =====
-- Received datagrams: how they stand in a segment of the receive buffer, and that recvfrom takes
-- them off one by one.
use wiznet_driver.Base.{ℕ, suc, ◌+◌, ◌^◌, ◌≡◌, ◌<◌, refl, sym, ap, ap₂, ◌∙◌, arith}
use wiznet_driver.Base.{List, [], ◌∷◌, ◌++◌, append_assoc, length, length-append, take, get_or, All}
use wiznet_driver.Base.Bits.{be16, shr, low_bits}
use wiznet_driver.Memory.{Memory, Pointer, load, read_bytes, advance}
use wiznet_driver.Net.{Datagram}
use wiznet_driver.Driver.{Segment}
use wiznet_driver.Driver.Pending.{u16_bytes}

-- A datagram as the chip hands it over: the peer's address and port, the length, and the data.
abbrev pub datagram_bytes : Datagram → List ℕ
datagram_bytes d = d.peer_ip ++ (u16_bytes d.peer_port ++ (u16_bytes (length d.bytes) ++ d.bytes))

abbrev pub stream : List Datagram → List ℕ
stream [] = []
stream (d ∷ ds) = datagram_bytes d ++ stream ds

abbrev pub IsDatagram : Datagram → Type 0
IsDatagram d = (length d.peer_ip ≡ 4) × (d.peer_port < 2 ^ 16) × (length d.bytes < 2 ^ 16)

-- The segment holds these datagrams, behind three bytes.
pub record HoldsDatagrams (p : Pointer) (m : Memory) (g : Segment) (ds : List Datagram)
    : Type 0 where
  pub stored : load m (advance p (g.start_index + 3)) (length (stream ds)) ≡ stream ds
  pub ends : g.end_index ≡ g.start_index + 3 + length (stream ds)
  pub small : g.end_index < 2 ^ 16
  pub each : All IsDatagram ds

-- The parts of what was read.
read_bytes-parts :
    (xs ys : List ℕ) (f : ℕ → ℕ) (i : ℕ)
    → read_bytes f i (length (xs ++ ys)) ≡ xs ++ ys
    → (read_bytes f i (length xs) ≡ xs) × (read_bytes f (i + length xs) (length ys) ≡ ys)
unfolding read_bytes
read_bytes-parts [] ys f i e =
    (refl, ap (λ j. read_bytes f j (length ys)) {x = i + 0} {y = i} (omega arith) ∙ e)
read_bytes-parts (x ∷ xs) ys f i e =
    let rest = read_bytes-parts xs ys f (i + 1) (cc e) in
    (
      ap₂ ◌∷◌ (cc e) rest.0,
      ap (λ j. read_bytes f j (length ys)) {x = i + suc (length xs)} {y = i + 1 + length xs}
            (omega arith)
          ∙ rest.1,
    )

load-parts :
    (m : Memory) (p : Pointer) (i : ℕ) (xs ys : List ℕ)
    → load m (advance p i) (length (xs ++ ys)) ≡ xs ++ ys
    → (load m (advance p i) (length xs) ≡ xs)
      × (load m (advance p (i + length xs)) (length ys) ≡ ys)
unfolding load
load-parts m p i xs ys e =
    let (first, rest) = read_bytes-parts xs ys (m p.region) (p.offset + i) e in
    (
      first,
      ap (λ j. read_bytes (m p.region) j (length ys)) {x = p.offset + (i + length xs)}
            {y = p.offset + i + length xs} (omega arith)
          ∙ rest,
    )

-- The fields of a header.
header_fields :
    (ip : List ℕ) (p1 p0 l1 l0 : ℕ)
    → length ip ≡ 4
    → let head = ip ++ (p1 ∷ p0 ∷ l1 ∷ l0 ∷ []) in
      (take 4 head ≡ ip)
      × (get_or head 4 0 ≡ p1)
      × (get_or head 5 0 ≡ p0)
      × (get_or head 6 0 ≡ l1)
      × (get_or head 7 0 ≡ l0)
      × (length head ≡ 8)
header_fields (a ∷ b ∷ c ∷ d ∷ []) p1 p0 l1 l0 e = (refl, refl, refl, refl, refl, refl)
header_fields [] p1 p0 l1 l0 e = absurd (omega arith)
header_fields (a ∷ []) p1 p0 l1 l0 e = absurd (omega arith)
header_fields (a ∷ b ∷ []) p1 p0 l1 l0 e = absurd (omega arith)
header_fields (a ∷ b ∷ c ∷ []) p1 p0 l1 l0 e = absurd (omega arith)
header_fields (a ∷ b ∷ c ∷ d ∷ x ∷ xs) p1 p0 l1 l0 e = absurd (omega arith)

be16-u16_bytes : (v : ℕ) → v < 2 ^ 16 → be16 (low_bits (shr v 8) 8) (low_bits v 8) ≡ v
be16-u16_bytes v small = omega arith

abbrev pub head_of : Datagram → List ℕ
head_of d = d.peer_ip ++ (u16_bytes d.peer_port ++ u16_bytes (length d.bytes))

stream-head :
    (d : Datagram) (ds : List Datagram) → stream (d ∷ ds) ≡ head_of d ++ (d.bytes ++ stream ds)
stream-head d ds =
    append_assoc d.peer_ip (u16_bytes d.peer_port ++ (u16_bytes (length d.bytes) ++ d.bytes))
      (stream ds)
    ∙ sym (
        append_assoc d.peer_ip (u16_bytes d.peer_port ++ u16_bytes (length d.bytes))
          (d.bytes ++ stream ds))

module _ (p : Pointer) (m : Memory) (g : Segment) (d : Datagram) (ds : List Datagram)
    (h : HoldsDatagrams p m g (d ∷ ds)) where
  length-head_of : length (head_of d) ≡ 8
  length-head_of = omega (
    arith,
    length-append d.peer_ip (u16_bytes d.peer_port ++ u16_bytes (length d.bytes)),
    h.each.0.0,
  )

  pub length-stream : length (stream (d ∷ ds)) ≡ 8 + length d.bytes + length (stream ds)
  length-stream =
      ap length (stream-head d ds)
      ∙ omega (
        arith,
        length-head_of,
        length-append (head_of d) (d.bytes ++ stream ds),
        length-append d.bytes (stream ds),
      )

  -- The header, the data, and the rest of the segment.
  pub held_parts :
      (load m (advance p (g.start_index + 3)) 8 ≡ head_of d)
      × (load m (advance p (g.start_index + 3 + 8)) (length d.bytes) ≡ d.bytes)
      × (load m (advance p (g.start_index + 3 + 8 + length d.bytes)) (length (stream ds))
          ≡ stream ds)
  held_parts =
      let whole : load m (advance p (g.start_index + 3))
            (length (head_of d ++ (d.bytes ++ stream ds)))
          ≡ head_of d ++ (d.bytes ++ stream ds) =
        rw (← stream-head d ds) h.stored in
      let (first, behind) =
        load-parts m p (g.start_index + 3) (head_of d) (d.bytes ++ stream ds) whole in
      let at : load m (advance p (g.start_index + 3 + 8)) (length (d.bytes ++ stream ds))
          ≡ d.bytes ++ stream ds =
        rw length-head_of at behind in
      let (second, third) = load-parts m p (g.start_index + 3 + 8) d.bytes (stream ds) at in
      (rw length-head_of at first, second, third)

  -- What is left of the segment, with three bytes before it.
  abbrev pub left_of : Segment
  left_of = record g { start_index = g.start_index + 8 + length d.bytes }

  pub left_of-HoldsDatagrams : HoldsDatagrams p m left_of ds
  left_of-HoldsDatagrams = record {
    stored =
        ap (λ i. load m (advance p i) (length (stream ds)))
          {x = g.start_index + 8 + length d.bytes + 3} {y = g.start_index + 3 + 8 + length d.bytes}
          (omega arith)
        ∙ held_parts.2;
    ends = omega (arith, length-stream, h.ends);
    small = h.small;
    each = h.each.1;
  }

pub head_of_fields :
    (d : Datagram)
    → IsDatagram d
    → (take 4 (head_of d) ≡ d.peer_ip)
      × (be16 (get_or (head_of d) 4 0) (get_or (head_of d) 5 0) ≡ d.peer_port)
      × (be16 (get_or (head_of d) 6 0) (get_or (head_of d) 7 0) ≡ length d.bytes)
head_of_fields d (four, port, size) =
    let n = length d.bytes in
    let (ip, p1, p0, l1, l0, _) =
      header_fields d.peer_ip (low_bits (shr d.peer_port 8) 8) (low_bits d.peer_port 8)
        (low_bits (shr n 8) 8) (low_bits n 8) four in
    (ip, ap₂ be16 p1 p0 ∙ be16-u16_bytes d.peer_port port, ap₂ be16 l1 l0 ∙ be16-u16_bytes n size)
