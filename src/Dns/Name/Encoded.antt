-- ===== src/Dns/Name/Encoded.antt =====
-- What _dns_encode_name writes for a valid host name, and that the decoder reads it back.
use wiznet_driver.Base.{ℕ, ◌+◌, ◌%◌, ◌≡◌, ◌<◌, ◌≤◌, refl, sym, ap}
use wiznet_driver.Base.{◌∙◌, arith, Bool, true, not, ltb, ◌==◌, ==_iff, ◌&&◌}
use wiznet_driver.Base.{if◌then◌else◌, some, List, [], ◌∷◌, ◌++◌, length, take, All}
use wiznet_driver.Base.{append-nil, append_assoc, length-append, Bool-cases, inl}
use wiznet_driver.Base.{inr, lt→ltb}
use wiznet_driver.Dns.Result.{ok}
use wiznet_driver.Dns.Name.{valid_from, is_valid_hostname, encode_from, encode_name, emit_label}

-- The labels of a name, and their wire form: each behind its length, and a zero at the end.
abbrev pub split : List ℕ → List ℕ → List (List ℕ)
split label [] = label ∷ []
split label (c ∷ cs) =
    let rest = split (if c == b'.' then [] else label ++ (c ∷ [])) cs in
    if c == b'.' then label ∷ rest else rest

abbrev pub wire : List (List ℕ) → List ℕ
wire [] = 0 ∷ []
wire (l ∷ ls) = length l ∷ (l ++ wire ls)

abbrev pub IsLabel : List ℕ → Type 0
IsLabel l = (0 < length l) × (length l ≤ 63)

take-all : (l : List ℕ) → take (length l) l ≡ l
take-all [] = refl
take-all (x ∷ l) = ap (λ r. x ∷ r) (take-all l)

emit_label-eq : (l r : List ℕ) → IsLabel l → emit_label l r ≡ length l ∷ (l ++ r)
emit_label-eq l r h = let e : length l % 256 ≡ length l = omega arith in rw (e, take-all l)

room : (b r : Bool) (n : ℕ) → (b && not (ltb 63 (n + 1)) && r) ≡ true → (n + 1 ≤ 63) × (r ≡ true)
room b r n h = ground arith

valid_from-labels :
    (label cs : List ℕ)
    → length label ≤ 63
    → valid_from (length label) cs ≡ true
    → All IsLabel (split label cs)
unfolding valid_from
valid_from-labels label [] hl v = ground arith
valid_from-labels label (c ∷ cs) hl v = elim (Bool-cases (c == b'.')) [
  | inl e ↦
      rw e
        (let v' = rw e at v in (ground arith, valid_from-labels [] cs (omega arith) (ground arith)))
  | inr e ↦ rw e (
      let v' = rw e at v in
      valid_from-labels (label ++ (c ∷ [])) cs
        (omega (arith, length-append label (c ∷ []), (room _ _ (length label) v').0))
        (ap (λ n. valid_from n cs) (omega (arith, length-append label (c ∷ [])))
          ∙ (room _ _ (length label) v').1))
]

encode_from-wire :
    (label cs : List ℕ)
    → All IsLabel (split label cs)
    → encode_from label cs ≡ ok (wire (split label cs))
unfolding encode_from
encode_from-wire label [] h = ground (arith, emit_label-eq label (0 ∷ []) h.0)
encode_from-wire label (c ∷ cs) h = elim (Bool-cases (c == b'.')) [
  | inl e ↦ rw e (
      let h' = rw e at h in
      ground (arith, encode_from-wire [] cs h'.1, emit_label-eq label (wire (split [] cs)) h'.0))
  | inr e ↦ rw e (let h' = rw e at h in encode_from-wire (label ++ (c ∷ [])) cs h')
]

-- What the encoder writes for a host name that it accepts: its labels in wire form.
pub encode_name-wire :
    (hostname : List ℕ)
    → is_valid_hostname hostname ≡ true
    → All IsLabel (split [] hostname)
      × (encode_name (some hostname) ≡ ok (wire (split [] hostname)))
unfolding encode_name is_valid_hostname
encode_name-wire hostname v =
    let labels = valid_from-labels [] hostname (omega arith) (ground arith) in
    (labels, rw v (encode_from-wire [] hostname labels))

-- The name that the labels make, added to a name so far.
abbrev add_label : List ℕ → List ℕ → List ℕ
add_label name l = (if ltb 0 (length name) then name ++ (b'.' ∷ []) else name) ++ l

abbrev pub join : List ℕ → List (List ℕ) → List ℕ
join name [] = name
join name (l ∷ ls) = join (add_label name l) ls

add_label-behind : (name l : List ℕ) → 0 < length name → add_label name l ≡ name ++ (b'.' ∷ l)
add_label-behind name l h = rw (lt→ltb 0 (length name) h) (append_assoc name (b'.' ∷ []) l)

-- Joining the labels of a name gives the name.
join-split_behind :
    (name label cs : List ℕ)
    → 0 < length name
    → join name (split label cs) ≡ name ++ (b'.' ∷ (label ++ cs))
join-split_behind name label [] h =
    add_label-behind name label h ∙ ap (λ r. name ++ (b'.' ∷ r)) (sym (append-nil label))
join-split_behind name label (c ∷ cs) h = elim (Bool-cases (c == b'.')) [
  | inl e ↦
      let behind = add_label-behind name label h in
      let dot = (==_iff c b'.').0 e in
      rw e (
        ap (λ n. join n (split [] cs)) behind
        ∙ join-split_behind (name ++ (b'.' ∷ label)) [] cs
            (omega (arith, length-append name (b'.' ∷ label)))
        ∙ append_assoc name (b'.' ∷ label) (b'.' ∷ cs)
        ∙ ap (λ d. name ++ (b'.' ∷ (label ++ (d ∷ cs)))) (sym dot))
  | inr e ↦ rw e (
      join-split_behind name (label ++ (c ∷ [])) cs h
      ∙ ap (λ r. name ++ (b'.' ∷ r)) (append_assoc label (c ∷ []) cs))
]

pub join-split :
    (label cs : List ℕ) → All IsLabel (split label cs) → join [] (split label cs) ≡ label ++ cs
join-split label [] h = sym (append-nil label)
join-split label (c ∷ cs) h = elim (Bool-cases (c == b'.')) [
  | inl e ↦
      let dot = (==_iff c b'.').0 e in
      rw e (join-split_behind label [] cs (rw e at h).0.0 ∙ ap (λ d. label ++ (d ∷ cs)) (sym dot))
  | inr e ↦ rw e (join-split (label ++ (c ∷ [])) cs (rw e at h) ∙ append_assoc label (c ∷ []) cs)
]

pub length-wire :
    (cs label : List ℕ) → length (wire (split label cs)) ≡ length label + length cs + 2
length-wire [] label = omega (arith, length-append label (0 ∷ []))
length-wire (c ∷ cs) label = elim (Bool-cases (c == b'.')) [
  | inl e ↦ rw e (omega (arith, length-append label (wire (split [] cs)), length-wire cs []))
  | inr e ↦ rw e (omega (arith, length-append label (c ∷ []), length-wire cs (label ++ (c ∷ []))))
]
