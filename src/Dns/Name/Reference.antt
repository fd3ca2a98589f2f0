-- ===== src/Dns/Name/Reference.antt =====
-- What a valid host name is, label by label, and that _dns_is_valid_hostname decides it.
use wiznet_driver.Base.{ℕ, ◌+◌, ◌≡◌, refl, ap, ap₂, ◌∙◌, arith, Bool, true, false, not}
use wiznet_driver.Base.{◌&&◌, ◌||◌, ltb, leb, ◌==◌, Bool-cases, inl, inr}
use wiznet_driver.Base.{List, [], ◌∷◌, ◌++◌, length, length-append}
use wiznet_driver.Dns.Name.{isalnum, valid_from, is_valid_hostname}
use wiznet_driver.Dns.Name.Encoded.{split}

-- A letter, a digit or a hyphen.
abbrev pub is_name_char : ℕ → Bool
is_name_char c = isalnum c || c == b'-'

abbrev pub are_name_chars : List ℕ → Bool
are_name_chars [] = true
are_name_chars (c ∷ cs) = is_name_char c && are_name_chars cs

-- What a label may begin with, and a label.
abbrev pub is_prefix : List ℕ → Bool
is_prefix l = leb (length l) 63 && are_name_chars l

abbrev pub is_label : List ℕ → Bool
is_label l = ltb 0 (length l) && is_prefix l

abbrev pub are_labels : List (List ℕ) → Bool
are_labels [] = true
are_labels (l ∷ ls) = is_label l && are_labels ls

-- Between 1 and 253 characters, and between the dots labels of 1 to 63 of them.
abbrev pub is_hostname : List ℕ → Bool
is_hostname name = ltb 0 (length name) && leb (length name) 253 && are_labels (split [] name)

chars-snoc :
    (l : List ℕ) (c : ℕ) → are_name_chars (l ++ (c ∷ [])) ≡ (are_name_chars l && is_name_char c)
chars-snoc [] c = and_true (is_name_char c)
  where
    and_true : (b : Bool) → (b && true) ≡ b
    and_true true = refl
    and_true false = refl
chars-snoc (x ∷ l) c = regroup (is_name_char x) (are_name_chars l) (is_name_char c) (chars-snoc l c)
  where
    regroup : (a b d : Bool) → {e : Bool} → e ≡ (b && d) → (a && e) ≡ ((a && b) && d)
    regroup true b d h = h
    regroup false b d h = refl

prefix-snoc :
    (l : List ℕ) (c : ℕ)
    → is_prefix (l ++ (c ∷ [])) ≡ (leb (length l + 1) 63 && (are_name_chars l && is_name_char c))
prefix-snoc l c =
    ap₂ (λ n b. leb n 63 && b) (length-append l (c ∷ []) ∙ omega arith) (chars-snoc l c)

-- Boolean steps of the two proofs below.
bad_label : (a p r : Bool) → p ≡ false → ((a && p) && r) ≡ false
bad_label true true r e = absurd (cc e)
bad_label true false r e = refl
bad_label false p r e = refl

bad_longer :
    (n : ℕ) (chars ok : Bool)
    → (leb n 63 && chars) ≡ false
    → (leb (n + 1) 63 && (chars && ok)) ≡ false
bad_longer n chars ok e = ground arith

-- A bad beginning of a label is not mended by what follows.
bad_prefix : (label cs : List ℕ) → is_prefix label ≡ false → are_labels (split label cs) ≡ false
bad_prefix label [] bad = bad_label (ltb 0 (length label)) (is_prefix label) true bad
bad_prefix label (c ∷ cs) bad = elim (Bool-cases (c == b'.')) [
  | inl e ↦ rw e (bad_label (ltb 0 (length label)) (is_prefix label) (are_labels (split [] cs)) bad)
  | inr e ↦ rw e (
      bad_prefix (label ++ (c ∷ [])) cs (
        prefix-snoc label c
        ∙ bad_longer (length label) (are_name_chars label) (is_name_char c) bad))
]

at_dot :
    (n : ℕ) (chars rest : Bool)
    → (leb n 63 && chars) ≡ true
    → (not (n == 0 || ltb 63 n) && rest) ≡ ((ltb 0 n && (leb n 63 && chars)) && rest)
at_dot n chars rest good = ground arith

at_end :
    (n : ℕ) (chars : Bool)
    → (leb n 63 && chars) ≡ true
    → (ltb 0 n && leb n 63) ≡ ((ltb 0 n && (leb n 63 && chars)) && true)
at_end n chars good = ground arith

-- A character that goes on with a good beginning, or makes it a bad one.
at_char :
    (n : ℕ) (chars ok rest labels : Bool)
    → (leb n 63 && chars) ≡ true
    → ((leb (n + 1) 63 && (chars && ok)) ≡ true → rest ≡ labels)
    → ((leb (n + 1) 63 && (chars && ok)) ≡ false → labels ≡ false)
    → (ok && not (ltb 63 (n + 1)) && rest) ≡ labels
at_char n chars ok rest labels good on bad = ground arith

valid_from-are_labels :
    (label cs : List ℕ)
    → is_prefix label ≡ true
    → valid_from (length label) cs ≡ are_labels (split label cs)
unfolding valid_from
valid_from-are_labels label [] good = at_end (length label) (are_name_chars label) good
valid_from-are_labels label (c ∷ cs) good = elim (Bool-cases (c == b'.')) [
  | inl e ↦ rw e (
      at_dot (length label) (are_name_chars label) (valid_from 0 cs) good
      ∙ ap (λ r. is_label label && r) (valid_from-are_labels [] cs refl))
  | inr e ↦ rw e (
      at_char (length label) (are_name_chars label) (is_name_char c)
        (valid_from (length label + 1) cs) (are_labels (split (label ++ (c ∷ [])) cs)) good
        (λ on.
          ap (λ n. valid_from n cs) (omega (arith, length-append label (c ∷ [])))
          ∙ valid_from-are_labels (label ++ (c ∷ [])) cs (prefix-snoc label c ∙ on))
        (λ bad. bad_prefix (label ++ (c ∷ [])) cs (prefix-snoc label c ∙ bad)))
]

-- _dns_is_valid_hostname decides, on every string, whether the name has between 1 and 253
-- characters and consists of labels of 1 to 63 letters, digits and hyphens with dots between them.
pub is_valid_hostname-is_hostname : (name : List ℕ) → is_valid_hostname name ≡ is_hostname name
unfolding is_valid_hostname
is_valid_hostname-is_hostname name =
    let same : valid_from 0 name ≡ are_labels (split [] name) =
      valid_from-are_labels [] name refl in
    ground (arith, same)
