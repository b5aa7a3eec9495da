-- ===== src/Derive/Schema/Names.antt =====
-- The name in a schema fingerprint is cut off between two characters.
use hirpdag.Base.{
  ℕ, zero, suc, ◌+◌, ◌-◌, ◌<◌, ◌≤◌, ◌≡◌, ◌⊎◌, refl, sym, ap, ◌∙◌, true, false, not, List, [], ◌∷◌,
  ◌++◌, append_assoc, length, get_elem?, some, ltb, arith, inl, inr,
}
use native.Mathlib.Decide.{dec_lt}
use hirpdag.Derive.Schema.{
  goes_on, is_char_boundary, back_off, truncate, DataTypeEntry, schema_name_max, ellipsis, shorten,
  full_name, schema_name,
}

-- The bytes of a text that is made of these characters
abbrev pub concat : List (List ℕ) → List ℕ
concat [] = []
concat (c ∷ cs) = c ++ concat cs

abbrev AllGoOn : List ℕ → Type 0
AllGoOn [] = Unit
AllGoOn (b ∷ bs) = (goes_on b ≡ true) × AllGoOn bs

-- one byte that starts a character, and up to three that go on with it
abbrev pub IsChar : List ℕ → Type 0
IsChar [] = ⊥
IsChar (b ∷ bs) = (goes_on b ≡ false) × AllGoOn bs × (length bs ≤ 3)

abbrev pub AllChars : List (List ℕ) → Type 0
AllChars [] = Unit
AllChars (c ∷ cs) = IsChar c × AllChars cs

length-append : (xs ys : List ℕ) → length (xs ++ ys) ≡ length xs + length ys
length-append [] ys = omega arith
length-append (x ∷ xs) ys = omega (arith, length-append xs ys)

truncate-append : (xs ys : List ℕ) → truncate (length xs) (xs ++ ys) ≡ xs
unfolding truncate
truncate-append [] ys = refl
truncate-append (x ∷ xs) ys = ap (λ l. x ∷ l) (truncate-append xs ys)

get_elem?-append_left :
    (xs ys : List ℕ) (i : ℕ) → i < length xs → get_elem? (xs ++ ys) i ≡ get_elem? xs i
get_elem?-append_left [] ys i h = absurd (omega arith)
get_elem?-append_left (x ∷ xs) ys zero h = refl
get_elem?-append_left (x ∷ xs) ys (suc i) h = get_elem?-append_left xs ys i (omega arith)

get_elem?-append_right :
    (xs ys : List ℕ) (i : ℕ) → get_elem? (xs ++ ys) (length xs + i) ≡ get_elem? ys i
get_elem?-append_right [] ys i = ap (get_elem? ys) (omega arith)
get_elem?-append_right (x ∷ xs) ys i =
    let e : suc (length xs) + i ≡ suc (length xs + i) = omega arith in
    rw e (get_elem?-append_right xs ys i)

get_elem?-append_end : (xs ys : List ℕ) → get_elem? (xs ++ ys) (length xs) ≡ get_elem? ys 0
get_elem?-append_end [] ys = refl
get_elem?-append_end (x ∷ xs) ys = get_elem?-append_end xs ys

get_elem?-GoOn :
    (bs : List ℕ) (i : ℕ)
    → AllGoOn bs
    → i < length bs
    → (b : ℕ) × (get_elem? bs i ≡ some b) × (goes_on b ≡ true)
get_elem?-GoOn [] i a h = absurd (omega arith)
get_elem?-GoOn (b ∷ bs) zero a h = (b, refl, a.0)
get_elem?-GoOn (b ∷ bs) (suc i) a h = get_elem?-GoOn bs i a.1 (omega arith)

within_char :
    (c r : List ℕ) (i : ℕ) → IsChar c → suc i < length c → is_char_boundary (c ++ r) (suc i) ≡ false
unfolding is_char_boundary
within_char [] r i h lt = absurd h
within_char (b ∷ bs) r i h lt =
    let (byte, e, on) = get_elem?-GoOn bs i h.1 (omega arith) in
    let e' = get_elem?-append_left bs r i (omega arith) ∙ e in rw (is_char_boundary, e') (ap not on)

after_char :
    (c : List ℕ) (cs : List (List ℕ))
    → IsChar c
    → AllChars cs
    → is_char_boundary (c ++ concat cs) (length c) ≡ true
unfolding is_char_boundary
after_char [] cs h a = absurd h
after_char (b ∷ bs) [] h a =
    rw (is_char_boundary, get_elem?-append_end bs []) (ground (arith, length-append bs []))
after_char (b ∷ bs) ([] ∷ cs) h a = absurd a.0
after_char (b ∷ bs) ((d ∷ ds) ∷ cs) h a =
    rw (is_char_boundary, get_elem?-append_end bs (d ∷ (ds ++ concat cs))) (ap not (a.0.0))

beyond_char :
    (c r : List ℕ) (i : ℕ)
    → is_char_boundary (c ++ r) (suc (length c + i)) ≡ is_char_boundary r (suc i)
unfolding is_char_boundary
beyond_char c r i =
    let n : length c + suc i ≡ suc (length c + i) = omega arith in
    let e : get_elem? (c ++ r) (suc (length c + i)) ≡ get_elem? r (suc i) =
      ap (get_elem? (c ++ r)) (sym n) ∙ get_elem?-append_right c r (suc i) in
    ground (arith, e, length-append c r)

back_off-within : (c r : List ℕ) (i : ℕ) → IsChar c → i < length c → back_off (c ++ r) i ≡ 0
unfolding back_off
back_off-within c r zero h lt = refl
back_off-within c r (suc i) h lt =
    rw (within_char c r i h lt) (back_off-within c r i h (omega arith))

back_off-beyond :
    (c : List ℕ) (cs : List (List ℕ)) (i : ℕ)
    → IsChar c
    → AllChars cs
    → back_off (c ++ concat cs) (length c + i) ≡ length c + back_off (concat cs) i
unfolding back_off
back_off-beyond [] cs i h a = absurd h
back_off-beyond (b ∷ bs) cs zero h a =
    let e : suc (length bs) + 0 ≡ suc (length bs) = omega arith in
    rw (e) (rw (after_char (b ∷ bs) cs h a) refl)
back_off-beyond (b ∷ bs) cs (suc i) h a =
    let e : suc (length bs) + suc i ≡ suc (suc (length bs) + i) = omega arith in
    rw e (ground (arith, beyond_char (b ∷ bs) (concat cs) i, back_off-beyond (b ∷ bs) cs i h a))

IsChar-short : (c : List ℕ) → IsChar c → length c ≤ 4
IsChar-short [] h = absurd h
IsChar-short (b ∷ bs) h = omega (arith, h.2)

-- The cut falls between two characters, at most three bytes back.
record Cut (cs : List (List ℕ)) (cut : ℕ) : Type 0 where
  front : List (List ℕ)
  back : List (List ℕ)
  whole : cs ≡ front ++ back
  at : back_off (concat cs) cut ≡ length (concat front)
  below : length (concat front) ≤ cut
  near : cut ≤ length (concat front) + 3

back_off-Cut : (cs : List (List ℕ)) (cut : ℕ) → AllChars cs → cut ≤ length (concat cs) → Cut cs cut
unfolding back_off
back_off-Cut [] cut a h =
    let e : cut ≡ 0 = omega arith in
    record {
      front = [];
      back = [];
      whole = refl;
      at = rw e refl;
      below = omega arith;
      near = omega arith;
    }
back_off-Cut (c ∷ cs) cut a h = elim (dec_lt cut (length c)) [
  | yes inside ↦ record {
    front = [];
    back = c ∷ cs;
    whole = refl;
    at = back_off-within c (concat cs) cut a.0 inside;
    below = omega arith;
    near = omega (arith, IsChar-short c a.0);
  }
  | no past ↦
      let i = cut - length c in
      let e : length c + i ≡ cut = omega arith in
      let k = back_off-Cut cs i a.1 (omega (arith, length-append c (concat cs))) in
      record {
        front = c ∷ k.front;
        back = k.back;
        whole = ap (λ l. c ∷ l) k.whole;
        at =
            ap (back_off (c ++ concat cs)) (sym e)
            ∙ back_off-beyond c cs i a.0 a.1
            ∙ ap (λ n. length c + n) k.at
            ∙ sym (length-append c (concat k.front));
        below = omega (arith, k.below, length-append c (concat k.front));
        near = omega (arith, k.near, length-append c (concat k.front));
      }
]

concat-append : (cs ds : List (List ℕ)) → concat (cs ++ ds) ≡ concat cs ++ concat ds
concat-append [] ds = refl
concat-append (c ∷ cs) ds =
    ap (λ l. c ++ l) (concat-append cs ds) ∙ sym (append_assoc c (concat cs) (concat ds))

truncated :
    (cs front back : List (List ℕ))
    → cs ≡ front ++ back
    → truncate (length (concat front)) (concat cs) ≡ concat front
truncated cs front back e =
    ap (λ l. truncate (length (concat front)) (concat l)) e
    ∙ ap (truncate (length (concat front))) (concat-append front back)
    ∙ truncate-append (concat front) (concat back)

-- what a name of the characters `cs` becomes
pub record Shortened (cs : List (List ℕ)) (name : List ℕ) : Type 0 where
  pub front : List (List ℕ)
  pub back : List (List ℕ)
  pub whole : cs ≡ front ++ back
  pub cut_off : name ≡ concat front ++ ellipsis
  pub fits : length name ≤ schema_name_max
  pub long : schema_name_max ≤ length name + 3

-- The name in a fingerprint, of valid UTF-8 text, has at most 128 bytes. If the full name has no more, it is
-- the full name; else it is whole characters of the full name, as many as fit but for at most
-- three bytes, and an ellipsis.
pub schema_name-Shortened :
    (pkg : List ℕ) (types : List DataTypeEntry) (cs : List (List ℕ))
    → full_name pkg types ≡ concat cs
    → AllChars cs
    → ((length (concat cs) ≤ schema_name_max) × (schema_name pkg types ≡ concat cs))
      ⊎ Shortened cs (schema_name pkg types)
unfolding schema_name shorten
schema_name-Shortened pkg types cs e a = elim (dec_lt schema_name_max (length (concat cs))) [
  | no short ↦
      let f : ltb schema_name_max (length (concat cs)) ≡ false = ground (arith, short) in
      inl (omega (arith, short), rw e (rw f refl))
  | yes over ↦
      let f : ltb schema_name_max (length (concat cs)) ≡ true = ground (arith, over) in
      let k = back_off-Cut cs 125 a (omega (arith, over)) in
      let cut : schema_name pkg types ≡ concat k.front ++ ellipsis = rw e (
        rw f (
          ap (λ n. truncate n (concat cs) ++ ellipsis) k.at
          ∙ ap (λ l. l ++ ellipsis) (truncated cs k.front k.back k.whole))) in
      let n = length-append (concat k.front) ellipsis in
      inr (record {
        front = k.front;
        back = k.back;
        whole = k.whole;
        cut_off = cut;
        fits = rw cut (omega (arith, n, k.below));
        long = rw cut (omega (arith, n, k.near));
      })
]
