-- ===== src/Tests/Schema.antt =====
-- The theorem on the name of a fingerprint, where the cut would fall into a character of two bytes; the
-- hash of one byte, and a field name.
use hirpdag.Base.{
  ℕ, zero, suc, ◌≤◌, ◌≡◌, ◌⊎◌, refl, true, List, [], ◌∷◌, ◌++◌, length, replicate, arith,
}
use hirpdag.Derive.Schema.{
  DataTypeEntry, fnv1a_64, full_name, schema_name, schema_name_max, ellipsis, to_snake_case, join,
  shorten, back_off, is_char_boundary, truncate,
}
use hirpdag.Derive.Schema.Names.{concat, IsChar, AllChars, Shortened, schema_name-Shortened}

-- 124 letters, and one more character
abbrev pkg : List ℕ
pkg = replicate 124 b'a' ++ 195 ∷ 169 ∷ []

abbrev types : List DataTypeEntry
types =
    record { type_name = b'N' ∷ b'o' ∷ []; is_struct = true; is_root = true; definition = [] } ∷ []

abbrev last_chars : List (List ℕ)
last_chars = (195 ∷ 169 ∷ []) ∷ (b':' ∷ []) ∷ (b'N' ∷ []) ∷ (b'o' ∷ []) ∷ []

abbrev chars : List (List ℕ)
chars = replicate 124 (b'a' ∷ []) ++ last_chars

full_name-chars : full_name pkg types ≡ concat chars
unfolding full_name join
full_name-chars = refl

letters-AllChars :
    (n : ℕ) (cs : List (List ℕ)) → AllChars cs → AllChars (replicate n (b'a' ∷ []) ++ cs)
letters-AllChars zero cs a = a
letters-AllChars (suc n) cs a = ((refl, tt, omega arith), letters-AllChars n cs a)

chars-AllChars : AllChars chars
chars-AllChars =
    let one : IsChar (b':' ∷ []) = (refl, tt, omega arith) in
    letters-AllChars 124 last_chars (
      (refl, (refl, tt), omega arith),
      (one, ((refl, tt, omega arith), ((refl, tt, omega arith), tt))),
    )

schema_name-Shortened_example :
    ((length (concat chars) ≤ schema_name_max) × (schema_name pkg types ≡ concat chars))
    ⊎ Shortened chars (schema_name pkg types)
schema_name-Shortened_example = schema_name-Shortened pkg types chars full_name-chars chars-AllChars

name_run : schema_name pkg types ≡ replicate 124 b'a' ++ ellipsis
unfolding schema_name full_name join shorten back_off is_char_boundary truncate
name_run = refl

hash_run : fnv1a_64 (b'a' ∷ []) ≡ 0xaf63dc4c8601ec8c
unfolding fnv1a_64
hash_run = refl

snake_run : to_snake_case (b'M' ∷ b's' ∷ b'A' ∷ []) ≡ b'm' ∷ b's' ∷ b'_' ∷ b'a' ∷ []
unfolding to_snake_case
snake_run = refl
