-- ===== src/Tests/Header.antt =====
-- The theorem on the header of binary archives, over a format that writes the hash, the length of
-- the name and the name.
use hirpdag.Base.{
  ℕ, zero, suc, ◌≡◌, ◌↔◌, refl, ap, Option, none, some, List, [], ◌∷◌, ◌++◌, ok, err, Result,
  length,
}
use hirpdag.Serialize.Header.{
  HirpdagSchemaFingerprint, Postcard, hirpdag_magic, hirpdag_read_binary_header,
  read_binary_header_iff,
}
use hirpdag.Serialize.Wire.{Message, other_format_error}

-- the first `n` bytes, and what follows them
abbrev pub split : ℕ → List ℕ → Option (List ℕ × List ℕ)
split zero bytes = some ([], bytes)
split (suc n) [] = none
split (suc n) (b ∷ bytes) = elim (split n bytes) [
  | none ↦ none
  | some (front, rest) ↦ some (b ∷ front, rest)
]

pub split-append : (name rest : List ℕ) → split (length name) (name ++ rest) ≡ some (name, rest)
split-append [] rest = refl
split-append (b ∷ name) rest = rw (split-append name rest) refl

abbrev pub write_fingerprint : HirpdagSchemaFingerprint → Result Message (List ℕ)
write_fingerprint fp = ok (fp.hash ∷ length fp.name ∷ fp.name)

abbrev pub name_after :
    ℕ → Option (List ℕ × List ℕ) → Result Message (HirpdagSchemaFingerprint × List ℕ)
name_after h none = err other_format_error
name_after h (some (name, rest)) = ok (record { hash = h; name = name }, rest)

abbrev pub read_fingerprint : List ℕ → Result Message (HirpdagSchemaFingerprint × List ℕ)
read_fingerprint (h ∷ n ∷ bytes) = name_after h (split n bytes)
read_fingerprint _ = err other_format_error

pub read-write_fingerprint :
    (fp : HirpdagSchemaFingerprint) (bytes rest : List ℕ)
    → write_fingerprint fp ≡ ok bytes
    → read_fingerprint (bytes ++ rest) ≡ ok (fp, rest)
read-write_fingerprint fp bytes rest e =
    let b : bytes ≡ fp.hash ∷ length fp.name ∷ fp.name = cc in
    rw b (ap (name_after fp.hash) (split-append fp.name rest))

abbrev pub postcard : Postcard Message
postcard = record {
  to_stdvec = write_fingerprint;
  take_from_bytes = read_fingerprint;
  take-to_stdvec = read-write_fingerprint;
}

abbrev one : HirpdagSchemaFingerprint
one = record { hash = 7; name = 97 ∷ [] }

read_binary_header_iff_example :
    (hirpdag_read_binary_header postcard (hirpdag_magic ++ (7 ∷ 1 ∷ 97 ∷ 3 ∷ [])) one ≡ ok (3 ∷ []))
    ↔ ((body : List ℕ) × (found : HirpdagSchemaFingerprint) × (hirpdag_magic
            ++ (7 ∷ 1 ∷ 97 ∷ 3 ∷ [])
          ≡ hirpdag_magic ++ body)
        × (postcard.take_from_bytes body ≡ ok (found, 3 ∷ []))
        × (found.hash ≡ 7))
read_binary_header_iff_example =
    read_binary_header_iff postcard (hirpdag_magic ++ (7 ∷ 1 ∷ 97 ∷ 3 ∷ [])) (3 ∷ []) one
