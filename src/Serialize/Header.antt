-- ===== src/Serialize/Header.antt =====
-- hirpdag/src/base/serialize.rs: the header of a binary archive, the version marker and the errors.
-- Bytes are numbers, and so are the characters of a name. postcard is a parameter: how it writes a
-- fingerprint, and how it reads one off the front of some bytes.
use hirpdag.Base.{
  ℕ, ◌≡◌, ◌↔◌, refl, Option, none, some, List, [], ◌∷◌, ◌++◌, ◌==◌, if◌then◌else◌, arith, Result,
  ok, err, and_then, map_err, ok_or, Option-cases, Result-cases, inl, inr, ap, ◌∙◌,
}

pub data HirpdagSerializeError (Message : Type 0) : Type 0 where
  session_active : HirpdagSerializeError Message
  format : Message → HirpdagSerializeError Message

pub data HirpdagDeserializeError (Message : Type 0) : Type 0 where
  bad_magic : HirpdagDeserializeError Message
  schema_mismatch :
      (expected_hash : ℕ) (expected_name : List ℕ) (found_hash : ℕ) (found_name : List ℕ)
      → HirpdagDeserializeError Message
  de_session_active : HirpdagDeserializeError Message
  de_format : Message → HirpdagDeserializeError Message

pub record HirpdagSchemaFingerprint : Type 0 where
  pub hash : ℕ
  pub name : List ℕ

-- `\x89HPDG\r\x1a\n`
abbrev pub hirpdag_magic : List ℕ
hirpdag_magic = 137 ∷ 72 ∷ 80 ∷ 68 ∷ 71 ∷ 13 ∷ 26 ∷ 10 ∷ []

abbrev pub hirpdag_format_version : ℕ
hirpdag_format_version = 1

-- `slice::strip_prefix`
unfoldable pub strip_prefix : List ℕ → List ℕ → Option (List ℕ)
strip_prefix bytes [] = some bytes
strip_prefix [] (m ∷ magic) = none
strip_prefix (b ∷ bytes) (m ∷ magic) =
    let rest = strip_prefix bytes magic in if b == m then rest else none

-- What is used of postcard, with messages of its own: reading back what was written, whatever
-- follows it.
pub record Postcard (Message : Type 0) : Type 0 where
  pub to_stdvec : HirpdagSchemaFingerprint → Result Message (List ℕ)
  pub take_from_bytes : List ℕ → Result Message (HirpdagSchemaFingerprint × List ℕ)
  pub take-to_stdvec :
      (fp : HirpdagSchemaFingerprint) (bytes rest : List ℕ)
      → to_stdvec fp ≡ ok bytes
      → take_from_bytes (bytes ++ rest) ≡ ok (fp, rest)

module _ {Message : Type 0} where
  unfoldable pub hirpdag_strip_magic : List ℕ → Result (HirpdagDeserializeError Message) (List ℕ)
  unfolding strip_prefix
  hirpdag_strip_magic bytes = ok_or bad_magic (strip_prefix bytes hirpdag_magic)

  -- `u32::deserialize` gave `version`; `unsupported` makes the message.
  unfoldable pub deserialize_version : (ℕ → Message) → ℕ → Result {0, 0} Message Unit
  deserialize_version unsupported version =
      if version == hirpdag_format_version then ok tt else err (unsupported version)

  unfoldable pub compare_fingerprints :
      HirpdagSchemaFingerprint
      → HirpdagSchemaFingerprint × List ℕ
      → Result (HirpdagDeserializeError Message) (List ℕ)
  compare_fingerprints expected (found, rest) =
      if found.hash == expected.hash
      then ok rest
      else err (schema_mismatch expected.hash expected.name found.hash found.name)

module _ {Message : Type 0} (postcard : Postcard Message) where
  unfoldable pub hirpdag_write_binary_header :
      HirpdagSchemaFingerprint → Result (HirpdagSerializeError Message) (List ℕ)
  hirpdag_write_binary_header fingerprint =
      and_then (map_err format (postcard.to_stdvec fingerprint)) λ fp. ok (hirpdag_magic ++ fp)

  unfoldable pub hirpdag_read_binary_header :
      List ℕ → HirpdagSchemaFingerprint → Result (HirpdagDeserializeError Message) (List ℕ)
  unfolding hirpdag_strip_magic compare_fingerprints
  hirpdag_read_binary_header bytes expected = and_then (hirpdag_strip_magic bytes) λ payload.
      and_then (map_err de_format (postcard.take_from_bytes payload))
        (compare_fingerprints expected)

  strip_prefix-append : (magic rest : List ℕ) → strip_prefix (magic ++ rest) magic ≡ some rest
  unfolding strip_prefix
  strip_prefix-append [] rest = refl
  strip_prefix-append (m ∷ magic) rest = ground (arith, strip_prefix-append magic rest)

  strip_prefix-inv :
      (bytes magic rest : List ℕ) → strip_prefix bytes magic ≡ some rest → bytes ≡ magic ++ rest
  unfolding strip_prefix
  strip_prefix-inv bytes [] rest e = cc
  strip_prefix-inv [] (m ∷ magic) rest e = cc
  strip_prefix-inv (b ∷ bytes) (m ∷ magic) rest e =
      ground (arith, strip_prefix-inv bytes magic rest)

  read_some :
      (bytes body : List ℕ) (expected : HirpdagSchemaFingerprint)
      → strip_prefix bytes hirpdag_magic ≡ some body
      → hirpdag_read_binary_header bytes expected
        ≡ and_then
            (map_err de_format (postcard.take_from_bytes body))
            (compare_fingerprints expected)
  unfolding hirpdag_read_binary_header hirpdag_strip_magic
  read_some bytes body expected e =
      ap
        (λ o. and_then (ok_or bad_magic o) λ payload.
          and_then (map_err de_format (postcard.take_from_bytes payload))
            (compare_fingerprints expected))
        e

  read_none :
      (bytes : List ℕ) (expected : HirpdagSchemaFingerprint)
      → strip_prefix bytes hirpdag_magic ≡ none
      → hirpdag_read_binary_header bytes expected ≡ err bad_magic
  unfolding hirpdag_read_binary_header hirpdag_strip_magic
  read_none bytes expected e =
      ap
        (λ o. and_then (ok_or bad_magic o) λ payload.
          and_then (map_err de_format (postcard.take_from_bytes payload))
            (compare_fingerprints expected))
        e

  -- The header that was written, before any payload, reads back to the payload if the two
  -- fingerprints have one hash, whatever their names; else the two fingerprints are reported.
  pub read-write_binary_header :
      (written expected : HirpdagSchemaFingerprint) (header payload : List ℕ)
      → hirpdag_write_binary_header written ≡ ok header
      → hirpdag_read_binary_header (header ++ payload) expected ≡ (
          if written.hash == expected.hash
          then ok payload
          else err (schema_mismatch expected.hash expected.name written.hash written.name))
  unfolding hirpdag_write_binary_header compare_fingerprints
  read-write_binary_header written expected header payload e =
      elim (Result-cases (postcard.to_stdvec written)) [
        | inl (fp, w) ↦
            let h : header ≡ hirpdag_magic ++ fp = ground (arith, w) in
            let r = postcard.take-to_stdvec written fp payload w in
            let s : strip_prefix (header ++ payload) hirpdag_magic ≡ some (fp ++ payload) =
              rw h (strip_prefix-append hirpdag_magic (fp ++ payload)) in
            read_some (header ++ payload) (fp ++ payload) expected s ∙ rw r refl
        | inr (m, w) ↦ ground (arith, w)
      ]

  -- A reader accepts exactly the bytes that start with the magic prefix and a fingerprint of the
  -- expected hash, and the payload is what follows.
  pub read_binary_header_iff :
      (bytes payload : List ℕ) (expected : HirpdagSchemaFingerprint)
      → (hirpdag_read_binary_header bytes expected ≡ ok payload) ↔ (
          (body : List ℕ) × (found : HirpdagSchemaFingerprint) × (bytes ≡ hirpdag_magic ++ body)
          × (postcard.take_from_bytes body ≡ ok (found, payload))
          × (found.hash ≡ expected.hash))
  unfolding compare_fingerprints
  read_binary_header_iff bytes payload expected = (
    (λ e. elim (Option-cases (strip_prefix bytes hirpdag_magic)) [
      | inl n ↦ let f = read_none bytes expected n in cc
      | inr (body, n) ↦
          let f = read_some bytes body expected n in
          elim (Result-cases (postcard.take_from_bytes body)) [
            | inl ((found, rest), t) ↦ (
              body,
              found,
              strip_prefix-inv bytes hirpdag_magic body n,
              ground (arith, e, f, t),
              ground (arith, e, f, t),
            )
            | inr (m, t) ↦ ground (arith, e, f, t)
          ]
    ]),
    (λ (body, found, b, t, h).
        let s : strip_prefix bytes hirpdag_magic ≡ some body =
          rw b (strip_prefix-append hirpdag_magic body) in
        read_some bytes body expected s ∙ rw t (ground arith)),
  )
