-- ===== src/Serialize/Entry.antt =====
-- The entry points `hirpdag_serialize`, `hirpdag_deserialize` and their JSON variants, as
-- hirpdag_derive/src/lib.rs generates them.
use hirpdag.Base.{ℕ, Option, none, some, List, ◌++◌, Result, ok, err, and_then, map_err}
use hirpdag.Serialize.Archive.{
  Thread, Interner, ArchiveWire, AnyArchive, Format, ser_open, ser_drop, de_open, de_drop,
  serialize_archive, deserialize_archive,
}
use hirpdag.Serialize.Collect.{hirpdag_collect_archive}
use hirpdag.Serialize.Header.{
  HirpdagSerializeError, HirpdagDeserializeError, HirpdagSchemaFingerprint, Postcard, format,
  de_format, hirpdag_write_binary_header, hirpdag_read_binary_header,
}
use hirpdag.Serialize.Wire.{FieldTypes, Message}
use hirpdag.Value.{Values}

module _ {St B : Type 0} where
  -- The guard is dropped on every way out once the session is open.
  unfoldable pub with_ser_session :
      List (ℕ × ℕ)
      → Thread St
      → (Thread St → Result (HirpdagSerializeError Message) B)
      → Result (HirpdagSerializeError Message) B × Thread St
  unfolding ser_open ser_drop
  with_ser_session index_map thread body = elim (ser_open index_map thread) [
    | err e ↦ (err e, thread)
    | ok thread' ↦ (body thread', ser_drop thread')
  ]

  unfoldable pub with_de_session :
      Thread St
      → (Thread St → Option (Result Message B × Thread St))
      → Option (Result (HirpdagDeserializeError Message) B × Thread St)
  unfolding de_open de_drop
  with_de_session thread body = elim (de_open thread) [
    | err e ↦ some (err e, thread)
    | ok thread' ↦ elim (body thread') [
      | none ↦ none
      | some (r, thread'') ↦ some (map_err de_format r, de_drop thread'')
    ]
  ]

module _ {St : Type 0} {schema : ℕ → FieldTypes} (interner : Interner schema St) where
  -- `hirpdag_serialize_json`; `none`, here and below, is fuel that is used up or a panic.
  unfoldable pub hirpdag_serialize_json :
      {Carries : ArchiveWire → Type 0} {B : Type 0}
      → Format Carries B
      → ℕ
      → Values
      → Thread St
      → Option (Result (HirpdagSerializeError Message) B × Thread St)
  unfolding with_ser_session hirpdag_collect_archive serialize_archive
  hirpdag_serialize_json json fuel roots thread =
      let nodes = interner.view thread.world in
      elim (hirpdag_collect_archive nodes fuel roots) [
        | none ↦ none
        | some (entries, index_map) ↦ some (
            with_ser_session index_map thread λ t. map_err format (
              and_then (serialize_archive nodes.creation_id t.ser_session entries roots)
                json.to_output))
      ]

  unfoldable pub hirpdag_serialize :
      Postcard Message
      → HirpdagSchemaFingerprint
      → Format AnyArchive (List ℕ)
      → ℕ
      → Values
      → Thread St
      → Option (Result (HirpdagSerializeError Message) (List ℕ) × Thread St)
  unfolding with_ser_session hirpdag_collect_archive serialize_archive hirpdag_write_binary_header
  hirpdag_serialize postcard fingerprint binary fuel roots thread =
      let nodes = interner.view thread.world in
      elim (hirpdag_collect_archive nodes fuel roots) [
        | none ↦ none
        | some (entries, index_map) ↦ some (
            with_ser_session index_map thread λ t.
              and_then
                (map_err format (
                  and_then (serialize_archive nodes.creation_id t.ser_session entries roots)
                    binary.to_output))
                λ payload.
                  and_then (hirpdag_write_binary_header postcard fingerprint)
                    λ bytes. ok (bytes ++ payload))
      ]

  module _ (root_types : FieldTypes) where
    unfoldable pub hirpdag_deserialize_json :
        {Carries : ArchiveWire → Type 0} {B : Type 0}
        → Format Carries B
        → B
        → Thread St
        → Option (Result (HirpdagDeserializeError Message) Values × Thread St)
    unfolding with_de_session deserialize_archive
    hirpdag_deserialize_json json input thread =
        with_de_session thread (deserialize_archive interner root_types (json.from_input input))

    unfoldable pub hirpdag_deserialize :
        Postcard Message
        → HirpdagSchemaFingerprint
        → Format AnyArchive (List ℕ)
        → List ℕ
        → Thread St
        → Option (Result (HirpdagDeserializeError Message) Values × Thread St)
    unfolding with_de_session deserialize_archive hirpdag_read_binary_header
    hirpdag_deserialize postcard fingerprint binary bytes thread =
        elim (hirpdag_read_binary_header postcard bytes fingerprint) [
          | err e ↦ some (err e, thread)
          | ok payload ↦
              with_de_session thread
                (deserialize_archive interner root_types (binary.from_input payload))
        ]
