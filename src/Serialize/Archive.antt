-- ===== src/Serialize/Archive.antt =====
-- The archive and the entry points that hirpdag_derive/src/lib.rs generates. A format (postcard,
-- serde_json) and the interning of the module's struct types are parameters.
use hirpdag.Base.{
  ℕ, suc, ◌≡◌, Option, none, some, List, [], ◌∷◌, ◌++◌, map, Result, ok, err, and_then, Returns,
}
use hirpdag.Serialize.Collect.{HirpdagArchiveNode}
use hirpdag.Serialize.Header.{
  HirpdagSerializeError, HirpdagDeserializeError, session_active, de_session_active,
  hirpdag_format_version, deserialize_version,
}
use hirpdag.Serialize.Nodes.{Nodes, IsDag, AllNodesIn}
use hirpdag.Serialize.Typed.{HasTypes}
use hirpdag.Serialize.Wire.{
  Wires, FieldTypes, Message, HirpdagNodeRef, unsupported_version, outside_de_session,
  serialize_each, deserialize_fields,
}
use hirpdag.Value.{Values}

-- an entry of the node table as it is written: the struct type and its fields
pub record NodeWire : Type 0 where
  pub node_type : ℕ
  pub field_wires : Wires

pub record ArchiveWire : Type 0 where
  pub version : ℕ
  pub node_wires : List NodeWire
  pub root_wires : Wires

-- What a format gives when an archive is read, in this order: each part, or an error in its place
pub record Decoded : Type 0 where
  pub version_read : Result Message ℕ
  pub nodes_read : List (Result Message NodeWire)
  pub roots_read : Result Message Wires

abbrev pub intact : ArchiveWire → Decoded
intact archive = record {
  version_read = ok archive.version;
  nodes_read = map ok archive.node_wires;
  roots_read = ok archive.root_wires;
}

-- postcard or serde_json, with its output type `B`: it reads back what it wrote, of the archives that it
-- carries.
pub record Format (Carries : ArchiveWire → Type 0) (B : Type 0) : Type 0 where
  pub to_output : ArchiveWire → Result Message B
  pub from_input : B → Decoded
  pub from-to :
      (archive : ArchiveWire) (b : B)
      → Carries archive
      → to_output archive ≡ ok b
      → from_input b ≡ intact archive

-- every archive, as postcard does
abbrev pub AnyArchive : ArchiveWire → Type 0
AnyArchive archive = Unit

-- No node is lost or changed.
pub record Keeps (before after : Nodes) : Type 0 where
  pub still_live : (t p : ℕ) → before.IsLive t p → after.IsLive t p
  pub same_fields : (t p : ℕ) → before.IsLive t p → after.fields t p ≡ before.fields t p

-- `HirpdagStruct::hirpdag_hashcons` of the struct types, with the field types `schema`, on a state `St` that has their tables: it
-- returns a live node that has the fields. `Valid n` is a state with creation ids left for `n`
-- more nodes.
pub record Interner (schema : ℕ → FieldTypes) (St : Type 0) : Type (0 + 1) where
  pub view : St → Nodes
  pub Valid : ℕ → St → Type 0
  pub valid_fewer : (n : ℕ) (st : St) → Valid (suc n) st → Valid n st
  pub valid-IsDag : (n : ℕ) (st : St) → Valid n st → IsDag (view st)
  pub valid-HasTypes :
      (n t p : ℕ) (st : St)
      → Valid n st
      → (view st).IsLive t p
      → HasTypes (schema t) ((view st).fields t p)
  pub valid_unique :
      (n t p q : ℕ) (st : St)
      → Valid n st
      → (view st).IsLive t p
      → (view st).IsLive t q
      → (view st).fields t p ≡ (view st).fields t q
      → p ≡ q
  pub hirpdag_hashcons : ℕ → Values → St → Option (ℕ × St)
  pub hashcons_lem :
      (n t : ℕ) (vs : Values) (st : St)
      → Valid (suc n) st
      → AllNodesIn ((view st).IsLive) vs
      → HasTypes (schema t) vs
      → Returns (hirpdag_hashcons t vs st) (λ r.
        Valid n r.1
        × (view r.1).IsLive t r.0
        × ((view r.1).fields t r.0 ≡ vs)
        × Keeps (view st) (view r.1))

-- a thread: its sessions, and the tables
pub record Thread (St : Type 0) : Type 0 where
  pub ser_session : Option (List (ℕ × ℕ))
  pub de_session : Option (List HirpdagNodeRef)
  pub world : St

module _ {St : Type 0} where
  unfoldable pub ser_open :
      List (ℕ × ℕ) → Thread St → Result (HirpdagSerializeError Message) (Thread St)
  ser_open index_map thread = elim (thread.ser_session) [
    | some active ↦ err session_active
    | none ↦ ok (record thread { ser_session = some index_map })
  ]

  unfoldable pub ser_drop : Thread St → Thread St
  ser_drop thread = record thread { ser_session = none }

  unfoldable pub de_open : Thread St → Result (HirpdagDeserializeError Message) (Thread St)
  de_open thread = elim (thread.de_session) [
    | some active ↦ err de_session_active
    | none ↦ ok (record thread { de_session = some [] })
  ]

  unfoldable pub de_drop : Thread St → Thread St
  de_drop thread = record thread { de_session = none }

module _ (creation_id : ℕ → ℕ → ℕ) (session : Option (List (ℕ × ℕ))) where
  unfoldable pub serialize_nodes : List HirpdagArchiveNode → Result Message (List NodeWire)
  unfolding serialize_each
  serialize_nodes [] = ok []
  serialize_nodes (entry ∷ entries) =
      and_then (serialize_each creation_id session entry.data_fields) λ xs.
        and_then (serialize_nodes entries)
          λ rest. ok (record { node_type = entry.struct_type; field_wires = xs } ∷ rest)

  unfoldable pub serialize_archive : List HirpdagArchiveNode → Values → Result Message ArchiveWire
  unfolding serialize_nodes
  serialize_archive entries roots = and_then (serialize_nodes entries) λ nodes.
      and_then (serialize_each creation_id session roots)
        λ xs. ok (record { version = hirpdag_format_version; node_wires = nodes; root_wires = xs })

module _ {St : Type 0} {schema : ℕ → FieldTypes} (interner : Interner schema St) where
  -- `visit_seq`; `none` is a panic of `hirpdag_hashcons`.
  unfoldable pub visit_seq :
      List (Result Message NodeWire) → Thread St → Option (Result {0, 0} Message Unit × Thread St)
  visit_seq [] thread = some (ok tt, thread)
  visit_seq (err message ∷ elements) thread = some (err message, thread)
  visit_seq (ok n ∷ elements) thread =
      elim (deserialize_fields thread.de_session (schema n.node_type) n.field_wires) [
        | err message ↦ some (err message, thread)
        | ok vs ↦ elim (interner.hirpdag_hashcons n.node_type vs thread.world) [
          | none ↦ none
          | some r ↦ elim (thread.de_session) [
            | none ↦ some (err outside_de_session, record thread { world = r.1 })
            | some nodes ↦ visit_seq elements (record thread {
              de_session = some (nodes ++ record { ref_struct = n.node_type; address = r.0 } ∷ []);
              world = r.1;
            })
          ]
        ]
      ]

  -- `HirpdagArchive::deserialize`
  unfoldable pub deserialize_archive :
      FieldTypes → Decoded → Thread St → Option (Result Message Values × Thread St)
  unfolding visit_seq deserialize_version
  deserialize_archive root_types decoded thread =
      elim (and_then decoded.version_read
        λ version. deserialize_version unsupported_version version) [
          | err message ↦ some (err message, thread)
          | ok u ↦ elim (visit_seq decoded.nodes_read thread) [
            | none ↦ none
            | some (err message, thread') ↦ some (err message, thread')
            | some (ok u', thread') ↦ some (
              (and_then decoded.roots_read
                  λ xs. deserialize_fields thread'.de_session root_types xs),
              thread',
            )
          ]
        ]
