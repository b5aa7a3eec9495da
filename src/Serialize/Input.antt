-- ===== src/Serialize/Input.antt =====
-- `hirpdag_deserialize_json` on input of any kind.
use hirpdag.Base.{
  ℕ, ◌+◌, ◌≡◌, refl, sym, ap, Option, none, some, List, [], length, Result, ok, err, and_then,
  map_err, map_err_ok, Returns, inl, inr, Result-cases,
}
use mathlib.Core.Path.{subst}
use hirpdag.Serialize.Archive.{
  Interner, Keeps, Thread, Decoded, ArchiveWire, Format, visit_seq, deserialize_archive, de_open,
  de_drop,
}
use hirpdag.Serialize.Entry.{hirpdag_deserialize_json, with_de_session}
use hirpdag.Serialize.Header.{
  HirpdagDeserializeError, de_session_active, de_format, deserialize_version,
}
use hirpdag.Serialize.Json.{thread_of}
use hirpdag.Serialize.Malformed.{AllLive, deserialize_fields-HasTypes}
use hirpdag.Serialize.Nodes.{AllNodesIn}
use hirpdag.Serialize.Typed.{HasTypes}
use hirpdag.Serialize.Visit.{reading}
use hirpdag.Serialize.Wire.{
  Wires, FieldTypes, HirpdagNodeRef, Message, deserialize_fields, unsupported_version,
}
use hirpdag.Value.{Values}
use hirpdag.Serialize.Safe.{Reads, unread, visit_seq-Reads}

module _ {St : Type 0} {schema : ℕ → FieldTypes} (interner : Interner schema St) where
  module _ (root_types : FieldTypes) where
    -- roots that were read, if any, are of live nodes and of the roots' types
    abbrev pub RootsLive : Result Message Values × Thread St → Type 0
    RootsLive x =
        (roots : Values)
        → x.0 ≡ ok roots
        → AllNodesIn (interner.view x.1.world).IsLive roots × HasTypes root_types roots

    archive_version :
        (decoded : Decoded) (thread : Thread St) (m : Message)
        → (and_then decoded.version_read λ v. deserialize_version unsupported_version v) ≡ err m
        → deserialize_archive interner root_types decoded thread ≡ some (err m, thread)
    unfolding deserialize_archive
    archive_version decoded thread m e = rw (deserialize_archive, e) refl

    archive_stop :
        (decoded : Decoded) (thread thread' : Thread St) (m : Message)
        → (and_then decoded.version_read λ v. deserialize_version unsupported_version v) ≡ ok tt
        → visit_seq interner decoded.nodes_read thread ≡ some (err m, thread')
        → deserialize_archive interner root_types decoded thread ≡ some (err m, thread')
    unfolding deserialize_archive
    archive_stop decoded thread thread' m e f = rw (deserialize_archive, e, f) refl

    archive_end :
        (decoded : Decoded) (thread thread' : Thread St)
        → (and_then decoded.version_read λ v. deserialize_version unsupported_version v) ≡ ok tt
        → visit_seq interner decoded.nodes_read thread ≡ some (ok tt, thread')
        → deserialize_archive interner root_types decoded thread
          ≡ some (
            (and_then decoded.roots_read λ xs. deserialize_fields thread'.de_session root_types xs),
            thread',
          )
    unfolding deserialize_archive
    archive_end decoded thread thread' e f = rw (deserialize_archive, e, f) refl

    roots_live :
        (left : ℕ) (ser : Option (List (ℕ × ℕ))) (st : St) (read : Result Message Wires)
        (thread : Thread St)
        → Reads interner left ser st thread
        → RootsLive
            ((and_then read λ xs. deserialize_fields thread.de_session root_types xs), thread)
    roots_live left ser st (err m) thread s roots e = cc
    roots_live left ser st (ok xs) thread s roots e =
        subst
          (λ t.
            deserialize_fields t.de_session root_types xs ≡ ok roots
            → AllNodesIn (interner.view t.world).IsLive roots × HasTypes root_types roots)
          (sym s.is_thread)
          (deserialize_fields-HasTypes (interner.view s.after) s.refs' s.all_live root_types xs
            roots)
          e

    abbrev Left : ℕ → Option (List (ℕ × ℕ)) → St → Result Message Values × Thread St → Type 0
    Left left ser st x = Reads interner left ser st x.1 × RootsLive x

    visited :
        (decoded : Decoded) (left : ℕ) (ser : Option (List (ℕ × ℕ))) (st : St)
        (thread thread' : Thread St) (r : Result {0, 0} Message Unit)
        → (and_then decoded.version_read λ v. deserialize_version unsupported_version v) ≡ ok tt
        → visit_seq interner decoded.nodes_read thread ≡ some (r, thread')
        → Reads interner left ser st thread'
        → Returns (deserialize_archive interner root_types decoded thread) (Left left ser st)
    visited decoded left ser st thread thread' (err m) e f s =
        ((err m, thread'), archive_stop decoded thread thread' m e f, (s, λ roots g. cc))
    visited decoded left ser st thread thread' (ok tt) e f s = (
      _,
      archive_end decoded thread thread' e f,
      (s, roots_live left ser st decoded.roots_read thread' s),
    )

    deserialize_archive-Left :
        (decoded : Decoded) (left : ℕ) (ser : Option (List (ℕ × ℕ))) (st : St)
        → interner.Valid (length decoded.nodes_read + left) st
        → Returns
            (deserialize_archive interner root_types decoded (reading ser [] st))
            (Left left ser st)
    deserialize_archive-Left decoded left ser st valid =
        let empty : AllLive (interner.view st) [] = λ i r e. cc in
        let version =
          and_then decoded.version_read λ v. deserialize_version unsupported_version v in
        elim (Result-cases version) [
          | inr (m, e) ↦ (
            (err m, reading ser [] st),
            archive_version decoded (reading ser [] st) m e,
            (unread interner (length decoded.nodes_read) left ser [] st valid empty, λ roots g. cc),
          )
          | inl (u, e) ↦
              let (r, run, s) =
                visit_seq-Reads interner decoded.nodes_read left ser [] st valid empty in
              visited decoded left ser st (reading ser [] st) r.1 r.0 e run s
        ]

    json_read_any :
        {Carries : ArchiveWire → Type 0} {B : Type 0} (json : Format Carries B) (b : B)
        (ser : Option (List (ℕ × ℕ))) (st : St) (x : Result Message Values × Thread St)
        → deserialize_archive interner root_types (json.from_input b) (reading ser [] st) ≡ some x
        → hirpdag_deserialize_json interner root_types json b (thread_of ser none st)
          ≡ some (map_err de_format x.0, de_drop x.1)
    unfolding hirpdag_deserialize_json with_de_session de_open
    json_read_any json b ser st x e = rw (hirpdag_deserialize_json, with_de_session, e) refl

    -- Where a thread and its tables are after any input
    pub record Handled (left : ℕ) (ser : Option (List (ℕ × ℕ))) (st : St)
        (x : Result (HirpdagDeserializeError Message) Values × Thread St) : Type 0 where
      pub after : St
      pub closed : x.1 ≡ thread_of ser none after
      pub valid : interner.Valid left after
      pub keeps : Keeps (interner.view st) (interner.view after)
      pub roots_live :
          (roots : Values)
          → x.0 ≡ ok roots
          → AllNodesIn (interner.view after).IsLive roots × HasTypes root_types roots

    -- On input of any kind, written or not, with creation ids left for its entries:
    -- `hirpdag_deserialize_json` returns roots or an error. It closes its session, no node that was
    -- there is lost, the tables stay valid, and roots that are returned are handles to live nodes, of
    -- the types that the fields ask for.
    pub deserialize_json-Handled :
        {Carries : ArchiveWire → Type 0} {B : Type 0} (json : Format Carries B) (b : B) (left : ℕ)
        (ser : Option (List (ℕ × ℕ))) (st : St)
        → interner.Valid (length (json.from_input b).nodes_read + left) st
        → Returns
            (hirpdag_deserialize_json interner root_types json b (thread_of ser none st))
            (Handled left ser st)
    unfolding de_drop
    deserialize_json-Handled json b left ser st valid =
        let (x, run, (s, live)) = deserialize_archive-Left (json.from_input b) left ser st valid in
        let at : x.1.world ≡ s.after = ap (λ t. t.world) s.is_thread in
        (
          _,
          json_read_any json b ser st x run,
          record {
            after = s.after;
            closed = ap de_drop s.is_thread;
            valid = s.valid;
            keeps = s.keeps;
            roots_live = λ roots e.
                subst (λ w. AllNodesIn (interner.view w).IsLive roots × HasTypes root_types roots)
                  at (live roots (map_err_ok de_format x.0 roots e));
          },
        )

    -- While a deserialization is going on, `hirpdag_deserialize_json` is refused with
    -- `SessionActive` and changes nothing.
    pub deserialize_json-active :
        {Carries : ArchiveWire → Type 0} {B : Type 0} (json : Format Carries B) (b : B)
        (ser : Option (List (ℕ × ℕ))) (active : List HirpdagNodeRef) (st : St)
        → hirpdag_deserialize_json interner root_types json b (thread_of ser (some active) st)
          ≡ some (err de_session_active, thread_of ser (some active) st)
    unfolding hirpdag_deserialize_json with_de_session de_open
    deserialize_json-active json b ser active st = refl
