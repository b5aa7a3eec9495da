-- ===== src/Serialize/Json.antt =====
-- `hirpdag_serialize_json` and `hirpdag_deserialize_json`: what is written, and that it reads back.
use hirpdag.Base.{
  ℕ, ◌+◌, ◌≡◌, refl, ◌∙◌, ap, Option, none, some, List, [], length, arith, Result, ok, err,
  and_then, map_err, map_err_ok, Returns,
}
use mathlib.Core.Path.{subst}
use hirpdag.Serialize.Archive.{
  Interner, ArchiveWire, Format, Keeps, Thread, serialize_archive, deserialize_archive, intact,
  ser_open, ser_drop, de_open, de_drop,
}
use hirpdag.Serialize.Collect.{HirpdagArchiveNode, hirpdag_collect_archive}
use hirpdag.Serialize.Collected.{IndexBelow, IsCollected, Child}
use hirpdag.Serialize.Entry.{
  with_ser_session, with_de_session, hirpdag_serialize_json, hirpdag_deserialize_json,
}
use hirpdag.Serialize.Header.{
  HirpdagSerializeError, HirpdagDeserializeError, format, de_format, session_active,
}
use hirpdag.Serialize.Flat.{AllFlat, IsPlainArchive, archive_of-IsPlainArchive}
use hirpdag.Serialize.Nodes.{AllNodesIn, Trees, DenoteAll}
use hirpdag.Serialize.Ordered.{collect_archive-IsCollected}
use hirpdag.Serialize.Typed.{HasTypes}
use hirpdag.Serialize.Visit.{reading}
use hirpdag.Serialize.Wire.{HirpdagNodeRef, FieldTypes, Message}
use hirpdag.Value.{Values}
use hirpdag.Serialize.RoundTrip.{archive_of, serialize_archive_lem, deserialize_archive-ReadBack}

abbrev pub thread_of :
    {St : Type 0} → Option (List (ℕ × ℕ)) → Option (List HirpdagNodeRef) → St → Thread St
thread_of ser de st = record { ser_session = ser; de_session = de; world = st }

module _ {St B : Type 0} {Carries : ArchiveWire → Type 0} {schema : ℕ → FieldTypes}
    (writer : Interner schema St) (json : Format Carries B) (fuel : ℕ) (roots : Values) (st : St)
    (ids : ℕ) (valid : writer.Valid ids st)
    (below : AllNodesIn (Child (writer.view st) fuel) roots) where
  -- What is written, if no serialization is going on: the archive of the node table that the collect
  -- phase makes. The session is closed again, also where the format fails.
  pub record Written (de : Option (List HirpdagNodeRef))
      (r : Result (HirpdagSerializeError Message) B × Thread St) : Type 0 where
    pub seen : List (ℕ × ℕ)
    pub entries : List HirpdagArchiveNode
    pub collected_run : hirpdag_collect_archive (writer.view st) fuel roots ≡ some (entries, seen)
    pub collected : IsCollected (writer.view st) seen entries
    pub reached : AllNodesIn (IndexBelow (writer.view st) seen (length entries)) roots
    pub output :
        r.0 ≡ map_err format (json.to_output (archive_of (writer.view st) entries seen roots))
    pub closed : r.1 ≡ thread_of none de st

  json_run :
      (ser : Option (List (ℕ × ℕ))) (de : Option (List HirpdagNodeRef))
      (entries : List HirpdagArchiveNode) (seen : List (ℕ × ℕ))
      → hirpdag_collect_archive (writer.view st) fuel roots ≡ some (entries, seen)
      → hirpdag_serialize_json writer json fuel roots (thread_of ser de st)
        ≡ some (
            with_ser_session seen (thread_of ser de st) λ t. map_err format (
              and_then
                (serialize_archive (writer.view st).creation_id t.ser_session entries roots)
                json.to_output))
  unfolding hirpdag_serialize_json
  json_run ser de entries seen e = rw (hirpdag_serialize_json, e) refl

  -- With the fuel above the creation ids of the roots, and no serialization going on,
  -- `hirpdag_serialize_json` returns the format's output for an archive that has each node once,
  -- children first, and leaves the thread as it was.
  pub hirpdag_serialize_json-Written :
      (de : Option (List HirpdagNodeRef))
      → Returns (hirpdag_serialize_json writer json fuel roots (thread_of none de st)) (Written de)
  unfolding with_ser_session ser_open ser_drop
  hirpdag_serialize_json-Written de =
      let nodes = writer.view st in
      let ((entries, seen), run, (k, reached)) =
        collect_archive-IsCollected nodes (writer.valid-IsDag ids st valid) fuel roots below in
      let e = serialize_archive_lem nodes seen entries roots k reached in
      (
        (
          map_err format (json.to_output (archive_of nodes entries seen roots)),
          thread_of none de st,
        ),
        json_run none de entries seen run ∙ rw e refl,
        record {
          seen = seen;
          entries = entries;
          collected_run = run;
          collected = k;
          reached = reached;
          output = refl;
          closed = refl;
        },
      )

  -- While a serialization is going on, and with the fuel above the creation ids of the roots,
  -- `hirpdag_serialize_json` is refused with `SessionActive` and changes nothing.
  hirpdag_serialize_json-active :
      (active : List (ℕ × ℕ)) (de : Option (List HirpdagNodeRef))
      → hirpdag_serialize_json writer json fuel roots (thread_of (some active) de st)
        ≡ some (err session_active, thread_of (some active) de st)
  unfolding with_ser_session ser_open
  hirpdag_serialize_json-active active de =
      let ((entries, seen), run, post) =
        collect_archive-IsCollected (writer.view st) (writer.valid-IsDag ids st valid) fuel roots
          below in
      json_run (some active) de entries seen run

module _ {St St' B : Type 0} {Carries : ArchiveWire → Type 0} {schema : ℕ → FieldTypes}
    (writer : Interner schema St) (reader : Interner schema St') (root_types : FieldTypes)
    (json : Format Carries B) (fuel : ℕ) (roots : Values) (st : St) (ids : ℕ)
    (valid : writer.Valid ids st) (below : AllNodesIn (Child (writer.view st) fuel) roots)
    (roots_typed : HasTypes root_types roots) where
  -- What the reader has: roots that stand for the trees of the written ones, and all that it had.
  pub record Restored (left : ℕ) (ser : Option (List (ℕ × ℕ))) (st' : St') (ts : Trees)
      (r : Result (HirpdagDeserializeError Message) Values × Thread St') : Type 0 where
    pub roots' : Values
    pub after : St'
    pub result : r ≡ (ok roots', thread_of ser none after)
    pub same_trees : DenoteAll (reader.view after) roots' ts
    pub valid' : reader.Valid left after
    pub keeps : Keeps (reader.view st') (reader.view after)

  json_read :
      (b : B) (ser : Option (List (ℕ × ℕ))) (st' : St') (x : Result Message Values × Thread St')
      → deserialize_archive reader root_types (json.from_input b) (reading ser [] st') ≡ some x
      → hirpdag_deserialize_json reader root_types json b (thread_of ser none st')
        ≡ some (map_err de_format x.0, de_drop x.1)
  unfolding hirpdag_deserialize_json with_de_session de_open
  json_read b ser st' x e = rw (hirpdag_deserialize_json, with_de_session, e) refl

module _ {St St' B : Type 0} {schema : ℕ → FieldTypes} (writer : Interner schema St)
    (reader : Interner schema St') (root_types : FieldTypes) (json : Format IsPlainArchive B)
    (fuel : ℕ) (roots : Values) (st : St) (ids : ℕ) (valid : writer.Valid ids st)
    (below : AllNodesIn (Child (writer.view st) fuel) roots)
    (roots_typed : HasTypes root_types roots) (flat : (t : ℕ) → AllFlat (schema t))
    (roots_flat : AllFlat root_types) where
  -- If no field has an `Option` of an `Option` as its type, then what `hirpdag_serialize_json` wrote,
  -- `hirpdag_deserialize_json` reads back, in this process or in another, with creation ids left for the written nodes, as roots that stand for the same trees; no node that was there is lost, and the session
  -- is closed.
  pub deserialize_json-serialize_json :
      (left : ℕ) (b : B) (entries : List HirpdagArchiveNode) (seen : List (ℕ × ℕ))
      (de : Option (List HirpdagNodeRef)) (ser : Option (List (ℕ × ℕ))) (t : Thread St) (st' : St')
      (ts : Trees)
      → hirpdag_serialize_json writer json fuel roots (thread_of none de st) ≡ some (ok b, t)
      → hirpdag_collect_archive (writer.view st) fuel roots ≡ some (entries, seen)
      → reader.Valid (length entries + left) st'
      → DenoteAll (writer.view st) roots ts
      → Returns (hirpdag_deserialize_json reader root_types json b (thread_of ser none st')) (
          Restored writer reader root_types json fuel roots st ids valid below roots_typed left ser
            st' ts)
  unfolding de_drop
  deserialize_json-serialize_json left b entries seen de ser t st' ts e collected valid' ds =
      let nodes = writer.view st in
      let (r, run, w) =
        hirpdag_serialize_json-Written writer json fuel roots st ids valid below de in
      let archive = archive_of nodes w.entries w.seen roots in
      let same : entries ≡ w.entries = ground (arith, w.collected_run) in
      let wrote : json.to_output archive ≡ ok b =
        map_err_ok format (json.to_output archive) b (ground (arith, w.output, run, e)) in
      let read : json.from_input b ≡ intact archive =
        json.from-to archive b
          (archive_of-IsPlainArchive nodes w.seen schema flat root_types w.entries roots roots_flat
            roots_typed (λ t p. writer.valid-HasTypes ids t p st valid) w.collected)
          wrote in
      let (x, run', back) =
        deserialize_archive-ReadBack nodes w.seen w.entries roots w.collected w.reached reader
          root_types (writer.valid-IsDag ids st valid)
          (λ t p. writer.valid-HasTypes ids t p st valid) roots_typed left ser st' ts
          (subst (λ n. reader.Valid n st') (ap (λ es. length es + left) same) valid') ds in
      (
        (ok back.roots', thread_of ser none back.after),
        json_read writer reader root_types json fuel roots st ids valid below roots_typed b ser st'
              x (rw read run')
            ∙ ap (λ y. some (map_err de_format y.0, de_drop y.1)) back.result,
        record {
          roots' = back.roots';
          after = back.after;
          result = refl;
          same_trees = back.same_trees;
          valid' = back.valid;
          keeps = back.keeps;
        },
      )
