-- ===== src/Serialize/RoundTrip.antt =====
-- An archive that was written reads back.
use hirpdag.Base.{
  ℕ, ◌+◌, ◌≡◌, refl, ◌∙◌, ap, Option, some, List, [], map, length, get_elem?, arith, Result, ok,
  Returns,
}
use mathlib.Core.Path.{subst}
use hirpdag.Serialize.Archive.{
  Interner, Keeps, ArchiveWire, NodeWire, Thread, serialize_archive, deserialize_archive, visit_seq,
  intact,
}
use hirpdag.Serialize.Collect.{HirpdagArchiveNode}
use hirpdag.Serialize.Collected.{IndexBelow, IsCollected}
use hirpdag.Serialize.Header.{hirpdag_format_version, deserialize_version}
use hirpdag.Serialize.NodeTable.{node_wire, serialize_nodes-wires}
use hirpdag.Serialize.Nodes.{Nodes, IsDag, AllNodesIn, Trees, DenoteAll}
use hirpdag.Serialize.ReadBack.{Matches, deserialize_fields-wires_of}
use hirpdag.Serialize.Typed.{HasTypes}
use hirpdag.Serialize.Visit.{reading, visit_seq-Read}
use hirpdag.Serialize.Wire.{Wires, HirpdagNodeRef, FieldTypes, Message, deserialize_fields}
use hirpdag.Serialize.Written.{wires_of, serialize_each-wires_of}
use hirpdag.Value.{Values}

-- the archive of a node table
abbrev pub archive_of : Nodes → List HirpdagArchiveNode → List (ℕ × ℕ) → Values → ArchiveWire
archive_of nodes entries seen roots = record {
  version = hirpdag_format_version;
  node_wires = map (node_wire nodes seen) entries;
  root_wires = wires_of nodes seen roots;
}

module _ (nodes : Nodes) (seen : List (ℕ × ℕ)) (entries : List HirpdagArchiveNode) (roots : Values)
    (k : IsCollected nodes seen entries)
    (reached : AllNodesIn (IndexBelow nodes seen (length entries)) roots) where
  pub serialize_archive_lem :
      serialize_archive nodes.creation_id (some seen) entries roots
      ≡ ok (archive_of nodes entries seen roots)
  unfolding serialize_archive
  serialize_archive_lem =
      let e = serialize_nodes-wires nodes seen entries (λ j e at. (j, k.children_first j e at)) in
      let f = serialize_each-wires_of nodes seen (length entries) roots reached in
      rw (serialize_archive, e, f) refl

  module _ {St : Type 0} {schema : ℕ → FieldTypes} (interner : Interner schema St)
      (root_types : FieldTypes) (dag : IsDag nodes)
      (typed : (t p : ℕ) → nodes.IsLive t p → HasTypes (schema t) (nodes.fields t p))
      (roots_typed : HasTypes root_types roots) where
    archive_run :
        (ser : Option (List (ℕ × ℕ))) (st : St) (ns : List NodeWire) (xs : Wires)
        (thread : Thread St)
        → visit_seq interner (map ok ns) (reading ser [] st) ≡ some (ok tt, thread)
        → deserialize_archive interner root_types
            (intact (record { version = hirpdag_format_version; node_wires = ns; root_wires = xs }))
            (reading ser [] st)
          ≡ some (deserialize_fields thread.de_session root_types xs, thread)
    unfolding deserialize_archive deserialize_version
    archive_run ser st ns xs thread e = rw (deserialize_archive, e) refl

    -- What is read: roots that stand for the same trees, in tables that have lost nothing.
    pub record ReadBack (left : ℕ) (ser : Option (List (ℕ × ℕ))) (st : St) (ts : Trees)
        (r : Result Message Values × Thread St) : Type 0 where
      pub roots' : Values
      pub refs' : List HirpdagNodeRef
      pub after : St
      pub result : r ≡ (ok roots', reading ser refs' after)
      pub same_trees : DenoteAll (interner.view after) roots' ts
      pub valid : interner.Valid left after
      pub keeps : Keeps (interner.view st) (interner.view after)

    pub deserialize_archive-ReadBack :
        (left : ℕ) (ser : Option (List (ℕ × ℕ))) (st : St) (ts : Trees)
        → interner.Valid (length entries + left) st
        → DenoteAll nodes roots ts
        → Returns
            (deserialize_archive interner root_types
              (intact (archive_of nodes entries seen roots))
              (reading ser [] st))
            (ReadBack left ser st ts)
    deserialize_archive-ReadBack left ser st ts valid ds =
        let empty : Matches nodes seen (interner.view st) [] =
          λ u q i a e below. absurd (omega arith) in
        let (r, run, read) =
          visit_seq-Read interner nodes seen entries dag k typed left entries ser [] st
            (λ j e f. subst (λ i. get_elem? entries i ≡ some e) (omega arith) f) valid empty in
        let (roots', e, (ds', typed')) =
          deserialize_fields-wires_of nodes seen (interner.view read.st') read.refs'
            (length entries) (omega (arith, read.all_read)) read.matches roots_typed ds reached in
        (
          (ok roots', reading ser read.refs' read.st'),
          archive_run ser st (map (node_wire nodes seen) entries) (wires_of nodes seen roots)
                (reading ser read.refs' read.st') (run ∙ ap some read.result)
              ∙ ap (λ x. some (x, reading ser read.refs' read.st')) e,
          record {
            roots' = roots';
            refs' = read.refs';
            after = read.st';
            result = refl;
            same_trees = ds';
            valid = read.valid;
            keeps = read.keeps;
          },
        )
