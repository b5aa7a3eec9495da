-- ===== src/Tests/RoundTrip.antt =====
-- The theorems on serialization, on the nodes of Tests.Archive.
use hirpdag.Base.{◌≡◌, refl, none, some, [], ◌∷◌, ok, Returns, length, ap, ◌∙◌}
use hirpdag.Serialize.Archive.{Decoded, intact}
use hirpdag.Serialize.Collect.{hirpdag_collect_archive}
use hirpdag.Serialize.Collected.{IsCollected, IndexBelow}
use hirpdag.Serialize.Denoted.{live_denoted}
use hirpdag.Serialize.Entry.{hirpdag_serialize_json, hirpdag_deserialize_json}
use hirpdag.Serialize.Hashconsed.{intern, Interned, intern-Interned}
use hirpdag.Serialize.Input.{Handled, deserialize_json-Handled}
use hirpdag.Serialize.Typed.{number_ok, field_ok, no_fields}
use hirpdag.Serialize.Wire.{uint, nil_wires, cons_wires}
use hirpdag.Serialize.Json.{
  thread_of, Written, hirpdag_serialize_json-Written, Restored, deserialize_json-serialize_json,
}
use hirpdag.Serialize.Nodes.{AllNodes, AllNodesIn, Trees}
use hirpdag.Serialize.RoundTrip.{archive_of}
use hirpdag.Serialize.Ordered.{collect_archive-IsCollected}
use hirpdag.Serialize.SameProcess.{SameRoots, deserialize_json-same_handles}
use hirpdag.Tests.Archive.{
  schema, schema-AllFlat, roots-AllFlat, entry_key, entry_hasher, table, no_meta, entry_eq_sound,
  leaf_fields, nodes_of, pair, pair-Ready, roots, roots_below, roots_ok, root_types, start,
  start-Ready, plain, runs, entries, seen,
}

collect_archive-IsCollected_example :
    Returns (hirpdag_collect_archive (nodes_of.view pair.1) pair.1.state roots) (λ r.
      IsCollected (nodes_of.view pair.1) r.1 r.0
      × AllNodesIn (IndexBelow (nodes_of.view pair.1) r.1 (length r.0)) roots)
collect_archive-IsCollected_example =
    collect_archive-IsCollected (nodes_of.view pair.1) (nodes_of.valid-IsDag 8 pair.1 pair-Ready)
      pair.1.state roots roots_below

hirpdag_serialize_json-Written_example :
    Returns
      (hirpdag_serialize_json nodes_of plain pair.1.state roots (thread_of none none pair.1))
      (Written nodes_of plain pair.1.state roots pair.1 8 pair-Ready roots_below none)
hirpdag_serialize_json-Written_example =
    hirpdag_serialize_json-Written nodes_of plain pair.1.state roots pair.1 8 pair-Ready roots_below
      none

-- the tree of the roots, and what is written for them
abbrev tree : Trees
tree =
    (live_denoted (nodes_of.view pair.1) (nodes_of.valid-IsDag 8 pair.1 pair-Ready) pair.1.state
      roots roots_below).0

abbrev written : Decoded
written = intact (archive_of (nodes_of.view pair.1) entries seen roots)

written_run :
    hirpdag_serialize_json nodes_of plain pair.1.state roots (thread_of none none pair.1)
    ≡ some (ok written, thread_of none none pair.1)
written_run =
    let (r, run, w) =
      hirpdag_serialize_json-Written nodes_of plain pair.1.state roots pair.1 8 pair-Ready
        roots_below none in
    let same : w.entries ≡ entries × w.seen ≡ seen = let (a, b, c) = runs in (cc, cc) in
    let out : r.0 ≡ ok written =
      w.output
      ∙ ap (λ x. ok (intact (archive_of (nodes_of.view pair.1) x w.seen roots))) same.0
      ∙ ap (λ x. ok (intact (archive_of (nodes_of.view pair.1) entries x roots))) same.1 in
    run ∙ (λ i. some (out i, w.closed i))

deserialize_json-serialize_json_example :
    Returns
      (hirpdag_deserialize_json nodes_of root_types plain written (thread_of none none start))
      (Restored nodes_of nodes_of root_types plain pair.1.state roots pair.1 8 pair-Ready
        roots_below roots_ok 8 none start tree)
deserialize_json-serialize_json_example =
    deserialize_json-serialize_json nodes_of nodes_of root_types plain pair.1.state roots pair.1 8
      pair-Ready roots_below roots_ok schema-AllFlat roots-AllFlat 8 written entries seen none none
      (thread_of none none pair.1) start tree written_run runs.2 start-Ready
      (live_denoted (nodes_of.view pair.1) (nodes_of.valid-IsDag 8 pair.1 pair-Ready) pair.1.state
        roots roots_below).1

-- an archive that nobody wrote: its node points to a node that does not come before it
abbrev forged : Decoded
forged = record {
  version_read = ok 1;
  nodes_read =
      ok (record {
        node_type = 1;
        field_wires = cons_wires (uint 5) (cons_wires (uint 0) nil_wires);
      })
      ∷ [];
  roots_read = ok nil_wires;
}

deserialize_json-Handled_example :
    Returns
      (hirpdag_deserialize_json nodes_of root_types plain forged (thread_of none none start))
      (Handled nodes_of root_types 9 none start)
deserialize_json-Handled_example =
    deserialize_json-Handled nodes_of root_types plain forged 9 none start start-Ready

intern-Interned_example :
    Returns
      (intern schema entry_hasher table no_meta entry_eq_sound 0 leaf_fields start)
      (Interned schema entry_hasher table no_meta entry_eq_sound 9 0 leaf_fields start)
unfolding AllNodesIn AllNodes
intern-Interned_example =
    intern-Interned schema entry_hasher table no_meta entry_eq_sound 9 0 leaf_fields start
      start-Ready (tt, tt) (field_ok (number_ok 5) no_fields)

deserialize_json-same_handles_example :
    Returns
      (hirpdag_deserialize_json nodes_of root_types plain written (thread_of none none pair.1))
      (SameRoots nodes_of root_types plain pair.1.state roots pair.1 8 pair-Ready roots_below
        roots_ok schema-AllFlat roots-AllFlat 6 none pair.1)
deserialize_json-same_handles_example =
    deserialize_json-same_handles nodes_of root_types plain pair.1.state roots pair.1 8 pair-Ready
      roots_below roots_ok schema-AllFlat roots-AllFlat 6 written entries seen none
      (thread_of none none pair.1) pair.1 written_run runs.2 pair-Ready
      (record { still_live = λ t p l. l; same_fields = λ t p l. refl })
