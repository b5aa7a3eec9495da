-- ===== src/Serialize/SameProcess.antt =====
-- An archive that is read in the process that wrote it.
use hirpdag.Base.{ℕ, ◌+◌, ◌≡◌, ap, ◌∙◌, Option, none, some, List, length, Result, ok, Returns}
use hirpdag.Serialize.Archive.{Interner, Format, Keeps, Thread}
use hirpdag.Serialize.Collect.{HirpdagArchiveNode, hirpdag_collect_archive}
use hirpdag.Serialize.Collected.{Child}
use hirpdag.Serialize.Denoted.{live_denoted, Keeps-DenoteAll}
use hirpdag.Serialize.Entry.{hirpdag_serialize_json, hirpdag_deserialize_json}
use hirpdag.Serialize.Header.{HirpdagDeserializeError}
use hirpdag.Serialize.Json.{thread_of, deserialize_json-serialize_json}
use hirpdag.Serialize.Flat.{AllFlat, IsPlainArchive}
use hirpdag.Serialize.Nodes.{AllNodesIn}
use hirpdag.Serialize.Typed.{HasTypes}
use hirpdag.Serialize.Unique.{DenoteAll-unique}
use hirpdag.Serialize.Wire.{FieldTypes, Message}
use hirpdag.Value.{Values}

module _ {St B : Type 0} {schema : ℕ → FieldTypes} (interner : Interner schema St)
    (root_types : FieldTypes) (json : Format IsPlainArchive B) (fuel : ℕ) (roots : Values) (st : St)
    (ids : ℕ) (valid : interner.Valid ids st)
    (below : AllNodesIn (Child (interner.view st) fuel) roots)
    (roots_typed : HasTypes root_types roots) (flat : (t : ℕ) → AllFlat (schema t))
    (roots_flat : AllFlat root_types) where
  -- the roots themselves, and the thread with its session closed and no node lost
  pub record SameRoots (left : ℕ) (ser : Option (List (ℕ × ℕ))) (later : St)
      (r : Result (HirpdagDeserializeError Message) Values × Thread St) : Type 0 where
    pub after : St
    pub result : r ≡ (ok roots, thread_of ser none after)
    pub valid' : interner.Valid left after
    pub keeps : Keeps (interner.view later) (interner.view after)

  -- If no field has an `Option` of an `Option` as its type, and the nodes that were written are still
  -- there, reading the archive in the process that wrote
  -- it gives the very handles that were written: every node is found again, by hash-consing.
  pub deserialize_json-same_handles :
      (left : ℕ) (b : B) (entries : List HirpdagArchiveNode) (seen : List (ℕ × ℕ))
      (ser : Option (List (ℕ × ℕ))) (t : Thread St) (later : St)
      → hirpdag_serialize_json interner json fuel roots (thread_of none none st) ≡ some (ok b, t)
      → hirpdag_collect_archive (interner.view st) fuel roots ≡ some (entries, seen)
      → interner.Valid (length entries + left) later
      → Keeps (interner.view st) (interner.view later)
      → Returns
          (hirpdag_deserialize_json interner root_types json b (thread_of ser none later))
          (SameRoots left ser later)
  deserialize_json-same_handles left b entries seen ser t later e collected valid' keeps =
      let (ts, ds) =
        live_denoted (interner.view st) (interner.valid-IsDag ids st valid) fuel roots below in
      let (r, run, x) =
        deserialize_json-serialize_json interner interner root_types json fuel roots st ids valid
          below roots_typed flat roots_flat left b entries seen none ser t later ts e collected
          valid' ds in
      let now =
        Keeps-DenoteAll (interner.view later) (interner.view x.after) x.keeps
          (Keeps-DenoteAll (interner.view st) (interner.view later) keeps ds) in
      let same : x.roots' ≡ roots =
        DenoteAll-unique (interner.view x.after)
          (λ u p q l m f. interner.valid_unique left u p q x.after x.valid' l m f) x.same_trees
          now in
      (
        r,
        run,
        record {
          after = x.after;
          result = x.result ∙ ap (λ vs. (ok vs, thread_of ser none x.after)) same;
          valid' = x.valid';
          keeps = x.keeps;
        },
      )
