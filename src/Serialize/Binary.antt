-- ===== src/Serialize/Binary.antt =====
-- `hirpdag_serialize` and `hirpdag_deserialize`: the binary archive with its header.
use hirpdag.Base.{
  ℕ, ◌+◌, ◌≡◌, refl, sym, ◌∙◌, ap, true, false, Option, none, some, List, [], ◌++◌, length, arith,
  Result, ok, err, and_then, map_err, map_err_ok, Returns, ◌==◌,
}
use mathlib.Core.Path.{subst}
use hirpdag.Serialize.Archive.{
  Interner, AnyArchive, Format, Thread, serialize_archive, deserialize_archive, intact, ser_open,
  ser_drop, de_open, de_drop,
}
use hirpdag.Serialize.Collect.{HirpdagArchiveNode, hirpdag_collect_archive}
use hirpdag.Serialize.Collected.{Child}
use hirpdag.Serialize.Entry.{
  with_ser_session, with_de_session, hirpdag_serialize, hirpdag_deserialize,
}
use hirpdag.Serialize.Header.{
  HirpdagSchemaFingerprint, Postcard, format, de_format, schema_mismatch,
  hirpdag_write_binary_header, hirpdag_read_binary_header, read-write_binary_header,
}
use hirpdag.Serialize.Json.{thread_of, Restored}
use hirpdag.Serialize.Nodes.{AllNodesIn, Trees, DenoteAll}
use hirpdag.Serialize.Ordered.{collect_archive-IsCollected}
use hirpdag.Serialize.RoundTrip.{archive_of, serialize_archive_lem, deserialize_archive-ReadBack}
use hirpdag.Serialize.Typed.{HasTypes}
use hirpdag.Serialize.Visit.{reading}
use hirpdag.Serialize.Wire.{FieldTypes, HirpdagNodeRef, Message}
use hirpdag.Value.{Values}

and_then_inv :
    {E A B : Type 0} (r : Result E A) (f : A → Result E B) (b : B)
    → and_then r f ≡ ok b
    → (a : A) × (r ≡ ok a) × (f a ≡ ok b)
and_then_inv (ok a) f b e = (a, refl, e)
and_then_inv (err m) f b e = cc

module _ {St St' : Type 0} {schema : ℕ → FieldTypes} (writer : Interner schema St)
    (reader : Interner schema St') (root_types : FieldTypes) (postcard : Postcard Message)
    (binary : Format AnyArchive (List ℕ)) (written : HirpdagSchemaFingerprint) (fuel : ℕ)
    (roots : Values) (st : St) (ids : ℕ) (valid : writer.Valid ids st)
    (below : AllNodesIn (Child (writer.view st) fuel) roots) where
  pub binary_run :
      (de : Option (List HirpdagNodeRef)) (entries : List HirpdagArchiveNode) (seen : List (ℕ × ℕ))
      → hirpdag_collect_archive (writer.view st) fuel roots ≡ some (entries, seen)
      → serialize_archive (writer.view st).creation_id (some seen) entries roots
        ≡ ok (archive_of (writer.view st) entries seen roots)
      → hirpdag_serialize writer postcard written binary fuel roots (thread_of none de st)
        ≡ some (
          (and_then
              (map_err format (binary.to_output (archive_of (writer.view st) entries seen roots)))
              λ payload.
                and_then
                  (hirpdag_write_binary_header postcard written)
                  λ bytes. ok (bytes ++ payload)),
          thread_of none de st,
        )
  unfolding hirpdag_serialize with_ser_session ser_open ser_drop
  binary_run de entries seen e f = rw (hirpdag_serialize, e, f) refl

  -- The output is a header and a payload that the format made of the collected archive.
  record Output (bytes : List ℕ) : Type 0 where
    entries : List HirpdagArchiveNode
    seen : List (ℕ × ℕ)
    collected_run : hirpdag_collect_archive (writer.view st) fuel roots ≡ some (entries, seen)
    header : List ℕ
    payload : List ℕ
    header_run : hirpdag_write_binary_header postcard written ≡ ok header
    payload_run : binary.to_output (archive_of (writer.view st) entries seen roots) ≡ ok payload
    both : header ++ payload ≡ bytes

  serialize-Output :
      (de : Option (List HirpdagNodeRef)) (t : Thread St) (bytes : List ℕ)
      → hirpdag_serialize writer postcard written binary fuel roots (thread_of none de st)
        ≡ some (ok bytes, t)
      → Output bytes
  serialize-Output de t bytes e =
      let nodes = writer.view st in
      let ((entries, seen), run, (k, reached)) =
        collect_archive-IsCollected nodes (writer.valid-IsDag ids st valid) fuel roots below in
      let f =
        binary_run de entries seen run (serialize_archive_lem nodes seen entries roots k reached) in
      let archive = archive_of nodes entries seen roots in
      let (payload, p, g) =
        and_then_inv (map_err format (binary.to_output archive))
          (λ payload.
            and_then (hirpdag_write_binary_header postcard written) λ bytes. ok (bytes ++ payload))
          bytes (ground (arith, e, f)) in
      let (header, h, g') =
        and_then_inv (hirpdag_write_binary_header postcard written) (λ bytes. ok (bytes ++ payload))
          bytes g in
      record {
        entries = entries;
        seen = seen;
        collected_run = run;
        header = header;
        payload = payload;
        header_run = h;
        payload_run = map_err_ok format (binary.to_output archive) payload p;
        both = cc;
      }

  -- A reader with another fingerprint hash reports both fingerprints and changes nothing.
  pub deserialize-mismatch :
      (expected : HirpdagSchemaFingerprint) (bytes : List ℕ) (de : Option (List HirpdagNodeRef))
      (t : Thread St) (thread : Thread St')
      → hirpdag_serialize writer postcard written binary fuel roots (thread_of none de st)
        ≡ some (ok bytes, t)
      → (written.hash == expected.hash) ≡ false
      → hirpdag_deserialize reader root_types postcard expected binary bytes thread
        ≡ some (err (schema_mismatch expected.hash expected.name written.hash written.name), thread)
  unfolding hirpdag_deserialize
  deserialize-mismatch expected bytes de t thread e differ =
      let o = serialize-Output de t bytes e in
      let r = read-write_binary_header postcard written expected o.header o.payload o.header_run in
      let r' : hirpdag_read_binary_header postcard bytes expected
          ≡ err (schema_mismatch expected.hash expected.name written.hash written.name) =
        rw (← o.both) (r ∙ rw differ refl) in
      rw (hirpdag_deserialize, r') refl

  module _ (roots_typed : HasTypes root_types roots) where
    binary_read :
        (expected : HirpdagSchemaFingerprint) (bytes payload : List ℕ) (ser : Option (List (ℕ × ℕ)))
        (st' : St') (x : Result Message Values × Thread St')
        → hirpdag_read_binary_header postcard bytes expected ≡ ok payload
        → deserialize_archive reader root_types (binary.from_input payload) (reading ser [] st')
          ≡ some x
        → hirpdag_deserialize reader root_types postcard expected binary bytes
            (thread_of ser none st')
          ≡ some (map_err de_format x.0, de_drop x.1)
    unfolding hirpdag_deserialize with_de_session de_open
    binary_read expected bytes payload ser st' x e f =
        rw (hirpdag_deserialize, e, with_de_session, f) refl

    -- What `hirpdag_serialize` wrote, `hirpdag_deserialize` reads back if its fingerprint has the same
    -- hash, with creation ids left for the written nodes, as roots that stand for the same trees; no
    -- node that was there is lost, and the session is closed.
    pub hirpdag_deserialize-hirpdag_serialize :
        (expected : HirpdagSchemaFingerprint) (left : ℕ) (bytes : List ℕ)
        (entries : List HirpdagArchiveNode) (seen : List (ℕ × ℕ))
        (de : Option (List HirpdagNodeRef)) (ser : Option (List (ℕ × ℕ))) (t : Thread St)
        (st' : St') (ts : Trees)
        → hirpdag_serialize writer postcard written binary fuel roots (thread_of none de st)
          ≡ some (ok bytes, t)
        → written.hash ≡ expected.hash
        → hirpdag_collect_archive (writer.view st) fuel roots ≡ some (entries, seen)
        → reader.Valid (length entries + left) st'
        → DenoteAll (writer.view st) roots ts
        → Returns
            (hirpdag_deserialize reader root_types postcard expected binary bytes
              (thread_of ser none st'))
            (Restored writer reader root_types binary fuel roots st ids valid below roots_typed left
              ser st' ts)
    unfolding de_drop
    hirpdag_deserialize-hirpdag_serialize expected left bytes entries seen de ser t st' ts e hash
          collected valid' ds =
        let nodes = writer.view st in
        let dag = writer.valid-IsDag ids st valid in
        let o = serialize-Output de t bytes e in
        let head =
          read-write_binary_header postcard written expected o.header o.payload o.header_run in
        let same_hash : (written.hash == expected.hash) ≡ true = ground arith in
        let header : hirpdag_read_binary_header postcard bytes expected ≡ ok o.payload =
          rw (← o.both) (head ∙ rw same_hash refl) in
        let ((es, sn), run, (k, reached)) =
          collect_archive-IsCollected nodes dag fuel roots below in
        let (sames, samen) : (es ≡ o.entries) × (sn ≡ o.seen) =
          (ground (arith, run, o.collected_run), ground (arith, run, o.collected_run)) in
        let count : entries ≡ es = ground (arith, run) in
        let read : binary.from_input o.payload ≡ intact (archive_of nodes es sn roots) =
          binary.from-to (archive_of nodes o.entries o.seen roots) o.payload tt o.payload_run
          ∙ (λ i. intact (archive_of nodes (sym sames i) (sym samen i) roots)) in
        let (x, run', back) =
          deserialize_archive-ReadBack nodes sn es roots k reached reader root_types dag
            (λ u p. writer.valid-HasTypes ids u p st valid) roots_typed left ser st' ts
            (subst (λ n. reader.Valid n st') (ap (λ z. length z + left) count) valid') ds in
        (
          (ok back.roots', thread_of ser none back.after),
          binary_read expected bytes o.payload ser st' x header (rw read run')
              ∙ ap (λ y. some (map_err de_format y.0, de_drop y.1)) back.result,
          record {
            roots' = back.roots';
            after = back.after;
            result = refl;
            same_trees = back.same_trees;
            valid' = back.valid;
            keeps = back.keeps;
          },
        )
