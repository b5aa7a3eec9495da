-- ===== src/Serialize/Visit.antt =====
-- `visit_seq` on a node table that was written.
use hirpdag.Base.{
  ℕ, suc, ◌+◌, ◌≡◌, refl, ◌∙◌, ap, Option, some, List, [], ◌∷◌, ◌++◌, map, length, length-append,
  get_elem?, get_elem?-lt, arith, ok, Returns, Result,
}
use mathlib.Core.Path.{subst}
use hirpdag.Base.HashMap
use hirpdag.Serialize.Archive.{Interner, Keeps, NodeWire, Thread, visit_seq}
use hirpdag.Serialize.Collect.{HirpdagArchiveNode}
use hirpdag.Serialize.Collected.{IndexBelow, IsCollected, entry_of}
use hirpdag.Serialize.Denoted.{Keeps-DenoteAll, DenoteAll-AllNodesIn, fields_denoted}
use hirpdag.Serialize.NodeTable.{node_wire, matches_more}
use hirpdag.Serialize.Nodes.{
  Nodes, IsDag, AllNodesIn, Trees, DenoteAll, Denotes, node_denotes, node_tree,
}
use hirpdag.Serialize.ReadBack.{Matches, deserialize_fields-wires_of}
use hirpdag.Serialize.Typed.{HasTypes}
use hirpdag.Serialize.Wire.{FieldTypes, HirpdagNodeRef, Message, deserialize_fields}
use hirpdag.Serialize.Written.{wires_of}
use hirpdag.Value.{Values, node}

pub Keeps_refl : (a : Nodes) → Keeps a a
Keeps_refl a = record { still_live = λ t p l. l; same_fields = λ t p l. refl }

pub Keeps_trans : (a b c : Nodes) → Keeps a b → Keeps b c → Keeps a c
Keeps_trans a b c f g = record {
  still_live = λ t p l. g.still_live t p (f.still_live t p l);
  same_fields = λ t p l. g.same_fields t p (f.still_live t p l) ∙ f.same_fields t p l;
}

abbrev pub reading : {St : Type 0} → Option (List (ℕ × ℕ)) → List HirpdagNodeRef → St → Thread St
reading ser refs st = record { ser_session = ser; de_session = some refs; world = st }

module _ {St : Type 0} {schema : ℕ → FieldTypes} (interner : Interner schema St) where
  visit_seq_nil :
      (ser : Option (List (ℕ × ℕ))) (refs : List HirpdagNodeRef) (st : St)
      → visit_seq interner [] (reading ser refs st) ≡ some (ok tt, reading ser refs st)
  unfolding visit_seq
  visit_seq_nil ser refs st = refl

  pub visit_seq_ok :
      (ser : Option (List (ℕ × ℕ))) (refs : List HirpdagNodeRef) (st : St) (n : NodeWire)
      (elements : List (Result Message NodeWire)) (vs : Values) (r : ℕ × St)
      → deserialize_fields (some refs) (schema n.node_type) n.field_wires ≡ ok vs
      → interner.hirpdag_hashcons n.node_type vs st ≡ some r
      → visit_seq interner (ok n ∷ elements) (reading ser refs st)
        ≡ visit_seq interner elements
            (reading ser (refs ++ record { ref_struct = n.node_type; address = r.0 } ∷ []) r.1)
  unfolding visit_seq
  visit_seq_ok ser refs st n elements vs r e f = rw (visit_seq, e, f) refl

  module _ (nodes : Nodes) (seen : List (ℕ × ℕ)) (entries : List HirpdagArchiveNode)
      (dag : IsDag nodes) (k : IsCollected nodes seen entries)
      (typed : (t p : ℕ) → nodes.IsLive t p → HasTypes (schema t) (nodes.fields t p)) where
    -- The entries up to `refs'` are read, and the thread is otherwise as it was.
    pub record Read (left : ℕ) (ser : Option (List (ℕ × ℕ))) (st : St) (count : ℕ)
        (r : Result {0, 0} Message Unit × Thread St) : Type 0 where
      pub refs' : List HirpdagNodeRef
      pub st' : St
      pub result : r ≡ (ok tt, reading ser refs' st')
      pub valid : interner.Valid left st'
      pub keeps : Keeps (interner.view st) (interner.view st')
      pub all_read : length refs' ≡ count
      pub matches : Matches nodes seen (interner.view st') refs'

    -- the entry with the next index is read
    record ReadOne (left : ℕ) (refs : List HirpdagNodeRef) (st : St) (e : HirpdagArchiveNode)
        : Type 0 where
      vs : Values
      made : ℕ × St
      fields_run :
          deserialize_fields (some refs) (schema e.struct_type) (wires_of nodes seen e.data_fields)
          ≡ ok vs
      hashcons_run : interner.hirpdag_hashcons e.struct_type vs st ≡ some made
      valid : interner.Valid left made.1
      keeps : Keeps (interner.view st) (interner.view made.1)
      matches :
          Matches nodes seen
            (interner.view made.1)
            (refs ++ record { ref_struct = e.struct_type; address = made.0 } ∷ [])

    read_node :
        (left : ℕ) (refs : List HirpdagNodeRef) (st : St) (t p : ℕ)
        → nodes.IsLive t p
        → HashMap.lookup (nodes.creation_id t p) seen ≡ some (length refs)
        → AllNodesIn (IndexBelow nodes seen (length refs)) (nodes.fields t p)
        → interner.Valid (suc left) st
        → Matches nodes seen (interner.view st) refs
        → ReadOne left refs st (entry_of nodes t p)
    read_node left refs st t p l s c valid m =
        let before = interner.view st in
        let back = λ (ts : Trees) (ds : DenoteAll nodes (nodes.fields t p) ts).
          deserialize_fields-wires_of nodes seen before refs (length refs) (omega arith) m
            (typed t p l) ds c in
        let (ts, ds) = fields_denoted nodes dag t p l in
        let (vs, run, (ds', typed')) = back ts ds in
        let (made, run', (valid', live, same, keeps)) =
          interner.hashcons_lem left t vs st valid (DenoteAll-AllNodesIn before ds') typed' in
        let after = interner.view made.1 in
        let new : (zs : Trees)
            → DenoteAll nodes (nodes.fields t p) zs
            → Denotes after (node t made.0) (node_tree t zs) =
          λ zs es.
            let (ws, run'', (es', typed'')) = back zs es in
            let eq : ws ≡ after.fields t made.0 = cc in
            node_denotes t made.0 live
              (subst (λ x. DenoteAll after x zs) eq (Keeps-DenoteAll before after keeps es')) in
        let single : (u q i : ℕ)
            → HashMap.lookup (nodes.creation_id u q) seen ≡ some i
            → i ≡ length refs
            → nodes.creation_id u q ≡ nodes.creation_id t p =
          λ u q i f at.
            k.single (nodes.creation_id u q) (nodes.creation_id t p) (length refs) (f ∙ ap some at)
              s in
        record {
          vs = vs;
          made = made;
          fields_run = run;
          hashcons_run = run';
          valid = valid';
          keeps = keeps;
          matches = matches_more nodes seen dag after refs t p made.0 l single new before keeps m;
        }

    read_one :
        (left : ℕ) (refs : List HirpdagNodeRef) (st : St) (e : HirpdagArchiveNode)
        → get_elem? entries (length refs) ≡ some e
        → interner.Valid (suc left) st
        → Matches nodes seen (interner.view st) refs
        → ReadOne left refs st e
    read_one left refs st e at valid m =
        let (a, s) = k.named (length refs) (get_elem?-lt entries (length refs) e at) in
        let (t, p, l, id, at', below) = k.indexed a (length refs) s in
        let is : entry_of nodes t p ≡ e = cc in
        let look : HashMap.lookup (nodes.creation_id t p) seen ≡ some (length refs) = rw id s in
        subst (ReadOne left refs st) is (
          read_node left refs st t p l look
            (k.children_first (length refs) (entry_of nodes t p) at') valid m)

    pub visit_seq-Read :
        (left : ℕ) (suffix : List HirpdagArchiveNode) (ser : Option (List (ℕ × ℕ)))
        (refs : List HirpdagNodeRef) (st : St)
        → ((j : ℕ) (e : HirpdagArchiveNode)
            → get_elem? suffix j ≡ some e
            → get_elem? entries (length refs + j) ≡ some e)
        → interner.Valid (length suffix + left) st
        → Matches nodes seen (interner.view st) refs
        → Returns
            (visit_seq interner (map ok (map (node_wire nodes seen) suffix)) (reading ser refs st))
            (Read left ser st (length refs + length suffix))
    visit_seq-Read left [] ser refs st at valid m = (
      (ok tt, reading ser refs st),
      visit_seq_nil ser refs st,
      record {
        refs' = refs;
        st' = st;
        result = refl;
        valid = subst (λ n. interner.Valid n st) (omega arith) valid;
        keeps = Keeps_refl (interner.view st);
        all_read = omega arith;
        matches = m;
      },
    )
    visit_seq-Read left (e ∷ suffix) ser refs st at valid m =
        let first : get_elem? entries (length refs) ≡ some e =
          subst (λ i. get_elem? entries i ≡ some e) (omega arith) (at 0 e refl) in
        let one =
          read_one (length suffix + left) refs st e first
            (subst (λ n. interner.Valid n st) (omega arith) valid) m in
        let entry : HirpdagNodeRef = record { ref_struct = e.struct_type; address = one.made.0 } in
        let more = refs ++ entry ∷ [] in
        let long : length more ≡ length refs + 1 = length-append refs (entry ∷ []) in
        let (r, run, rest) =
          visit_seq-Read left suffix ser more one.made.1
            (λ j x f.
              subst (λ i. get_elem? entries i ≡ some x) (omega (arith, long)) (at (suc j) x f))
            one.valid one.matches in
        (
          r,
          visit_seq_ok ser refs st (node_wire nodes seen e)
                (map ok (map (node_wire nodes seen) suffix)) one.vs one.made one.fields_run
                one.hashcons_run
              ∙ run,
          record {
            refs' = rest.refs';
            st' = rest.st';
            result = rest.result;
            valid = rest.valid;
            keeps =
                Keeps_trans (interner.view st) (interner.view one.made.1) (interner.view rest.st')
                  one.keeps rest.keeps;
            all_read = omega (arith, rest.all_read, long);
            matches = rest.matches;
          },
        )
