-- ===== src/Tests/Archive.antt =====
-- The theorems on serialization, over nodes interned by the preset `arc_hash_linear`: a leaf that
-- holds a number, and a node that points to it twice. The format keeps the archive as it is.
use hirpdag.Base.{
  ℕ, zero, suc, ◌≡◌, refl, Bool, true, false, ◌&&◌, Option, none, some, List, [], ◌∷◌, arith, ◌==◌,
  ok, Result, Returns, inl, inr, Bool-cases, sym, ap, ◌∙◌,
}
use mathlib.Core.Path.{subst}
use hirpdag.Hashcons.{
  storage_key, storage_hasher, hirpdag_hashcons, compute_hirpdag_meta, storage_of, fetch_add_one,
}
use hirpdag.Hashcons.Numbered.{built-IsHashconsed}
use hirpdag.Key.{Key, Hasher}
use hirpdag.Meta.{HirpdagMeta}
use hirpdag.Ref.{Heap, strong_deref}
use hirpdag.Serialize.Archive.{Interner, Format, Decoded, ArchiveWire, intact}
use hirpdag.Serialize.Collected.{Child}
use hirpdag.Serialize.Collect.{
  HirpdagArchiveNode, collect, collect_each, collect_ref, hirpdag_collect_archive, contains_key,
  push_node,
}
use hirpdag.Serialize.Closed.{Stored}
use hirpdag.Serialize.Hashconsed.{intern, Interned, interner}
use hirpdag.Serialize.Flat.{
  AllFlat, IsPlainArchive, number_flat, vec_flat, ref_flat, nil_flat, cons_flat,
}
use hirpdag.Serialize.Nodes.{AllNodes, AllNodesIn}
use hirpdag.Serialize.Typed.{
  HasTypes, number_ok, ref_ok, vec_ok, nil_ok, cons_ok, field_ok, no_fields,
}
use hirpdag.Serialize.Wire.{
  Message, FieldTypes, number_type, ref_type, vec_type, nil_types, cons_types,
}
use hirpdag.Table.Canonical.{World}
use hirpdag.Table.Shared.{Table}
use hirpdag.Table.SharedSharded.{TableSharedSharded}
use hirpdag.Tests.Preset
use hirpdag.Tests.Preset.{Inner, inner, ops, no_objects}
use hirpdag.Base.HashMap
use hirpdag.Table.HashmapFallback
use hirpdag.Table.HashmapFallback.Interns as fallback
use hirpdag.Table.VecLinear
use hirpdag.Table.WeakEntry
use hirpdag.Table.SharedSharded
use hirpdag.Table.SharedSharded.Interns as sharded
use hirpdag.Ref
use hirpdag.Value.{Value, Values, number, text, absent, present, vec, variant, node, nil, cons}

abbrev text_eq : List ℕ → List ℕ → Bool
text_eq [] [] = true
text_eq (a ∷ s) (b ∷ r) = a == b && text_eq s r
text_eq _ _ = false

abbrev mutual
  value_eq : Value → Value → Bool
  value_eq (number n) (number m) = n == m
  value_eq (text s) (text r) = text_eq s r
  value_eq absent absent = true
  value_eq (present v) (present w) = value_eq v w
  value_eq (vec vs) (vec ws) = values_eq vs ws
  value_eq (variant i v) (variant j w) = i == j && value_eq v w
  value_eq (node t p) (node u q) = t == u && p == q
  value_eq _ _ = false

  pub values_eq : Values → Values → Bool
  values_eq nil nil = true
  values_eq (cons v vs) (cons w ws) = value_eq v w && values_eq vs ws
  values_eq _ _ = false

text_eq_sound : (s r : List ℕ) → text_eq s r ≡ true → s ≡ r
text_eq_sound [] [] e = refl
text_eq_sound [] (b ∷ r) e = cc
text_eq_sound (a ∷ s) [] e = cc
text_eq_sound (a ∷ s) (b ∷ r) e = ground (arith, text_eq_sound s r)

text_eq_refl : (s : List ℕ) → text_eq s s ≡ true
text_eq_refl [] = refl
text_eq_refl (a ∷ s) = ground (arith, text_eq_refl s)

mutual
  value_eq_sound : (v w : Value) → value_eq v w ≡ true → v ≡ w
  value_eq_sound (number n) (number m) e = ground arith
  value_eq_sound (text s) (text r) e = ground (arith, text_eq_sound s r)
  value_eq_sound absent absent e = refl
  value_eq_sound (present v) (present w) e = ground (arith, value_eq_sound v w)
  value_eq_sound (vec vs) (vec ws) e = ground (arith, values_eq_sound vs ws)
  value_eq_sound (variant i v) (variant j w) e = ground (arith, value_eq_sound v w)
  value_eq_sound (node t p) (node u q) e = ground arith
  value_eq_sound _ _ e = cc

  pub values_eq_sound : (vs ws : Values) → values_eq vs ws ≡ true → vs ≡ ws
  values_eq_sound nil nil e = refl
  values_eq_sound (cons v vs) (cons w ws) e =
      ground (arith, value_eq_sound v w, values_eq_sound vs ws)
  values_eq_sound _ _ e = cc

mutual
  value_eq_refl : (v : Value) → value_eq v v ≡ true
  value_eq_refl (number n) = ground arith
  value_eq_refl (text s) = text_eq_refl s
  value_eq_refl absent = refl
  value_eq_refl (present v) = value_eq_refl v
  value_eq_refl (vec vs) = values_eq_refl vs
  value_eq_refl (variant i v) = ground (arith, value_eq_refl v)
  value_eq_refl (node t p) = ground arith

  pub values_eq_refl : (vs : Values) → values_eq vs vs ≡ true
  values_eq_refl nil = refl
  values_eq_refl (cons v vs) = ground (arith, value_eq_refl v, values_eq_refl vs)

-- The derived `PartialEq` of the data, with the struct type
abbrev entry_eq : HirpdagArchiveNode → HirpdagArchiveNode → Bool
entry_eq a b = a.struct_type == b.struct_type && values_eq a.data_fields b.data_fields

pub entry_eq_sound : (a b : HirpdagArchiveNode) → entry_eq a b ≡ true → a ≡ b
entry_eq_sound a b e =
    let t : a.struct_type ≡ b.struct_type = ground arith in
    let vs : a.data_fields ≡ b.data_fields =
      values_eq_sound a.data_fields b.data_fields (ground arith) in
    λ i. record { struct_type = t i; data_fields = vs i }

pub entry_eq_refl : (a : HirpdagArchiveNode) → entry_eq a a ≡ true
entry_eq_refl a = ground (arith, values_eq_refl a.data_fields)

entry_eq_flip : (a b : HirpdagArchiveNode) → entry_eq a b ≡ true → entry_eq b a ≡ true
entry_eq_flip a b e = subst (λ x. entry_eq x a ≡ true) (entry_eq_sound a b e) (entry_eq_refl a)

pub entry_eq_symm : (a b : HirpdagArchiveNode) → entry_eq a b ≡ entry_eq b a
entry_eq_symm a b = elim (Bool-cases (entry_eq a b)) [
  | inl e ↦ e ∙ sym (entry_eq_flip a b e)
  | inr e ↦ elim (Bool-cases (entry_eq b a)) [
    | inl f ↦ let g = entry_eq_flip b a f in cc
    | inr f ↦ e ∙ sym f
  ]
]

pub entry_eq_trans :
    (a b c : HirpdagArchiveNode) → entry_eq a b ≡ true → entry_eq b c ≡ true → entry_eq a c ≡ true
entry_eq_trans a b c e f = subst (λ x. entry_eq a x ≡ true) (entry_eq_sound b c f) e

instance abbrev pub entry_key : Key HirpdagArchiveNode
entry_key = record {
  equal = entry_eq;
  equal_refl = entry_eq_refl;
  equal_symm = entry_eq_symm;
  equal_trans = entry_eq_trans;
}

pub hash-entry_eq : (a b : HirpdagArchiveNode) → entry_eq a b ≡ true → a.struct_type ≡ b.struct_type
hash-entry_eq a b e = ground arith

abbrev pub entry_hasher : Hasher HirpdagArchiveNode entry_key
entry_hasher = record { hash_one = λ a. a.struct_type; hash-equal = hash-entry_eq }

abbrev pub table :
    Table Stored ℕ storage_key (storage_hasher entry_hasher) (TableSharedSharded Inner)
table = ops (storage_hasher entry_hasher)

-- struct type 0: a number; struct type 1: two handles to nodes of type 0
abbrev pub schema : ℕ → FieldTypes
schema zero = cons_types number_type nil_types
schema (suc n) = cons_types (ref_type 0) (cons_types (ref_type 0) nil_types)

abbrev pub root_types : FieldTypes
root_types = cons_types (vec_type (ref_type 1)) nil_types

abbrev pub no_meta : HirpdagArchiveNode → HirpdagMeta
no_meta a = record { count = 1; height = 1; flags = 0 }

abbrev pub State : Type 0
State = World (TableSharedSharded Inner) Stored ℕ

abbrev pub nodes_of : Interner schema State
nodes_of = interner schema entry_hasher table no_meta entry_eq_sound

abbrev pub start : State
start = record { table = table.build_tableshared; heap = no_objects; state = 0 }

pub start-Ready : nodes_of.Valid 10 start
unfolding strong_deref
start-Ready = record {
  hashconsed_nodes = built-IsHashconsed entry_hasher table no_objects 0 (λ p s l. absurd cc);
  closed = record { addresses = λ p s l. absurd cc; older = λ p s l. absurd cc };
  room = omega arith;
  well_typed = λ p s l. absurd cc;
}

abbrev pub leaf_fields : Values
leaf_fields = cons (number 5) nil

abbrev Made : ℕ → ℕ → Values → State → ℕ × State → Type 0
Made n t vs w r = Interned schema entry_hasher table no_meta entry_eq_sound n t vs w r

abbrev pub made : Option (ℕ × State) → ℕ × State
made none = (0, start)
made (some r) = r

made_lem :
    (n t : ℕ) (vs : Values) (w : State)
    → Returns (nodes_of.hirpdag_hashcons t vs w) (Made n t vs w)
    → Made n t vs w (made (nodes_of.hirpdag_hashcons t vs w))
made_lem n t vs w (r, run, m) = subst (Made n t vs w) (sym (ap made run)) m

-- the leaf, and the state after it is made
abbrev pub leaf : ℕ × State
leaf = made (nodes_of.hirpdag_hashcons 0 leaf_fields start)

leaf-Made : Made 9 0 leaf_fields start leaf
unfolding AllNodesIn AllNodes
leaf-Made = made_lem 9 0 leaf_fields start (
    nodes_of.hashcons_lem 9 0 leaf_fields start start-Ready (tt, tt)
      (field_ok (number_ok 5) no_fields))

abbrev pub pair_fields : Values
pair_fields = cons (node 0 leaf.0) (cons (node 0 leaf.0) nil)

-- the node that points to it twice
abbrev pub pair : ℕ × State
pair = made (nodes_of.hirpdag_hashcons 1 pair_fields leaf.1)

pair-Made : Made 8 1 pair_fields leaf.1 pair
unfolding AllNodesIn AllNodes
pair-Made = made_lem 8 1 pair_fields leaf.1 (
    nodes_of.hashcons_lem 8 1 pair_fields leaf.1 leaf-Made.0 (leaf-Made.1, (leaf-Made.1, tt))
      (field_ok (ref_ok 0 leaf.0) (field_ok (ref_ok 0 leaf.0) no_fields)))

pub fields-pair : (nodes_of.view pair.1).fields 1 pair.0 ≡ pair_fields
fields-pair = pair-Made.2

pub schema-AllFlat : (t : ℕ) → AllFlat (schema t)
schema-AllFlat zero = cons_flat number_flat nil_flat
schema-AllFlat (suc n) = cons_flat (ref_flat 0) (cons_flat (ref_flat 0) nil_flat)

pub roots-AllFlat : AllFlat root_types
roots-AllFlat = cons_flat (vec_flat (ref_flat 1)) nil_flat

abbrev pub roots : Values
roots = cons (vec (cons (node 1 pair.0) nil)) nil

-- The counter is above the roots' creation ids.
pub roots_below : AllNodesIn (Child (nodes_of.view pair.1) pair.1.state) roots
unfolding AllNodesIn AllNodes
roots_below =
    let (s, l, e) = pair-Made.1 in
    (((pair-Made.1, rw l (pair-Made.0.hashconsed_nodes.numbered.below pair.0 s l)), tt), tt)

pub roots_ok : HasTypes root_types roots
roots_ok = field_ok (vec_ok (cons_ok (ref_ok 1 pair.0) (nil_ok (ref_type 1)))) no_fields

pub pair-Ready : nodes_of.Valid 8 pair.1
pair-Ready = pair-Made.0

-- a format that keeps the archive as it is
abbrev pub plain_output : ArchiveWire → Result Message Decoded
plain_output archive = ok (intact archive)

pub plain_lem :
    (archive : ArchiveWire) (d : Decoded) → plain_output archive ≡ ok d → d ≡ intact archive
plain_lem archive d e = cc

abbrev pub plain : Format IsPlainArchive Decoded
plain = record {
  to_output = plain_output;
  from_input = λ d. d;
  from-to = λ archive d carried e. plain_lem archive d e;
}

abbrev pub entries : List HirpdagArchiveNode
entries =
    record { struct_type = 0; data_fields = leaf_fields }
    ∷ record { struct_type = 1; data_fields = pair_fields }
    ∷ []

abbrev pub seen : List (ℕ × ℕ)
seen = (0, 0) ∷ (1, 1) ∷ []

-- The addresses, and what is collected
pub runs :
    (leaf.0 ≡ 0)
    × (pair.0 ≡ 1)
    × (hirpdag_collect_archive (nodes_of.view pair.1) pair.1.state roots ≡ some (entries, seen))
unfolding inner Preset.ops sharded.table fallback.table VecLinear.table SharedSharded.get_or_insert
    SharedSharded.build_tableshared SharedSharded.make_hash SharedSharded.get_shard
    SharedSharded.shard_index HashmapFallback.get_or_insert HashmapFallback.default
    HashmapFallback.probe_slot HashmapFallback.fill_slot HashmapFallback.fill_vacancy
    HashmapFallback.insert_new HashmapFallback.use_fallback HashmapFallback.purge
    HashmapFallback.retain_alive HashmapFallback.get HashMap.lookup HashMap.insert HashMap.retain
    VecLinear.get_or_insert VecLinear.get VecLinear.linear_search VecLinear.default
    WeakEntry.upgrade_equal WeakEntry.get_data WeakEntry.get WeakEntry.is_alive WeakEntry.upgrades
    WeakEntry.alive WeakEntry.deref_equal Ref.write Ref.new Ref.strong_deref Ref.weak_upgrade
    Ref.weak_downgrade Ref.strong_clone Ref.strong_drop hirpdag_hashcons compute_hirpdag_meta
    storage_of fetch_add_one intern collect collect_each collect_ref hirpdag_collect_archive
    contains_key push_node
runs = (refl, refl, refl)
