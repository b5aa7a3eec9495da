-- ===== src/Serialize/Deep.antt =====
-- `hirpdag_cmp_deep` of hirpdag/src/base/reference.rs: the derived `Ord` of the fields of two nodes of
-- one struct type, in which a handle compares by its creation id, as hirpdag_derive/src/lib.rs
-- generates it.
use Prim.Native.Nat.{compare, Ordering}
use mathlib.Core.Path.{subst}
use native.Mathlib.Omega.{compare-eq}
use hirpdag.Base.{ℕ, ◌≡◌, ◌≢◌, refl, false, List, [], ◌∷◌, ◌==◌, if◌then◌else◌, arith, ==_self}
use hirpdag.Serialize.Nodes.{Nodes, IsDag, AllNodesIn, AllNodes}
use hirpdag.Value.{Value, Values, number, text, absent, present, vec, variant, node, nil, cons}

-- the next part decides where this one is equal
abbrev pub then_cmp : Ordering → Ordering → Ordering
then_cmp Ordering.eq next = next
then_cmp Ordering.lt next = Ordering.lt
then_cmp Ordering.gt next = Ordering.gt

-- `str::cmp`
unfoldable pub text_cmp : List ℕ → List ℕ → Ordering
text_cmp [] [] = Ordering.eq
text_cmp [] (b ∷ r) = Ordering.lt
text_cmp (a ∷ s) [] = Ordering.gt
text_cmp (a ∷ s) (b ∷ r) = then_cmp (compare a b) (text_cmp s r)

-- `Ord::cmp` of handles to live nodes of one type
unfoldable pub node_cmp : (ℕ → ℕ → ℕ) → ℕ → ℕ → ℕ → Ordering
node_cmp creation_id t p q =
    if p == q then Ordering.eq else compare (creation_id t p) (creation_id t q)

-- the derived `Ord`; values of two types are never compared
unfoldable mutual
  unfolding text_cmp node_cmp

  pub value_cmp : (ℕ → ℕ → ℕ) → Value → Value → Ordering
  value_cmp creation_id (number n) (number m) = compare n m
  value_cmp creation_id (text s) (text r) = text_cmp s r
  value_cmp creation_id absent absent = Ordering.eq
  value_cmp creation_id absent (present w) = Ordering.lt
  value_cmp creation_id (present v) absent = Ordering.gt
  value_cmp creation_id (present v) (present w) = value_cmp creation_id v w
  value_cmp creation_id (vec vs) (vec ws) = values_cmp creation_id vs ws
  value_cmp creation_id (variant i v) (variant j w) =
      then_cmp (compare i j) (value_cmp creation_id v w)
  value_cmp creation_id (node t p) (node u q) = node_cmp creation_id t p q
  value_cmp creation_id _ _ = Ordering.eq

  -- the fields of a struct, or the items of a `Vec`
  pub values_cmp : (ℕ → ℕ → ℕ) → Values → Values → Ordering
  values_cmp creation_id nil nil = Ordering.eq
  values_cmp creation_id nil (cons w ws) = Ordering.lt
  values_cmp creation_id (cons v vs) nil = Ordering.gt
  values_cmp creation_id (cons v vs) (cons w ws) =
      then_cmp (value_cmp creation_id v w) (values_cmp creation_id vs ws)

unfoldable pub hirpdag_cmp_deep : Nodes → ℕ → ℕ → ℕ → Ordering
unfolding values_cmp
hirpdag_cmp_deep nodes t p q = values_cmp nodes.creation_id (nodes.fields t p) (nodes.fields t q)

text_cmp_self : (s : List ℕ) → text_cmp s s ≡ Ordering.eq
unfolding text_cmp
text_cmp_self [] = refl
text_cmp_self (a ∷ s) = ground (arith, text_cmp_self s)

mutual
  unfolding value_cmp values_cmp node_cmp

  value_cmp_self : (id : ℕ → ℕ → ℕ) (v : Value) → value_cmp id v v ≡ Ordering.eq
  value_cmp_self id (number n) = ground arith
  value_cmp_self id (text s) = text_cmp_self s
  value_cmp_self id absent = refl
  value_cmp_self id (present v) = value_cmp_self id v
  value_cmp_self id (vec vs) = values_cmp_self id vs
  value_cmp_self id (variant i v) = ground (arith, value_cmp_self id v)
  value_cmp_self id (node t p) = rw (==_self p) refl

  values_cmp_self : (id : ℕ → ℕ → ℕ) (vs : Values) → values_cmp id vs vs ≡ Ordering.eq
  values_cmp_self id nil = refl
  values_cmp_self id (cons v vs) = ground (arith, value_cmp_self id v, values_cmp_self id vs)

-- these values, and then those
unfoldable pub prepend : Values → Values → Values
prepend nil ws = ws
prepend (cons v vs) ws = cons v (prepend vs ws)

values_cmp-prepend :
    (id : ℕ → ℕ → ℕ) (pre vs ws : Values)
    → values_cmp id (prepend pre vs) (prepend pre ws) ≡ values_cmp id vs ws
unfolding values_cmp prepend
values_cmp-prepend id nil vs ws = refl
values_cmp-prepend id (cons v pre) vs ws =
    rw (value_cmp_self id v) (values_cmp-prepend id pre vs ws)

AllNodesIn-prepend :
    (P : ℕ → ℕ → Type 0) (pre ws : Values) → AllNodesIn P (prepend pre ws) → AllNodesIn P ws
unfolding prepend AllNodesIn
AllNodesIn-prepend P nil ws h = h
AllNodesIn-prepend P (cons v pre) ws h = AllNodesIn-prepend P pre ws h.1

then_cmp_decided : (o next : Ordering) → o ≢ Ordering.eq → then_cmp o next ≡ o
then_cmp_decided Ordering.eq next h = absurd (h refl)
then_cmp_decided Ordering.lt next h = refl
then_cmp_decided Ordering.gt next h = refl

compare_distinct : (n m : ℕ) → n ≢ m → compare n m ≢ Ordering.eq
compare_distinct n m h e = h (compare-eq n m e)

-- fields that first differ in a handle
values_cmp_first :
    (id : ℕ → ℕ → ℕ) (u a b : ℕ) (pre vs ws xs ys : Values)
    → xs ≡ prepend pre (cons (node u a) vs)
    → ys ≡ prepend pre (cons (node u b) ws)
    → a ≢ b
    → id u a ≢ id u b
    → (values_cmp id xs ys ≡ compare (id u a) (id u b)) × (values_cmp id xs ys ≢ Ordering.eq)
unfolding values_cmp value_cmp node_cmp
values_cmp_first id u a b pre vs ws xs ys e f differ distinct =
    let decided =
      then_cmp_decided (compare (id u a) (id u b)) (values_cmp id vs ws)
        (compare_distinct (id u a) (id u b) distinct) in
    let other : (a == b) ≡ false = ground (arith, differ) in
    let whole : values_cmp id xs ys ≡ compare (id u a) (id u b) =
      rw (e, f, values_cmp-prepend id pre (cons (node u a) vs) (cons (node u b) ws), other)
        decided in
    (whole, λ same. compare_distinct (id u a) (id u b) distinct cc)

live_child :
    (nodes : Nodes) (t p u a : ℕ) (pre vs : Values)
    → IsDag nodes
    → nodes.IsLive t p
    → nodes.fields t p ≡ prepend pre (cons (node u a) vs)
    → nodes.IsLive u a
unfolding AllNodesIn AllNodes
live_child nodes t p u a pre vs dag l e =
    (AllNodesIn-prepend _ pre (cons (node u a) vs) (subst (AllNodesIn _) e (dag.below t p l))).0.0

-- Where two nodes first differ in a handle, `hirpdag_cmp_deep` compares the creation ids of those two
-- nodes, whatever data they have: whichever was made first is less, and the result is never `Equal`.
pub hirpdag_cmp_deep_by_creation :
    (nodes : Nodes) (t p q u a b : ℕ) (pre vs ws : Values)
    → IsDag nodes
    → nodes.IsLive t p
    → nodes.IsLive t q
    → nodes.fields t p ≡ prepend pre (cons (node u a) vs)
    → nodes.fields t q ≡ prepend pre (cons (node u b) ws)
    → a ≢ b
    → (hirpdag_cmp_deep nodes t p q ≡ compare (nodes.creation_id u a) (nodes.creation_id u b))
      × (hirpdag_cmp_deep nodes t p q ≢ Ordering.eq)
unfolding hirpdag_cmp_deep values_cmp value_cmp node_cmp AllNodesIn AllNodes
hirpdag_cmp_deep_by_creation nodes t p q u a b pre vs ws dag l m e f differ =
    values_cmp_first nodes.creation_id u a b pre vs ws _ _ e f differ (λ same.
      differ
        (dag.distinct u a u b (live_child nodes t p u a pre vs dag l e)
          (live_child nodes t q u b pre ws dag m f) same).1)
