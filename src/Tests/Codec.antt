-- ===== src/Tests/Codec.antt =====
-- A binary format for archives, which writes a tag before each value and each element of a sequence.
use hirpdag.Base.{
  ℕ, zero, suc, ◌+◌, ◌<◌, ◌≡◌, refl, ap, ◌∙◌, Option, none, some, List, [], ◌∷◌, ◌++◌, arith,
  length, Result, ok, err,
}
use hirpdag.Serialize.Archive.{NodeWire, ArchiveWire, Decoded, intact, AnyArchive, Format}
use hirpdag.Serialize.Wire.{
  Wire, Wires, Message, other_format_error, uint, str, none_wire, some_wire, seq, newtype_variant,
  nil_wires, cons_wires,
}
use hirpdag.Tests.Header.{split, split-append}

abbrev mutual
  pub write : Wire → List ℕ → List ℕ
  write (uint n) rest = 0 ∷ n ∷ rest
  write (str s) rest = 1 ∷ length s ∷ (s ++ rest)
  write none_wire rest = 2 ∷ rest
  write (some_wire x) rest = 3 ∷ write x rest
  write (seq xs) rest = 4 ∷ write_all xs rest
  write (newtype_variant i x) rest = 5 ∷ i ∷ write x rest

  pub write_all : Wires → List ℕ → List ℕ
  write_all nil_wires rest = 0 ∷ rest
  write_all (cons_wires x xs) rest = 1 ∷ write x (write_all xs rest)

abbrev read_str : Option (List ℕ × List ℕ) → Option (Wire × List ℕ)
read_str none = none
read_str (some (s, rest)) = some (str s, rest)

abbrev wrap : (Wire → Wire) → Option (Wire × List ℕ) → Option (Wire × List ℕ)
wrap f none = none
wrap f (some (x, rest)) = some (f x, rest)

abbrev wrap_seq : Option (Wires × List ℕ) → Option (Wire × List ℕ)
wrap_seq none = none
wrap_seq (some (xs, rest)) = some (seq xs, rest)

abbrev wrap_cons : Wire → Option (Wires × List ℕ) → Option (Wires × List ℕ)
wrap_cons x none = none
wrap_cons x (some (xs, rest)) = some (cons_wires x xs, rest)

abbrev then_all :
    Option (Wire × List ℕ) → (List ℕ → Option (Wires × List ℕ)) → Option (Wires × List ℕ)
then_all none f = none
then_all (some (x, rest)) f = wrap_cons x (f rest)

mutual
  read : ℕ → List ℕ → Option (Wire × List ℕ)
  read zero bytes = none
  read (suc f) (zero ∷ n ∷ rest) = some (uint n, rest)
  read (suc f) (suc zero ∷ n ∷ rest) = read_str (split n rest)
  read (suc f) (suc (suc zero) ∷ rest) = some (none_wire, rest)
  read (suc f) (suc (suc (suc zero)) ∷ rest) = wrap some_wire (read f rest)
  read (suc f) (suc (suc (suc (suc zero))) ∷ rest) = wrap_seq (read_all f rest)
  read (suc f) (suc (suc (suc (suc (suc n)))) ∷ i ∷ rest) = wrap (newtype_variant i) (read f rest)
  read (suc f) _ = none

  read_all : ℕ → List ℕ → Option (Wires × List ℕ)
  read_all zero bytes = none
  read_all (suc f) (zero ∷ rest) = some (nil_wires, rest)
  read_all (suc f) (suc n ∷ rest) = then_all (read f rest) (read_all f)
  read_all (suc f) [] = none

length-append : (s rest : List ℕ) → length (s ++ rest) ≡ length s + length rest
length-append [] rest = omega arith
length-append (c ∷ s) rest = omega (arith, length-append s rest)

mutual
  length-write : (x : Wire) (rest : List ℕ) → length rest < length (write x rest)
  length-write (uint n) rest = omega arith
  length-write (str s) rest = omega (arith, length-append s rest)
  length-write none_wire rest = omega arith
  length-write (some_wire x) rest = omega (arith, length-write x rest)
  length-write (seq xs) rest = omega (arith, length-write_all xs rest)
  length-write (newtype_variant i x) rest = omega (arith, length-write x rest)

  length-write_all : (xs : Wires) (rest : List ℕ) → length rest < length (write_all xs rest)
  length-write_all nil_wires rest = omega arith
  length-write_all (cons_wires x xs) rest =
      omega (arith, length-write_all xs rest, length-write x (write_all xs rest))

mutual
  unfolding read read_all

  read-write :
      (x : Wire) (f : ℕ) (rest : List ℕ)
      → length (write x rest) < f
      → read f (write x rest) ≡ some (x, rest)
  read-write x zero rest h = absurd (omega arith)
  read-write (uint n) (suc f) rest h = refl
  read-write (str s) (suc f) rest h = ap read_str (split-append s rest)
  read-write none_wire (suc f) rest h = refl
  read-write (some_wire x) (suc f) rest h = ap (wrap some_wire) (read-write x f rest (omega arith))
  read-write (seq xs) (suc f) rest h = ap wrap_seq (read_all-write_all xs f rest (omega arith))
  read-write (newtype_variant i x) (suc f) rest h =
      ap (wrap (newtype_variant i)) (read-write x f rest (omega arith))

  read_all-write_all :
      (xs : Wires) (f : ℕ) (rest : List ℕ)
      → length (write_all xs rest) < f
      → read_all f (write_all xs rest) ≡ some (xs, rest)
  read_all-write_all xs zero rest h = absurd (omega arith)
  read_all-write_all nil_wires (suc f) rest h = refl
  read_all-write_all (cons_wires x xs) (suc f) rest h =
      ap (λ o. then_all o (read_all f)) (read-write x f (write_all xs rest) (omega arith))
      ∙ ap (wrap_cons x)
          (read_all-write_all xs f rest (omega (arith, length-write x (write_all xs rest))))

abbrev pub write_nodes : List NodeWire → List ℕ → List ℕ
write_nodes [] rest = 0 ∷ rest
write_nodes (n ∷ ns) rest = 1 ∷ n.node_type ∷ write_all n.field_wires (write_nodes ns rest)

abbrev add_node : ℕ → Wires → Option (List NodeWire × List ℕ) → Option (List NodeWire × List ℕ)
add_node t xs none = none
add_node t xs (some (ns, rest)) = some (record { node_type = t; field_wires = xs } ∷ ns, rest)

abbrev then_nodes :
    ℕ
    → Option (Wires × List ℕ)
    → (List ℕ → Option (List NodeWire × List ℕ))
    → Option (List NodeWire × List ℕ)
then_nodes t none f = none
then_nodes t (some (xs, rest)) f = add_node t xs (f rest)

read_nodes : ℕ → List ℕ → Option (List NodeWire × List ℕ)
read_nodes zero bytes = none
read_nodes (suc f) (zero ∷ rest) = some ([], rest)
read_nodes (suc f) (suc n ∷ t ∷ rest) = then_nodes t (read_all f rest) (read_nodes f)
read_nodes (suc f) _ = none

length-write_nodes :
    (ns : List NodeWire) (rest : List ℕ) → length rest < length (write_nodes ns rest)
length-write_nodes [] rest = omega arith
length-write_nodes (n ∷ ns) rest =
    omega (arith, length-write_nodes ns rest, length-write_all n.field_wires (write_nodes ns rest))

read_nodes-write_nodes :
    (ns : List NodeWire) (f : ℕ) (rest : List ℕ)
    → length (write_nodes ns rest) < f
    → read_nodes f (write_nodes ns rest) ≡ some (ns, rest)
unfolding read_nodes
read_nodes-write_nodes ns zero rest h = absurd (omega arith)
read_nodes-write_nodes [] (suc f) rest h = refl
read_nodes-write_nodes (n ∷ ns) (suc f) rest h =
    ap (λ o. then_nodes n.node_type o (read_nodes f))
      (read_all-write_all n.field_wires f (write_nodes ns rest) (omega arith))
    ∙ ap (add_node n.node_type n.field_wires) (
        read_nodes-write_nodes ns f rest
          (omega (arith, length-write_all n.field_wires (write_nodes ns rest))))

abbrev pub write_archive : ArchiveWire → List ℕ
write_archive a = a.version ∷ write_nodes a.node_wires (write_all a.root_wires [])

abbrev bad : Decoded
bad = record {
  version_read = err other_format_error;
  nodes_read = [];
  roots_read = err other_format_error;
}

abbrev roots_after : ℕ → List NodeWire → Option (Wires × List ℕ) → Decoded
roots_after v ns none = bad
roots_after v ns (some (xs, rest)) =
    intact (record { version = v; node_wires = ns; root_wires = xs })

abbrev nodes_after : ℕ → ℕ → Option (List NodeWire × List ℕ) → Decoded
nodes_after f v none = bad
nodes_after f v (some (ns, rest)) = roots_after v ns (read_all f rest)

pub read_archive : List ℕ → Decoded
read_archive [] = bad
read_archive (v ∷ bytes) =
    nodes_after (suc (length bytes)) v (read_nodes (suc (length bytes)) bytes)

abbrev pub write_ok : ArchiveWire → Result Message (List ℕ)
write_ok a = ok (write_archive a)

pub read_archive-write_ok :
    (a : ArchiveWire) (bytes : List ℕ) → write_ok a ≡ ok bytes → read_archive bytes ≡ intact a
unfolding read_archive
read_archive-write_ok a bytes e =
    let b : write_archive a ≡ bytes = cc in
    let body = write_nodes a.node_wires (write_all a.root_wires []) in
    let f = suc (length body) in
    rw (← b) (
      ap (nodes_after f a.version)
        (read_nodes-write_nodes a.node_wires f (write_all a.root_wires []) (omega arith))
      ∙ ap (roots_after a.version a.node_wires) (
          read_all-write_all a.root_wires f []
            (omega (arith, length-write_nodes a.node_wires (write_all a.root_wires [])))))

abbrev pub binary : Format AnyArchive (List ℕ)
binary = record {
  to_output = write_ok;
  from_input = read_archive;
  from-to = λ a b any e. read_archive-write_ok a b e;
}
