-- ===== src/Randomizer/Chains.antt =====
-- randomizer.py: the indices that the visitors of reads and writes come to.
use decomp_permuter_psyq.Prelude.{
  ℕ, suc, ◌≤◌, Bool, true, false, ◌&&◌, List, [], ◌∷◌, ◌++◌, Option, none, some, if◌then◌else◌,
  arith,
}
use decomp_permuter_psyq.Text.{Text, codes}
use decomp_permuter_psyq.Text.Equality.{same_text}
use decomp_permuter_psyq.Tree.Nodes.{
  Kind, unary_op, assignment, decl, struct_ref, id, Attr, word, present, Node, node, Nodes, empty,
  more, mark, fold, fold_all, gathered, to_list,
}
use decomp_permuter_psyq.Tree.Index.{Span, Nested, NestedAll}
use decomp_permuter_psyq.Randomizer.Locations.{
  Places, first_id, is_there, reads_at, writes_at, add_place, stepped,
}

-- indices that increase between two bounds
abbrev pub Chain : ℕ → ℕ → Places → Type 0
Chain low high [] = low ≤ high
Chain low high ((name, loc) ∷ places) = (low ≤ loc) × Chain (suc loc) high places

-- chains one behind the other
abbrev pub Chains : ℕ → ℕ → List Places → Type 0
Chains low high [] = low ≤ high
Chains low high (r ∷ rs) = (mid : ℕ) × Chain low mid r × Chains mid high rs

Chain-le : (low high : ℕ) (ps : Places) → Chain low high ps → low ≤ high
Chain-le low high [] h = h
Chain-le low high ((name, loc) ∷ ps) (l, c) = omega (arith, Chain-le (suc loc) high ps c)

Chain_weaken :
    (low low' high high' : ℕ) (ps : Places)
    → low' ≤ low
    → high ≤ high'
    → Chain low high ps
    → Chain low' high' ps
Chain_weaken low low' high high' [] l h c = omega arith
Chain_weaken low low' high high' ((name, loc) ∷ ps) l h (s, c) =
    (omega arith, Chain_weaken (suc loc) (suc loc) high high' ps (omega arith) h c)

Chain-append :
    (low mid high : ℕ) (ps qs : Places)
    → Chain low mid ps
    → Chain mid high qs
    → Chain low high (ps ++ qs)
Chain-append low mid high [] qs c d = Chain_weaken mid low high high qs c (omega arith) d
Chain-append low mid high ((name, loc) ∷ ps) qs (s, c) d =
    (s, Chain-append (suc loc) mid high ps qs c d)

Chains-le : (low high : ℕ) (rs : List Places) → Chains low high rs → low ≤ high
Chains-le low high [] h = h
Chains-le low high (r ∷ rs) (mid, c, d) =
    omega (arith, Chain-le low mid r c, Chains-le mid high rs d)

Chain-gathered :
    (low high : ℕ) (rs : List Places) → Chains low high rs → Chain low high (gathered rs)
Chain-gathered low high [] h = h
Chain-gathered low high (r ∷ rs) (mid, c, d) =
    Chain-append low mid high r (gathered rs) c (Chain-gathered mid high rs d)

-- What a visitor makes of a node keeps between the node's indices.
abbrev pub Ordered : (Span → Kind → List Attr → List (Node Span) → List Places → Places) → Type 0
Ordered alg =
    (s : Span) (k : Kind) (attrs : List Attr) (ns : List (Node Span)) (rs : List Places)
    → Chains (suc s.start) s.end rs
    → Chain s.start s.end (alg s k attrs ns rs)

module _ (alg : Span → Kind → List Attr → List (Node Span) → List Places → Places)
    (ordered : Ordered alg) where
  mutual
    unfolding fold

    pub fold-Chain :
        (n : Node Span) (low high : ℕ) → Nested low high n → Chain low (mark n).end (fold alg n)
    fold-Chain (node s k attrs ns) low high (l, m, h, inside) =
        Chain_weaken s.start low s.end s.end _ l (omega arith) (
          ordered s k attrs (to_list ns) (fold_all alg ns)
            (fold_all-Chains ns (suc s.start) s.end inside))

    fold_all-Chains :
        (ns : Nodes Span) (low high : ℕ) → NestedAll low high ns → Chains low high (fold_all alg ns)
    fold_all-Chains empty low high h = h
    fold_all-Chains (more n ns) low high (h, hs) =
        ((mark n).end, fold-Chain n low high h, fold_all-Chains ns (mark n).end high hs)

module _ (s : Span) (rs : List Places) (h : Chains (suc s.start) s.end rs) where
  all : Chain s.start s.end (gathered rs)
  all =
      Chain_weaken (suc s.start) s.start s.end s.end _ (omega arith) (omega arith)
        (Chain-gathered (suc s.start) s.end rs h)

  nothing : Chain s.start s.end []
  nothing = omega (arith, Chains-le (suc s.start) s.end rs h)

  here : (name : Text) → Chain s.start s.end ((name, s.start) ∷ [])
  here name = omega (arith, Chains-le (suc s.start) s.end rs h)

  placed : (name : Option Text) → Chain s.start s.end (add_place name s.start (gathered rs))
  placed none = all
  placed (some name) = (omega arith, Chain-gathered (suc s.start) s.end rs h)

-- A write is noted at the index of the node, before those inside it.
pub writes_at-Ordered : Ordered writes_at
writes_at-Ordered s decl (word name ∷ attrs) ns rs h = placed s rs h (some name)
writes_at-Ordered s unary_op (word op ∷ attrs) ns rs h = placed s rs h (stepped op (first_id ns))
writes_at-Ordered s assignment attrs ns rs h = placed s rs h (first_id ns)
writes_at-Ordered s _ attrs ns rs h = all s rs h

first_part :
    (s : Span) (r : Places) (rs : List Places)
    → Chains (suc s.start) s.end (r ∷ rs)
    → Chain s.start s.end r
first_part s r rs (mid, c, d) =
    Chain_weaken (suc s.start) s.start mid s.end r (omega arith) (Chains-le mid s.end rs d) c

either :
    (s : Span) (b : Bool) (rs : List Places)
    → Chains (suc s.start) s.end rs
    → Chain s.start s.end (if b then [] else gathered rs)
either s true rs h = nothing s rs h
either s false rs h = all s rs h

second_part :
    (s : Span) (q r : Places) (rs : List Places)
    → Chains (suc s.start) s.end (q ∷ r ∷ rs)
    → Chain s.start s.end r
second_part s q r rs (low, b, h) = first_part s r rs (
    let (mid, c, d) = h in
    (
      mid,
      Chain_weaken low (suc s.start) mid mid r (Chain-le (suc s.start) low q b) (omega arith) c,
      d,
    ))

-- A read is noted at the index of its `ID`.
pub reads_at-Ordered : Ordered reads_at
reads_at-Ordered s decl (name ∷ quals ∷ align ∷ storage ∷ funcspec ∷ present ∷ attrs) ns
      (type ∷ init ∷ rs) h =
    second_part s type init rs h
reads_at-Ordered s decl attrs ns rs h = nothing s rs h
reads_at-Ordered s id (word name ∷ attrs) ns rs h = here s rs h name
reads_at-Ordered s unary_op (word op ∷ attrs) ns rs h =
    either s (same_text op (codes "&") && is_there (first_id ns)) rs h
reads_at-Ordered s struct_ref attrs ns (r ∷ rs) h = first_part s r rs h
reads_at-Ordered s assignment attrs ns rs h = either s (is_there (first_id ns)) rs h
reads_at-Ordered s _ attrs ns rs h = all s rs h
