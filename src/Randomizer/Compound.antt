-- ===== src/Randomizer/Compound.antt =====
-- randomizer.py: `perm_compound_assignment`, on the function's body.
use decomp_permuter_psyq.Prelude.{
  ℕ, ◌≡◌, refl, ap, Bool, true, false, Bool-cases, ◌&&◌, ◌||◌, not, List, [], ◌∷◌, ◌++◌, Result,
  if◌then◌else◌, inl, inr, arith,
}
use decomp_permuter_psyq.Text.{Text, codes}
use decomp_permuter_psyq.Text.Equality.{same_text, same_text→eq}
use decomp_permuter_psyq.Tree.Nodes.{
  Kind, assignment, binary_op, Attr, word, Node, node, Nodes, empty, more, one_of, fold,
}
use decomp_permuter_psyq.Tree.Index.{Span, Nested}
use decomp_permuter_psyq.Tree.Meaning.{meaning, at_node, meaning_same, meanings, meanings_same}
use decomp_permuter_psyq.Tree.Equal.{equal_ast}
use decomp_permuter_psyq.Tree.Same.{equal_ast_means}
use decomp_permuter_psyq.Tree.Inside.{collect, change_at}
use decomp_permuter_psyq.Randomizer.Region.{Region, contains_node, PassFailure}
use decomp_permuter_psyq.Randomizer.Operators.{unindexed, change_chosen}
use decomp_permuter_psyq.Randomizer.Meaning.{Keeps, change_chosen_means, &&-left}

abbrev pub operators : List Text
operators =
    codes "+"
    ∷ codes "-"
    ∷ codes "*"
    ∷ codes "/"
    ∷ codes "<<"
    ∷ codes ">>"
    ∷ codes "^"
    ∷ codes "|"
    ∷ codes "&"
    ∷ []

-- `op[:-1]`
unfoldable pub drop_end : Text → Text
drop_end [] = []
drop_end (c ∷ []) = []
drop_end (c ∷ d ∷ op) = c ∷ drop_end (d ∷ op)

-- `x = x op y`
abbrev pub repeats : Node Span → Node Span → Bool
repeats lvalue (node s binary_op (word op ∷ []) (more left (more right empty))) =
    equal_ast lvalue left && one_of op operators
repeats lvalue rvalue = false

-- the test of its visitor
abbrev pub compounds : Region → Node Span → Bool
compounds region (node s assignment (word op ∷ []) (more lvalue (more rvalue empty))) =
    contains_node region (node s assignment (word op ∷ []) (more lvalue (more rvalue empty)))
    && (not (same_text op (codes "=")) || repeats lvalue rvalue)
compounds region n = false

-- `copy.deepcopy`: the same tree of new nodes
unfoldable mutual
  pub deepcopy : Node Span → Node Span
  deepcopy (node s k attrs ns) = node unindexed k attrs (deepcopy_all ns)

  pub deepcopy_all : Nodes Span → Nodes Span
  deepcopy_all empty = empty
  deepcopy_all (more n ns) = more (deepcopy n) (deepcopy_all ns)

-- from `x = x op y`
abbrev pub combined : Span → Node Span → Node Span → Node Span
combined s lvalue (node t binary_op (word op ∷ []) (more left (more right empty))) =
    node s assignment (word (op ++ codes "=") ∷ []) (more lvalue (more right empty))
combined s lvalue rvalue =
    node s assignment (word (codes "=") ∷ []) (more lvalue (more rvalue empty))

-- from `x op= y`
abbrev pub parted : Span → Text → Node Span → Node Span → Node Span
parted s op lvalue rvalue =
    let value =
      node unindexed binary_op (word (drop_end op) ∷ [])
        (more (deepcopy lvalue) (more rvalue empty)) in
    node s assignment (word (codes "=") ∷ []) (more lvalue (more value empty))

abbrev pub convert : Node Span → Node Span
convert (node s assignment (word op ∷ []) (more lvalue (more rvalue empty))) =
    if same_text op (codes "=") then combined s lvalue rvalue else parted s op lvalue rvalue
convert n = n

unfoldable pub perm_compound_assignment : Region → Node Span → ℕ → Result PassFailure (Node Span)
unfolding collect change_at equal_ast
perm_compound_assignment region body pick =
    change_chosen (collect (compounds region) body) convert body pick

drop_end-append : (op : Text) (c : ℕ) → drop_end (op ++ c ∷ []) ≡ op
unfolding drop_end
drop_end-append [] c = refl
drop_end-append (d ∷ []) c = refl
drop_end-append (d ∷ e ∷ op) c = ap (λ t. d ∷ t) (drop_end-append (e ∷ op) c)

-- `op + "="` is not `=` for an operator.
longer : (op : Text) → one_of op operators ≡ true → same_text (op ++ codes "=") (codes "=") ≡ false
unfolding same_text
longer [] h = cc h
longer (c ∷ []) h = ground arith
longer (c ∷ d ∷ op) h = ground arith

module _ {D : Type 0} (means : Kind → List Attr → List D → D) where
  mutual
    unfolding deepcopy meanings

    deepcopy_means : (n : Node Span) → meaning means (deepcopy n) ≡ meaning means n
    deepcopy_means (node s k attrs ns) =
        meaning_same means unindexed s k attrs (deepcopy_all ns) ns (deepcopy_all_means ns)

    deepcopy_all_means : (ns : Nodes Span) → meanings means (deepcopy_all ns) ≡ meanings means ns
    deepcopy_all_means empty = refl
    deepcopy_all_means (more n ns) =
        meanings_same means (deepcopy n) n (deepcopy_all ns) ns (deepcopy_means n)
          (deepcopy_all_means ns)

  -- `x op= y` means what `x = x op y` does.
  abbrev pub Joins : Type 0
  Joins =
      (op : Text)
      → same_text op (codes "=") ≡ false
      → (x y : D)
      → means assignment (word op ∷ []) (x ∷ y ∷ [])
        ≡ means assignment (word (codes "=") ∷ [])
            (x ∷ means binary_op (word (drop_end op) ∷ []) (x ∷ y ∷ []) ∷ [])

  module _ (joins : Joins) where
    combined_means :
        (s : Span) (lvalue rvalue : Node Span)
        → repeats lvalue rvalue ≡ true
        → meaning means (combined s lvalue rvalue)
          ≡ meaning means
              (node s assignment (word (codes "=") ∷ []) (more lvalue (more rvalue empty)))
    unfolding meaning fold
    combined_means s lvalue (node t binary_op (word op ∷ []) (more left (more right empty))) h =
        let same : fold (at_node means) lvalue ≡ fold (at_node means) left =
          equal_ast_means means lvalue left
            (&&-left (equal_ast lvalue left) (one_of op operators) h) in
        rw (
          joins (op ++ codes "=") (longer op (ground (arith, h))) (fold (at_node means) lvalue)
              (fold (at_node means) right),
          drop_end-append op b'=',
          same,
        )
    combined_means s lvalue _ h = cc

    parted_means :
        (s : Span) (op : Text) (lvalue rvalue : Node Span)
        → same_text op (codes "=") ≡ false
        → meaning means (parted s op lvalue rvalue)
          ≡ meaning means (node s assignment (word op ∷ []) (more lvalue (more rvalue empty)))
    unfolding meaning fold
    parted_means s op lvalue rvalue h =
        let copy : fold (at_node means) (deepcopy lvalue) ≡ fold (at_node means) lvalue =
          deepcopy_means lvalue in
        rw (copy, joins op h (fold (at_node means) lvalue) (fold (at_node means) rvalue))

    convert_at :
        (s : Span) (op : Text) (lvalue rvalue : Node Span)
        → (not (same_text op (codes "=")) || repeats lvalue rvalue) ≡ true
        → meaning means
            (convert (node s assignment (word op ∷ []) (more lvalue (more rvalue empty))))
          ≡ meaning means (node s assignment (word op ∷ []) (more lvalue (more rvalue empty)))
    convert_at s op lvalue rvalue h = elim (Bool-cases (same_text op (codes "="))) [
      | inl e ↦
          let plain : op ≡ codes "=" = same_text→eq op (codes "=") e in
          rw (e, plain) (combined_means s lvalue rvalue (rw e at h))
      | inr e ↦ rw e (parted_means s op lvalue rvalue e)
    ]

    convert_means :
        (region : Region) (n : Node Span)
        → compounds region n ≡ true
        → meaning means (convert n) ≡ meaning means n
    convert_means region (node s assignment (word op ∷ []) (more lvalue (more rvalue empty))) h =
        convert_at s op lvalue rvalue (ground (arith, h))
    convert_means region _ h = cc

    -- Where `x op= y` means what `x = x op y` does, and for a body whose indices nest as those of
    -- `compute_node_indices` do, `perm_compound_assignment` fails exactly if the body has no assignment of
    -- either form inside the region, and else gives a body of the same meaning, whichever it picks.
    pub perm_compound_assignment_means :
        (region : Region) (body : Node Span) (low high pick : ℕ)
        → Nested low high body
        → Keeps means
            (collect (compounds region) body)
            body
            (perm_compound_assignment region body pick)
    unfolding perm_compound_assignment
    perm_compound_assignment_means region body low high pick nested =
        change_chosen_means means (compounds region) convert body low high pick nested
          (convert_means region)
