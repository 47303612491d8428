-- ===== src/Randomizer/Meaning.antt =====
-- randomizer.py: passes that keep what the function means.
use decomp_permuter_psyq.Prelude.{
  ℕ, zero, suc, ◌≡◌, refl, sym, Bool, true, false, ◌&&◌, Bool-cases, ◌⊎◌, inl, inr, List, [], ◌∷◌,
  Result, ok, raised,
}
use decomp_permuter_psyq.Text.{Text, codes}
use decomp_permuter_psyq.Text.Equality.{same_text, same_text→eq}
use decomp_permuter_psyq.Tree.Nodes.{
  Kind, binary_op, Attr, word, Node, node, Nodes, empty, more, mark, one_of, fold,
}
use decomp_permuter_psyq.Tree.Index.{Span, Nested}
use decomp_permuter_psyq.Tree.Meaning.{meaning, at_node}
use decomp_permuter_psyq.Tree.Inside.{
  Inside, collect, collect-Inside, Each, change_at, change_at_means, start-injective,
}
use decomp_permuter_psyq.Randomizer.Region.{Region, choice, PassFailure, randomization_failure}
use decomp_permuter_psyq.Randomizer.Operators.{
  change_chosen, commutes, commutative_ops, has_operator, mirrored, swap_operands, perm_commutative,
}

Each_choice :
    (P : Node Span → Type 0) (c : Node Span) (cs : List (Node Span)) (pick : ℕ)
    → P c
    → Each P cs
    → P (choice c cs pick)
Each_choice P c cs zero p ps = p
Each_choice P c [] (suc pick) p ps = p
Each_choice P c (d ∷ cs) (suc pick) p (q, ps) = Each_choice P d cs pick q ps

pub one_of-cons :
    (op t : Text) (ts : List Text) → one_of op (t ∷ ts) ≡ true → (op ≡ t) ⊎ (one_of op ts ≡ true)
one_of-cons op t ts h = elim (Bool-cases (same_text op t)) [
  | inl e ↦ inl (same_text→eq op t e)
  | inr e ↦ inr (rw e at h)
]

-- What holds of each text of a list holds of one that is found in it.
abbrev EachText : (Text → Type 0) → List Text → Type 0
EachText P [] = Unit {0}
EachText P (t ∷ ts) = P t × EachText P ts

Each_of :
    (P : Text → Type 0) (op : Text) (ts : List Text) → EachText P ts → one_of op ts ≡ true → P op
Each_of P op [] each h = cc h
Each_of P op (t ∷ ts) (p, ps) h = elim (one_of-cons op t ts h) [
  | inl e ↦ rw e p
  | inr h' ↦ Each_of P op ts ps h'
]

module _ {D : Type 0} (means : Kind → List Attr → List D → D) where
  -- A pass that fails exactly where it has no candidate, and else gives a body of the same meaning.
  abbrev pub Keeps : List (Node Span) → Node Span → Result PassFailure (Node Span) → Type 0
  Keeps [] body r = r ≡ raised randomization_failure
  Keeps (c ∷ cands) body r =
      (body' : Node Span) × (r ≡ ok body') × (meaning means body' ≡ meaning means body)

  -- Only the chosen node changes, since no other has its start.
  pub change_chosen_means :
      (test : Node Span → Bool) (change : Node Span → Node Span) (body : Node Span)
      (low high pick : ℕ)
      → Nested low high body
      → ((n : Node Span) → test n ≡ true → meaning means (change n) ≡ meaning means n)
      → Keeps (collect test body) body (change_chosen (collect test body) change body pick)
  change_chosen_means test change body low high pick nested keeps =
      by_cands (collect test body) (collect-Inside test body)
    where
      Candidate : Node Span → Type 0
      Candidate x = (test x ≡ true) × Inside x body

      by_cands :
          (cs : List (Node Span))
          → Each Candidate cs
          → Keeps cs body (change_chosen cs change body pick)
      by_cands [] e = refl
      by_cands (c ∷ cs) (p, ps) =
          let x = choice c cs pick in
          let (taken, i) = Each_choice Candidate c cs pick p ps in
          (
            change_at (mark x).start change body,
            refl,
            change_at_means means (mark x).start change body (λ y j same.
                rw (start-injective body y x low high nested j i same) (keeps x taken)),
          )

-- the shape of an operation that a visitor takes
abbrev pub Operation : List Text → Node Span → Type 0
Operation ops n =
    (s : Span) × (op : Text) × (attrs : List Attr) × (ns : Nodes Span) × (n
      ≡ node s binary_op (word op ∷ attrs) ns)
    × (one_of op ops ≡ true)

pub has_operator→Operation :
    (ops : List Text) (n : Node Span) → has_operator ops n ≡ true → Operation ops n
has_operator→Operation ops (node s binary_op (word op ∷ attrs) ns) h = (s, op, attrs, ns, refl, h)
has_operator→Operation ops _ h = cc h

pub &&-left : (a b : Bool) → (a && b) ≡ true → a ≡ true
&&-left true b h = refl
&&-left false b h = h

module _ {D : Type 0} (means : Kind → List Attr → List D → D) where
  -- Operations whose operands may be exchanged, and comparisons that say the same the other way round.
  pub record Laws : Type 0 where
    pub exchanges :
        (op : Text)
        → one_of op (
            codes "+"
            ∷ codes "*"
            ∷ codes "|"
            ∷ codes "&"
            ∷ codes "^"
            ∷ codes "=="
            ∷ codes "!="
            ∷ [])
          ≡ true
        → (attrs : List Attr) (x y : D)
        → means binary_op (word op ∷ attrs) (y ∷ x ∷ [])
          ≡ means binary_op (word op ∷ attrs) (x ∷ y ∷ [])
    pub less :
        (attrs : List Attr) (x y : D)
        → means binary_op (word (codes ">") ∷ attrs) (y ∷ x ∷ [])
          ≡ means binary_op (word (codes "<") ∷ attrs) (x ∷ y ∷ [])
    pub at_most :
        (attrs : List Attr) (x y : D)
        → means binary_op (word (codes ">=") ∷ attrs) (y ∷ x ∷ [])
          ≡ means binary_op (word (codes "<=") ∷ attrs) (x ∷ y ∷ [])

  abbrev Turns : Text → Type 0
  Turns op =
      (attrs : List Attr) (x y : D)
      → means binary_op (word (mirrored op) ∷ attrs) (y ∷ x ∷ [])
        ≡ means binary_op (word op ∷ attrs) (x ∷ y ∷ [])

  Laws-Turns : Laws → (op : Text) → one_of op commutative_ops ≡ true → Turns op
  unfolding same_text
  Laws-Turns laws op taken =
      Each_of Turns op commutative_ops
        (
          laws.exchanges (codes "+") refl,
          (
            laws.exchanges (codes "*") refl,
            (
              laws.exchanges (codes "|") refl,
              (
                laws.exchanges (codes "&") refl,
                (
                  laws.exchanges (codes "^") refl,
                  (
                    laws.less,
                    (
                      (λ attrs x y. sym (laws.less attrs y x)),
                      (
                        laws.at_most,
                        (
                          (λ attrs x y. sym (laws.at_most attrs y x)),
                          (
                            laws.exchanges (codes "==") refl,
                            (laws.exchanges (codes "!=") refl, tt),
                          ),
                        ),
                      ),
                    ),
                  ),
                ),
              ),
            ),
          ),
        )
        taken

  swap_at :
      (op : Text)
      → Turns op
      → (s : Span) (attrs : List Attr) (ns : Nodes Span)
      → meaning means (swap_operands (node s binary_op (word op ∷ attrs) ns))
        ≡ meaning means (node s binary_op (word op ∷ attrs) ns)
  unfolding meaning fold
  swap_at op turns s attrs (more x (more y empty)) =
      turns attrs (fold (at_node means) x) (fold (at_node means) y)
  swap_at op turns s attrs empty = refl
  swap_at op turns s attrs (more x empty) = refl
  swap_at op turns s attrs (more x (more y (more z ns))) = refl

  -- Where `+`, `*`, `|`, `&`, `^`, `==` and `!=` commute, `y > x` means what `x < y` does and `y >= x` what
  -- `x <= y` does, and for a body whose indices nest as those
  -- of `compute_node_indices` do, `perm_commutative` fails exactly if the body has no such operation inside
  -- the region, and else gives a body of the same meaning, whichever it picks.
  pub perm_commutative_means :
      Laws
      → (region : Region) (body : Node Span) (low high pick : ℕ) → Nested low high body
      → Keeps means (collect (commutes region) body) body (perm_commutative region body pick)
  unfolding perm_commutative
  perm_commutative_means laws region body low high pick nested =
      change_chosen_means means (commutes region) swap_operands body low high pick nested λ n h.
        let (s, op, attrs, ns, e, taken) =
          has_operator→Operation commutative_ops n (&&-left _ _ h) in
        rw e (swap_at op (Laws-Turns laws op taken) s attrs ns)
