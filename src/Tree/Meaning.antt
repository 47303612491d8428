-- ===== src/Tree/Meaning.antt =====
-- What a tree means, where each node's meaning is made of those of its children.
use decomp_permuter_psyq.Prelude.{◌≡◌, refl, ap, ap₂, List, ◌∷◌}
use decomp_permuter_psyq.Tree.Nodes.{Kind, Attr, Node, node, Nodes, more, fold, fold_all}

module _ {A D : Type 0} (means : Kind → List Attr → List D → D) where
  abbrev pub at_node : A → Kind → List Attr → List (Node A) → List D → D
  at_node a k attrs ns ds = means k attrs ds

  unfoldable pub meaning : Node A → D
  unfolding fold
  meaning n = fold at_node n

  unfoldable pub meanings : Nodes A → List D
  unfolding fold
  meanings ns = fold_all at_node ns

  pub meaning_node :
      (a : A) (k : Kind) (attrs : List Attr) (ns : Nodes A)
      → meaning (node a k attrs ns) ≡ means k attrs (meanings ns)
  unfolding meaning meanings
  meaning_node a k attrs ns = refl

  pub meanings_more : (n : Node A) (ns : Nodes A) → meanings (more n ns) ≡ meaning n ∷ meanings ns
  unfolding meaning meanings
  meanings_more n ns = refl

  pub meaning_same :
      (a b : A) (k : Kind) (attrs : List Attr) (ns ms : Nodes A)
      → meanings ns ≡ meanings ms
      → meaning (node a k attrs ns) ≡ meaning (node b k attrs ms)
  unfolding meaning meanings
  meaning_same a b k attrs ns ms h = ap (means k attrs) h

  pub meanings_same :
      (n m : Node A) (ns ms : Nodes A)
      → meaning n ≡ meaning m
      → meanings ns ≡ meanings ms
      → meanings (more n ns) ≡ meanings (more m ms)
  unfolding meaning meanings
  meanings_same n m ns ms e h = ap₂ (λ x xs. x ∷ xs) e h
