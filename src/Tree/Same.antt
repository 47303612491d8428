-- ===== src/Tree/Same.antt =====
-- ast_util.py: what `equal_ast` says of two trees.
use decomp_permuter_psyq.Prelude.{
  ◌≡◌, refl, ap, ap₂, ◌∙◌, sym, Bool, true, false, ◌&&◌, List, [], ◌∷◌, ◌↔◌,
}
use decomp_permuter_psyq.Text.{Text}
use decomp_permuter_psyq.Text.Equality.{same_text, same_text→eq, same_text_self}
use decomp_permuter_psyq.Tree.Nodes.{
  Kind, Attr, word, words, absent, present, Node, node, Nodes, empty, more,
}
use decomp_permuter_psyq.Tree.Meaning.{meaning, meanings, meaning_node, meanings_more}
use decomp_permuter_psyq.Tree.Equal.{
  same_kind, same_kind→eq, same_kind_self, same_words, same_attr, same_attrs, equal_ast,
  equal_lists,
}

-- a tree without the marks
unfoldable mutual
  pub erase : {A : Type 0} → Node A → Node (Unit {0})
  erase (node a k attrs ns) = node tt k attrs (erase_all ns)

  pub erase_all : {A : Type 0} → Nodes A → Nodes (Unit {0})
  erase_all empty = empty
  erase_all (more n ns) = more (erase n) (erase_all ns)

both_true : (a b : Bool) → (a && b) ≡ true → (a ≡ true) × (b ≡ true)
both_true true b h = (refl, h)
both_true false b h = cc h

and_true : {a b : Bool} → a ≡ true → b ≡ true → (a && b) ≡ true
and_true h j = rw (h, j)

same_words→eq : (ts us : List Text) → same_words ts us ≡ true → ts ≡ us
same_words→eq [] [] h = refl
same_words→eq (t ∷ ts) (u ∷ us) h =
    let (p, q) = both_true (same_text t u) (same_words ts us) h in
    ap₂ (λ x xs. x ∷ xs) (same_text→eq t u p) (same_words→eq ts us q)
same_words→eq [] (u ∷ us) h = cc h
same_words→eq (t ∷ ts) [] h = cc h

same_words_self : (ts : List Text) → same_words ts ts ≡ true
same_words_self [] = refl
same_words_self (t ∷ ts) = and_true (same_text_self t) (same_words_self ts)

same_attr→eq : (a b : Attr) → same_attr a b ≡ true → a ≡ b
same_attr→eq (word t) (word u) h = ap word (same_text→eq t u h)
same_attr→eq (words ts) (words us) h = ap words (same_words→eq ts us h)
same_attr→eq absent absent h = refl
same_attr→eq present present h = refl
same_attr→eq _ _ h = cc h

same_attr_self : (a : Attr) → same_attr a a ≡ true
same_attr_self (word t) = same_text_self t
same_attr_self (words ts) = same_words_self ts
same_attr_self absent = refl
same_attr_self present = refl

same_attrs→eq : (as' bs : List Attr) → same_attrs as' bs ≡ true → as' ≡ bs
same_attrs→eq [] [] h = refl
same_attrs→eq (a ∷ attrs) (b ∷ others) h =
    let (p, q) = both_true (same_attr a b) (same_attrs attrs others) h in
    ap₂ (λ x xs. x ∷ xs) (same_attr→eq a b p) (same_attrs→eq attrs others q)
same_attrs→eq [] (b ∷ others) h = cc h
same_attrs→eq (a ∷ attrs) [] h = cc h

same_attrs_self : (attrs : List Attr) → same_attrs attrs attrs ≡ true
same_attrs_self [] = refl
same_attrs_self (a ∷ attrs) = and_true (same_attr_self a) (same_attrs_self attrs)

node_path :
    {k j : Kind} {attrs others : List Attr} {ns ms : Nodes (Unit {0})}
    → k ≡ j
    → attrs ≡ others
    → ns ≡ ms
    → node tt k attrs ns ≡ node tt j others ms
node_path e f g = λ i. node tt (e i) (f i) (g i)

mutual
  unfolding equal_ast erase

  equal_ast→erase :
      {A B : Type 0} (n : Node A) (m : Node B) → equal_ast n m ≡ true → erase n ≡ erase m
  equal_ast→erase (node a k attrs ns) (node b j others ms) h =
      let (p, q) = both_true (same_kind k j) (same_attrs attrs others && equal_lists ns ms) h in
      let (q, r) = both_true (same_attrs attrs others) (equal_lists ns ms) q in
      node_path (same_kind→eq k j p) (same_attrs→eq attrs others q) (equal_lists→erase ns ms r)

  equal_lists→erase :
      {A B : Type 0} (ns : Nodes A) (ms : Nodes B)
      → equal_lists ns ms ≡ true
      → erase_all ns ≡ erase_all ms
  equal_lists→erase empty empty h = refl
  equal_lists→erase (more n ns) (more m ms) h =
      let (p, q) = both_true (equal_ast n m) (equal_lists ns ms) h in
      ap₂ more (equal_ast→erase n m p) (equal_lists→erase ns ms q)
  equal_lists→erase empty (more m ms) h = cc h
  equal_lists→erase (more n ns) empty h = cc h

mutual
  unfolding equal_ast erase

  equal_ast-erase :
      {A B : Type 0} (n : Node A) (m : Node B) → equal_ast n m ≡ equal_ast (erase n) (erase m)
  equal_ast-erase (node a k attrs ns) (node b j others ms) = rw (equal_lists-erase ns ms)

  equal_lists-erase :
      {A B : Type 0} (ns : Nodes A) (ms : Nodes B)
      → equal_lists ns ms ≡ equal_lists (erase_all ns) (erase_all ms)
  equal_lists-erase empty empty = refl
  equal_lists-erase empty (more m ms) = refl
  equal_lists-erase (more n ns) empty = refl
  equal_lists-erase (more n ns) (more m ms) = rw (equal_ast-erase n m, equal_lists-erase ns ms)

mutual
  unfolding equal_ast

  equal_ast_self : {A : Type 0} (n : Node A) → equal_ast n n ≡ true
  equal_ast_self (node a k attrs ns) =
      and_true (same_kind_self k) (and_true (same_attrs_self attrs) (equal_lists_self ns))

  equal_lists_self : {A : Type 0} (ns : Nodes A) → equal_lists ns ns ≡ true
  equal_lists_self empty = refl
  equal_lists_self (more n ns) = and_true (equal_ast_self n) (equal_lists_self ns)

-- Called without `cmp`, `equal_ast` says true of exactly the trees that differ in nothing but what is known of
-- their nodes besides.
pub equal_ast_iff :
    {A B : Type 0} (n : Node A) (m : Node B) → (equal_ast n m ≡ true) ↔ (erase n ≡ erase m)
equal_ast_iff n m =
    (equal_ast→erase n m, λ e. equal_ast-erase n m ∙ rw e (equal_ast_self (erase m)))

-- Equal trees have the same meaning.
mutual
  unfolding erase meanings

  meaning-erase :
      {A D : Type 0} (means : Kind → List Attr → List D → D) (n : Node A)
      → meaning means (erase n) ≡ meaning means n
  meaning-erase means (node a k attrs ns) =
      meaning_node means tt k attrs (erase_all ns)
      ∙ ap (means k attrs) (meanings-erase means ns)
      ∙ sym (meaning_node means a k attrs ns)

  meanings-erase :
      {A D : Type 0} (means : Kind → List Attr → List D → D) (ns : Nodes A)
      → meanings means (erase_all ns) ≡ meanings means ns
  meanings-erase means empty = refl
  meanings-erase means (more n ns) =
      meanings_more means (erase n) (erase_all ns)
      ∙ ap₂ (λ x xs. x ∷ xs) (meaning-erase means n) (meanings-erase means ns)
      ∙ sym (meanings_more means n ns)

pub equal_ast_means :
    {A D : Type 0} (means : Kind → List Attr → List D → D) (n m : Node A)
    → equal_ast n m ≡ true
    → meaning means n ≡ meaning means m
equal_ast_means means n m h =
    sym (meaning-erase means n) ∙ ap (meaning means) (equal_ast→erase n m h) ∙ meaning-erase means m
