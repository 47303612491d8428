-- ===== src/Tree/Normal.antt =====
-- ast_util.py: what `normalize_ast` gives.
use decomp_permuter_psyq.Prelude.{
  ℕ, zero, suc, ◌≤◌, ◌≡◌, refl, ◌∙◌, true, Bool-cases, Result, ok, bind, List, [], ◌∷◌, inl, inr,
  arith,
}
use decomp_permuter_psyq.Tree.Nodes.{
  Kind, compound, case, default, Attr, present, Node, node, Nodes, empty, more, kind, fold,
}
use decomp_permuter_psyq.Tree.Meaning.{meaning, at_node, meanings, meaning_same, meanings_same}
use decomp_permuter_psyq.Tree.Blocks.{
  brace_part, callback_part, is_block, Failure, try_all, try_last, try_rest, change_last,
  change_rest, change_all, invoke, for_nested_blocks, for_labelled, brace, brace_nested_blocks,
  brace_labelled, try_stmts, normalize_block, normalize_ast, size, sizes,
}
use decomp_permuter_psyq.Tree.Braces.{
  Grammar, body, branches, statements, case_statements, after_label, no_statement, grammar,
  has_list, forms_block, Braced, BracedRest, BracedStmts, BracedFirst, BracedLast, BracedBlocks,
  BracedAll,
}
use decomp_permuter_psyq.Tree.Places.{
  to_brace, to_call, brace_part-grammar, callback_part-grammar, needs_no_braces-grammar,
  is_block-grammar,
}

module _ {A D : Type 0} (new : A) (means : Kind → List Attr → List D → D) where
  -- A run that returns a braced tree of the same meaning.
  abbrev pub Done : (Node A → Result Failure (Node A)) → Node A → Type 0
  Done f n =
      (r : Node A) × (f n ≡ ok r)
      × (forms_block r ≡ forms_block n)
      × Braced r
      × (meaning means r ≡ meaning means n)

  -- the same of a list of children, with what it makes of them
  abbrev Made : (Nodes A → Type 0) → Result Failure (Nodes A) → Nodes A → Type 0
  Made P run ns = (rs : Nodes A) × (run ≡ ok rs) × P rs × (meanings means rs ≡ meanings means ns)

  module _ (braces_nothing : (d : D) → means compound (present ∷ []) (d ∷ []) ≡ d) (fuel : ℕ)
      (callback : Node A → Result Failure (Node A))
      (done : (n : Node A) → forms_block n ≡ true → size n ≤ fuel → Done callback n) where
    braced_meaning :
        (n : Node A)
        → meaning means (node new compound (present ∷ []) (more n empty)) ≡ meaning means n
    unfolding meaning fold
    braced_meaning n = braces_nothing (fold (at_node means) n)

    brace_lem :
        (n : Node A)
        → suc (size n) ≤ fuel
        → (r : Node A) × (invoke callback (brace new n) ≡ ok r)
          × (forms_block r ≡ true)
          × Braced r
          × (meaning means r ≡ meaning means n)
    unfolding size
    brace_lem n h = elim (Bool-cases (forms_block n)) [
      | inl e ↦
          let (r, ran, same, good, means_same) = done n e (omega (arith, h)) in
          (
            r,
            rw (needs_no_braces-grammar (kind n) ∙ e, is_block-grammar (kind n) ∙ e) ran,
            same ∙ e,
            good,
            means_same,
          )
      | inr e ↦
          let (r, ran, same, good, means_same) =
            done (node new compound (present ∷ []) (more n empty)) refl (omega (arith, h)) in
          (
            r,
            rw (needs_no_braces-grammar (kind n) ∙ e) ran,
            same,
            good,
            means_same ∙ braced_meaning n,
          )
    ]

    -- What `brace_nested_blocks` and then `for_nested_blocks` make of a statement.
    abbrev visit : Node A → Result Failure (Node A)
    visit stmt = for_nested_blocks callback (brace_nested_blocks new stmt)

    all_blocks :
        (ns : Nodes A)
        → suc (sizes ns) ≤ fuel
        → Made BracedBlocks (try_all (invoke callback) (change_all (brace new) ns)) ns
    unfolding size
    all_blocks empty h = (empty, refl, tt, refl)
    all_blocks (more n ns) h =
        let (r, ran, is_one, good, same) = brace_lem n (omega (arith, h)) in
        let (rs, ran', good', same') = all_blocks ns (omega (arith, h)) in
        (more r rs, rw (ran, ran'), (is_one, good, good'), meanings_same means r n rs ns same same')

    rest_blocks :
        (ns : Nodes A)
        → suc (sizes ns) ≤ fuel
        → Made BracedRest (try_rest (invoke callback) (change_rest (brace new) ns)) ns
    unfolding size
    rest_blocks empty h = (empty, refl, tt, refl)
    rest_blocks (more n ns) h =
        let (rs, ran, good, same) = all_blocks ns (omega (arith, h)) in
        (more n rs, rw ran, good, meanings_same means n n rs ns refl same)

    -- what is made of a child and those behind it
    abbrev Ended : Node A → Nodes A → Type 0
    Ended n ns =
        (r : Node A) × (rs : Nodes A) × (try_last (invoke callback)
            (change_last (brace new) (more n ns))
          ≡ ok (more r rs))
        × BracedLast (more r rs)
        × (meanings means (more r rs) ≡ meanings means (more n ns))

    end_block : (n : Node A) (ns : Nodes A) → suc (sizes (more n ns)) ≤ fuel → Ended n ns
    unfolding size
    end_block n empty h =
        let (r, ran, is_one, good, same) = brace_lem n (omega (arith, h)) in
        (r, empty, rw ran, (is_one, good), meanings_same means r n empty empty same refl)
    end_block n (more m ns) h =
        let (r, rs, ran, good, same) = end_block m ns (omega (arith, h)) in
        (n, more r rs, rw ran, good, meanings_same means n n (more r rs) (more m ns) refl same)

    last_block :
        (ns : Nodes A)
        → suc (sizes ns) ≤ fuel
        → Made BracedLast (try_last (invoke callback) (change_last (brace new) ns)) ns
    last_block empty h = (empty, refl, tt, refl)
    last_block (more n ns) h =
        let (r, rs, ran, good, same) = end_block n ns h in (more r rs, ran, good, same)

    -- what is made of a labelled statement
    abbrev Labelled : Nodes A → Type 0
    Labelled ns = Made BracedFirst (for_labelled callback (brace_labelled new ns)) ns

    -- The statement, by what its class has for blocks.
    stmt_at :
        (g : Grammar) (a : A) (k : Kind) (attrs : List Attr) (ns : Nodes A)
        → grammar k ≡ g
        → brace_part k ≡ to_brace g
        → callback_part k ≡ to_call g
        → is_block k ≡ has_list g
        → size (node a k attrs ns) ≤ fuel
        → Labelled ns
        → Done visit (node a k attrs ns)
    unfolding size for_nested_blocks brace_nested_blocks
    stmt_at body a k attrs ns e b c i h inside =
        let (rs, ran, good, same) = last_block ns h in
        (
          node a k attrs rs,
          ground (arith, e, b, c, i, ran),
          refl,
          ground (arith, e, good),
          meaning_same means a a k attrs rs ns same,
        )
    stmt_at branches a k attrs ns e b c i h inside =
        let (rs, ran, good, same) = rest_blocks ns h in
        (
          node a k attrs rs,
          ground (arith, e, b, c, i, ran),
          refl,
          ground (arith, e, good),
          meaning_same means a a k attrs rs ns same,
        )
    stmt_at after_label a k attrs ns e b c i h inside =
        let (rs, ran, good, same) = inside in
        (
          node a k attrs rs,
          ground (arith, e, b, c, i, ran),
          refl,
          ground (arith, e, good),
          meaning_same means a a k attrs rs ns same,
        )
    stmt_at statements a k attrs ns e b c i h inside =
        let (r, ran, one, good, same) = done (node a k attrs ns) (ground (arith, e)) h in
        (r, ground (arith, e, b, c, i, ran), one, good, same)
    stmt_at case_statements a k attrs ns e b c i h inside =
        let (r, ran, one, good, same) = done (node a k attrs ns) (ground (arith, e)) h in
        (r, ground (arith, e, b, c, i, ran), one, good, same)
    stmt_at no_statement a k attrs ns e b c i h inside =
        (node a k attrs ns, ground (arith, e, b, c, i), refl, ground (arith, e, b, c, i), refl)

    mutual
      unfolding size for_nested_blocks brace_nested_blocks

      stmt_Done : (s : Node A) → size s ≤ fuel → Done visit s
      stmt_Done (node a k attrs ns) h =
          stmt_at (grammar k) a k attrs ns refl (brace_part-grammar k) (callback_part-grammar k)
            (is_block-grammar k) h (Labelled-Done ns (omega (arith, h)))

      Labelled-Done : (ns : Nodes A) → sizes ns ≤ fuel → Labelled ns
      Labelled-Done empty h = (empty, refl, tt, refl)
      Labelled-Done (more n ns) h =
          let (r, ran, one, good, same) = stmt_Done n (omega (arith, h)) in
          (more r ns, rw ran, good, meanings_same means r n ns ns same refl)

    stmts_Made : (ns : Nodes A) → sizes ns ≤ fuel → Made BracedAll (try_all visit ns) ns
    unfolding size
    stmts_Made empty h = (empty, refl, tt, refl)
    stmts_Made (more n ns) h =
        let (r, ran, one, good, same) = stmt_Done n (omega (arith, h)) in
        let (rs, ran', good', same') = stmts_Made ns (omega (arith, h)) in
        (more r rs, rw (ran, ran'), (good, good'), meanings_same means r n rs ns same same')

    case_Made : (ns : Nodes A) → sizes ns ≤ fuel → Made BracedStmts (try_rest visit ns) ns
    unfolding size
    case_Made empty h = (empty, refl, tt, refl)
    case_Made (more n ns) h =
        let (rs, ran, good, same) = stmts_Made ns (omega (arith, h)) in
        (more n rs, rw ran, good, meanings_same means n n rs ns refl same)

    -- The statements of a list, once they are braced.
    stmts_Done :
        (a : A) (k : Kind) (attrs : List Attr) (ns : Nodes A)
        → grammar k ≡ statements
        → try_stmts new visit (node a k attrs ns)
          ≡ (bind (try_all visit ns) λ ns'. ok (node a k attrs ns'))
        → sizes ns ≤ fuel
        → Done (try_stmts new visit) (node a k attrs ns)
    stmts_Done a k attrs ns e ran h =
        let (rs, ran', good, same) = stmts_Made ns h in
        (
          node a k attrs rs,
          ran ∙ (rw ran'),
          refl,
          ground (arith, e, good),
          meaning_same means a a k attrs rs ns same,
        )

    block_Done :
        (n : Node A) → forms_block n ≡ true → size n ≤ suc fuel → Done (try_stmts new visit) n
    unfolding size
    block_Done (node a compound attrs ns) b h =
        stmts_Done a compound attrs ns refl refl (omega (arith, h))
    block_Done (node a default attrs ns) b h =
        stmts_Done a default attrs ns refl refl (omega (arith, h))
    block_Done (node a case attrs ns) b h =
        let (rs, ran, good, same) = case_Made ns (omega (arith, h)) in
        (node a case attrs rs, rw ran, refl, good, meaning_same means a a case attrs rs ns same)
    block_Done _ b h = cc b

  module _ (braces_nothing : (d : D) → means compound (present ∷ []) (d ∷ []) ≡ d) where
    normalize_block-Done :
        (fuel : ℕ) (n : Node A)
        → forms_block n ≡ true
        → size n ≤ fuel
        → Done (normalize_block new fuel) n
    unfolding normalize_block
    normalize_block-Done zero (node a k attrs ns) b h = absurd (unfold size in omega (arith, h))
    normalize_block-Done (suc fuel) n b h =
        block_Done braces_nothing fuel (normalize_block new fuel) (normalize_block-Done fuel) n b h

    -- `normalize_ast` of a function whose body is a block returns: its assertion never fails. The body of the
    -- result has a block at each nested statement, to any depth, and the result means what the function did,
    -- wherever braces around one statement mean nothing.
    pub normalize_ast-Braced :
        (a : A) (k : Kind) (attrs : List Attr) (d b : Node A) (params : Nodes A)
        → forms_block b ≡ true
        → let fn = node a k attrs (more d (more b params)) in
          (b' : Node A) × (normalize_ast new fn ≡ ok (node a k attrs (more d (more b' params))))
          × Braced b'
          × (meaning means (node a k attrs (more d (more b' params))) ≡ meaning means fn)
    unfolding normalize_ast
    normalize_ast-Braced a k attrs d b params h =
        let (b', ran, one, good, same) = normalize_block-Done (suc (size b)) b h (omega arith) in
        (
          b',
          rw ran,
          good,
          meaning_same means a a k attrs _ _
              (meanings_same means d d _ _ refl (meanings_same means b' b params params same refl)),
        )
