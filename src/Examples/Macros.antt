-- ===== src/Examples/Macros.antt =====
-- Sources with PERM macros: perm/perm.py, perm/parse.py and perm/eval.py.
use mathlib.Core.List.{Nodup, Nodup-cons, Nodup-nil, mem-cons, not-mem-nil}
use mathlib.Core.Logic.Or
use decomp_permuter_psyq.Prelude.{
  ℕ, ◌/◌, ◌<◌, ◌≤◌, ◌≡◌, ◌≢◌, ◌↔◌, refl, some, List, [], ◌∷◌, ◌++◌, ok, arith, ltb, if◌then◌else◌,
  length, min,
}
use decomp_permuter_psyq.Prelude.Int.{pos, negsuc}
use decomp_permuter_psyq.Text.{Text, codes, join}
use decomp_permuter_psyq.Text.Equality.{same_text}
use decomp_permuter_psyq.Perm.Syntax.{
  Perm, Perms, text, combine, general, once, int_range, line_swap_ast, nil, cons, perm_count,
  count_all, count_either, factorial, is_random,
}
use decomp_permuter_psyq.Perm.State.{EvalState, init}
use decomp_permuter_psyq.Perm.Shuffle.{shuffle}
use decomp_permuter_psyq.Perm.Evaluate.{evaluate, eval_all}
use decomp_permuter_psyq.Perm.Root.{RootPerm, root_perm, evaluate_root}
use decomp_permuter_psyq.Perm.Radix.{encode, decode, eval_each, InRange, IsChoice, eval_all-encode}
use decomp_permuter_psyq.Perm.Safety.{Ends, Chose, KeysIn, evaluate_safe}
use decomp_permuter_psyq.Perm.Choices.{root_seed, assign, InOptions, root_choice, root_safe}
use decomp_permuter_psyq.Perm.Seeds.{
  seen_before, gen_all_seeds, perm_gen_all_seeds, perm_evaluate_one,
}
use decomp_permuter_psyq.Perm.SeedOrder.{occurrences, new_draws, perm_gen_all_seeds-occurrences}
use decomp_permuter_psyq.Parse.Split.{split_by_comma, consume_arg_parens}
use decomp_permuter_psyq.Parse.Macro.{search_macro}
use decomp_permuter_psyq.Parse.Grammar.{rec_perm_parse, perm_parse}
use decomp_permuter_psyq.Parse.Nesting.{
  AllArgs, IsBalanced, split_by_comma-eq-ok_iff, consume_arg_parens-eq-ok_iff,
}
use decomp_permuter_psyq.Parse.Rules.{Parses, HasSeed}
use decomp_permuter_psyq.Parse.Total.{rec_perm_parse_total}
use decomp_permuter_psyq.Parse.Roots.{perm_evaluate_one_safe}

abbrev source : Text
source = codes "PERM_ONCE(a,x)PERM_GENERAL(1,PERM_INT(-1,1))PERM_ONCE(a,y)"

abbrev alternatives : Perms
alternatives =
    cons (text (codes "1"))
      (cons (combine (cons (text []) (cons (int_range (negsuc 0) (pos 1)) nil))) nil)

abbrev pieces : Perms
pieces = cons (text []) (
    cons (once 0 (codes "a") (text (codes "x"))) (
      cons (text []) (
        cons (general alternatives)
          (cons (text []) (cons (once 1 (codes "a") (text (codes "y"))) nil)))))

abbrev tree : Perm
tree = combine pieces

abbrev root : RootPerm
root = record { inner = tree; once_options = (codes "a", 0 ∷ 1 ∷ []) ∷ []; root_count = 8 }

parse_source : perm_parse source ≡ ok root
unfolding perm_parse perm_count
parse_source = refl

root_of_tree : root_perm tree ≡ ok root
unfolding root_perm perm_count same_text
root_of_tree = refl

-- seed 5: the second alternative of the key, and seed 2 of the tree
run_source : (r : EvalState) × (evaluate_root root 5 init ≡ ok (codes "0y", r))
unfolding evaluate_root same_text
run_source = (record init { once_choices = (codes "a", 1) ∷ [] }, refl)

perm_evaluate_one_safe_example :
    (0 < root.root_count) × Ends (λ t st. Unit {0}) (perm_evaluate_one root)
perm_evaluate_one_safe_example = perm_evaluate_one_safe source root parse_source

root_safe_example :
    Ends
      (λ t st.
        (is : List ℕ) × InOptions root.once_options is
        × (st.once_choices ≡ assign root.once_options is init.once_choices))
      (evaluate_root root 5 init)
root_safe_example = root_safe tree root 5 init root_of_tree (omega arith)

four_seeds : 3 < perm_count tree
unfolding perm_count
four_seeds = omega arith

root_choice_example :
    (root_seed root.once_options (1 ∷ []) 3 < root.root_count)
    × (evaluate_root root (root_seed root.once_options (1 ∷ []) 3) init
        ≡ evaluate tree 3 (record init { once_choices = assign root.once_options (1 ∷ []) [] }))
root_choice_example =
    root_choice tree root (1 ∷ []) 3 init root_of_tree (omega arith, tt) four_seeds

split_by_comma-eq-ok_iff_example :
    (split_by_comma (codes "f(a,b),c") ≡ ok (codes "f(a,b)" ∷ codes "c" ∷ [])) ↔ (
      ((codes "f(a,b)" ∷ codes "c" ∷ []) ≢ [])
      × (join (b',' ∷ []) (codes "f(a,b)" ∷ codes "c" ∷ []) ≡ codes "f(a,b),c")
      × AllArgs (codes "f(a,b)" ∷ codes "c" ∷ []))
split_by_comma-eq-ok_iff_example =
    split_by_comma-eq-ok_iff (codes "f(a,b),c") (codes "f(a,b)" ∷ codes "c" ∷ [])

consume_arg_parens-eq-ok_iff_example :
    (consume_arg_parens (codes "a(b)) + c") ≡ ok (codes "a(b)", codes " + c"))
    ↔ ((codes "a(b)) + c" ≡ codes "a(b)" ++ b')' ∷ codes " + c") × IsBalanced (codes "a(b)"))
consume_arg_parens-eq-ok_iff_example =
    consume_arg_parens-eq-ok_iff (codes "a(b)) + c") (codes "a(b)") (codes " + c")

rec_perm_parse_total_example : Parses HasSeed (rec_perm_parse 80 source 0)
rec_perm_parse_total_example = rec_perm_parse_total 80 source 0 (omega arith)

search_example_run :
    search_macro (codes "x + PERM_VAR(a)") ≡ some (codes "x + ", codes "PERM_VAR", codes "a)")
unfolding search_macro
search_example_run = refl

pieces-InRange : InRange pieces (0 ∷ 0 ∷ 0 ∷ 2 ∷ 0 ∷ 0 ∷ [])
unfolding perm_count
pieces-InRange = omega arith

eval_all-encode_example :
    (encode pieces (0 ∷ 0 ∷ 0 ∷ 2 ∷ 0 ∷ 0 ∷ []) < count_all pieces)
    × (eval_all pieces (encode pieces (0 ∷ 0 ∷ 0 ∷ 2 ∷ 0 ∷ 0 ∷ []))
        ≡ eval_each pieces (0 ∷ 0 ∷ 0 ∷ 2 ∷ 0 ∷ 0 ∷ []))
    × (decode pieces (encode pieces (0 ∷ 0 ∷ 0 ∷ 2 ∷ 0 ∷ 0 ∷ [])) ≡ 0 ∷ 0 ∷ 0 ∷ 2 ∷ 0 ∷ 0 ∷ [])
eval_all-encode_example = eval_all-encode pieces (0 ∷ 0 ∷ 0 ∷ 2 ∷ 0 ∷ 0 ∷ []) pieces-InRange

pieces_count : 3 < count_all pieces
unfolding count_all perm_count
pieces_count = omega arith

alternatives-IsChoice : IsChoice alternatives 1 2
unfolding perm_count
alternatives-IsChoice = omega arith

alternatives_count : 3 < count_either alternatives
unfolding perm_count
alternatives_count = omega arith

abbrev items : List ℕ
items = 10 ∷ 20 ∷ 30 ∷ []

two_below : 2 < perm_count (general alternatives)
unfolding perm_count
two_below = omega arith

no_keys : KeysIn {V = ℕ} [] (general alternatives)
unfolding KeysIn
no_keys = (tt, ((tt, (tt, tt)), tt))

evaluate_safe_example : Ends (Chose []) (evaluate (general alternatives) 2 init)
evaluate_safe_example = evaluate_safe (general alternatives) 2 init two_below no_keys

abbrev two_items : List ℕ
two_items = 10 ∷ 20 ∷ []

distinct_items : Nodup two_items
distinct_items = Nodup-cons.1 (
  (λ m. Or.elim (λ x. elim x [ ]) (mem-cons.0 m) (λ e. omega arith) (λ n. not-mem-nil n)),
  Nodup-cons.1 (not-mem-nil, Nodup-nil),
)

one_below : 1 < factorial (length two_items)
unfolding factorial
one_below = omega arith

swapped : shuffle two_items 1 ≡ shuffle two_items 1
unfolding shuffle
swapped = refl {a = 20 ∷ 10 ∷ []}

abbrev lines : Perms
lines = cons (text (codes "a;")) (cons (text (codes "b;")) nil)

swap_run :
    evaluate (line_swap_ast lines) 1 init
    ≡ ok (
      codes "{\n#pragma _permuter ast_perm 0\n{a;}\n{b;}\n}",
      record init { ast_perms = (line_swap_ast lines, 1) ∷ [] },
    )
unfolding evaluate
swap_run = refl

abbrev draws : List ℕ
draws = 4 ∷ 4 ∷ 1 ∷ []

round : gen_all_seeds (λ xs. xs) draws 5 ≡ some (4 ∷ 1 ∷ 0 ∷ 2 ∷ 3 ∷ [])
unfolding gen_all_seeds
round = refl

two_new : 5 / 2 ≤ new_draws draws []
unfolding seen_before
two_new = omega arith

abbrev draws' : List ℕ
draws' = 4 ∷ 1 ∷ 0 ∷ 2 ∷ []

one_round :
    perm_gen_all_seeds (λ xs. xs) root (draws' ∷ []) ≡ some (4 ∷ 1 ∷ 0 ∷ 2 ∷ 3 ∷ 5 ∷ 6 ∷ 7 ∷ [])
unfolding perm_gen_all_seeds
one_round = refl

perm_gen_all_seeds-occurrences_example : occurrences 3 (4 ∷ 1 ∷ 0 ∷ 2 ∷ 3 ∷ 5 ∷ 6 ∷ 7 ∷ []) ≡ (
    if ltb 3 root.root_count
    then if is_random root.inner then length (draws' ∷ []) else min 1 (length (draws' ∷ []))
    else 0)
perm_gen_all_seeds-occurrences_example =
    perm_gen_all_seeds-occurrences (λ xs. xs) root (draws' ∷ []) 3 (λ b xs. refl) (omega arith)
      one_round
