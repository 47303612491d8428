-- ===== src/Parse/Total.antt =====
-- perm/parse.py: the recursion of `_rec_perm_parse` ends, and every tree that it builds has a seed.
use decomp_permuter_psyq.Prelude.{
  ℕ, zero, suc, ◌<◌, ap, List, [], ◌∷◌, ◌++◌, ◌∙◌, raised, arith, length, length-append,
  Option-cases, Ok-cases, inl, inr,
}
use decomp_permuter_psyq.Text.{Text}
use decomp_permuter_psyq.Perm.Syntax.{Perm, perm_count}
use decomp_permuter_psyq.Parse.Monad.{Parse, pure, ◌>>=◌}
use decomp_permuter_psyq.Parse.Split.{consume_arg_parens, split_lines}
use decomp_permuter_psyq.Parse.Macro.{Macro, search_macro, find_macro}
use decomp_permuter_psyq.Parse.Search.{search_macro_sound}
use decomp_permuter_psyq.Parse.Nesting.{consume_arg_parens-eq-ok_iff}
use decomp_permuter_psyq.Parse.Grammar.{
  filled_lines, text_of, int_of, split_args, split_args_newline, split_args_text, once_of, var_of,
  factory, make_perm, combine_parts, parse_pieces, rec_perm_parse,
}
use decomp_permuter_psyq.Parse.Rules.{
  All, Parses, parsed, failed, Parses-bind, for_each-Parses, Parses-weaken, HasSeed, count_all-pos,
  count_either-pos, mul_pos,
}
use decomp_permuter_psyq.Parse.Sizes.{
  swap_pos, consume_loop-fuel, split_by_comma-Parses, split_lines-lt, filled_lines-lt,
  text_of-Parses, int_of-Parses, int_perm-Parses,
}

-- Of the recursive call it is enough to know what it does on texts shorter than `l`.
module _ (rec_parse : Text → Parse Perm) (l : ℕ)
    (rec_Parses : (s : Text) (n : ℕ) → length s < l → Parses HasSeed (rec_parse s n)) where
  split_args-Parses :
      (s : Text) (n : ℕ)
      → length s < l
      → Parses (λ ps. All HasSeed ps × (0 < length ps)) (split_args rec_parse s n)
  unfolding split_args
  split_args-Parses s n h =
      Parses-bind _ (split_by_comma-Parses s l n h) λ args n' (short, some_arg).
        Parses-weaken (for_each-Parses rec_parse args n' rec_Parses short)
          λ ps (good, same). (good, omega (arith, same))

  split_args_text-Parses :
      (s : Text) (n : ℕ)
      → length s < l
      → Parses (All (λ t. Unit {0})) (split_args_text rec_parse s n)
  unfolding split_args_text
  split_args_text-Parses s n h = Parses-bind _ (split_args-Parses s n h) λ ps n' good.
      Parses-weaken
        (for_each-Parses {P = HasSeed} text_of ps n' (λ p m q. text_of-Parses p m) good.0)
        λ ts q. q.0

  lines-Parses :
      (s : Text) (n : ℕ) → length s < l → Parses (All HasSeed) (split_args_newline rec_parse s n)
  unfolding split_args_newline
  lines-Parses s n h =
      Parses-weaken
        (for_each-Parses rec_parse (filled_lines (split_lines s [])) n rec_Parses
          (filled_lines-lt (split_lines s []) l (split_lines-lt s [] l (omega arith))))
        λ ps (good, same). good

  once_of-Parses :
      (args : List Text) (n : ℕ)
      → All (λ t. length t < l) args
      → Parses HasSeed (once_of rec_parse args n)
  unfolding once_of perm_count
  once_of-Parses [] n h = failed λ e. cc e
  once_of-Parses (code ∷ []) n h = Parses-bind _ (rec_Parses code n h.0) λ p n' q. parsed q
  once_of-Parses (key ∷ code ∷ []) n h = Parses-bind _ (rec_Parses code n h.1.0) λ p n' q. parsed q
  once_of-Parses (a ∷ b ∷ c ∷ d) n h = failed λ e. cc e

  var_of-Parses :
      (args : List Text) (n : ℕ)
      → All (λ t. length t < l) args
      → Parses HasSeed (var_of rec_parse args n)
  unfolding var_of perm_count
  var_of-Parses [] n h = failed λ e. cc e
  var_of-Parses (name ∷ []) n h = Parses-bind _ (rec_Parses name n h.0) λ p n' q. parsed q
  var_of-Parses (name ∷ code ∷ []) n h = Parses-bind _ (rec_Parses name n h.0) λ v n₁ q.
      Parses-bind _ (rec_Parses code n₁ h.1.0)
        λ e n₂ r. parsed (mul_pos (perm_count v) (perm_count e) q r)
  var_of-Parses (a ∷ b ∷ c ∷ d) n h = failed λ e. cc e

  factory-Parses :
      (m : Macro) (s : Text) (n : ℕ) → length s < l → Parses HasSeed (factory rec_parse m s n)
  unfolding factory perm_count
  factory-Parses Macro.perm_general s n h =
      Parses-bind _ (split_args-Parses s n h)
        λ ps n' (good, filled). parsed (count_either-pos ps good filled)
  factory-Parses Macro.perm_once s n h =
      Parses-bind _ (split_by_comma-Parses s l n h)
        λ args n' (short, filled). once_of-Parses args n' short
  factory-Parses Macro.perm_randomize s n h = Parses-bind _ (rec_Parses s n h) λ p n' q. parsed q
  factory-Parses Macro.perm_force_sameline s n h =
      Parses-bind _ (rec_Parses s n h) λ p n' q. parsed q
  factory-Parses Macro.perm_var s n h =
      Parses-bind _ (split_by_comma-Parses s l n h)
        λ args n' (short, filled). var_of-Parses args n' short
  factory-Parses Macro.perm_lineswap_text s n h =
      Parses-bind _ (lines-Parses s n h) λ ps n' good. parsed (swap_pos ps good)
  factory-Parses Macro.perm_lineswap s n h =
      Parses-bind _ (lines-Parses s n h) λ ps n' good. parsed (swap_pos ps good)
  factory-Parses Macro.perm_int s n h = Parses-bind _ (split_args_text-Parses s n h) λ texts n₁ q.
      Parses-bind _
        (for_each-Parses {P = λ t. Unit {0}} int_of texts n₁ (λ t m q'. int_of-Parses t m) q)
        λ bounds n₂ q'. int_perm-Parses bounds n₂
  factory-Parses Macro.perm_ignore s n h = Parses-bind _ (rec_Parses s n h) λ p n' q. parsed q
  factory-Parses Macro.perm_pretend s n h = Parses-bind _ (rec_Parses s n h) λ p n' q. parsed q

  make_perm-Parses :
      (name rest : Text) (n : ℕ)
      → length rest < l
      → Parses (λ (p, remain). HasSeed p × (length remain < l)) (make_perm rec_parse name rest n)
  unfolding make_perm consume_arg_parens
  make_perm-Parses name rest n h = elim (Option-cases (find_macro name)) [
    | inl e ↦ rw (e, make_perm) (failed λ same. cc same)
    | inr (m, e) ↦ elim (Ok-cases (consume_arg_parens rest)) [
      | inr (x, f) ↦
          rw (e, make_perm, f) (failed λ same. consume_loop-fuel rest 0 [] (f ∙ ap raised same))
      | inl ((args, remain), f) ↦
          let whole = ap length ((consume_arg_parens-eq-ok_iff rest args remain).0 f).0 in
          let sizes = length-append args (b')' ∷ remain) in
          rw (e, make_perm, f)
            (Parses-bind _ (factory-Parses m args n (omega (arith, whole, sizes)))
              λ p n' q. parsed (q, omega (arith, whole, sizes)))
    ]
  ]

combine_parts-HasSeed : (ps : List Perm) → All HasSeed ps → HasSeed (combine_parts ps)
unfolding combine_parts perm_count
combine_parts-HasSeed [] h = count_all-pos [] h
combine_parts-HasSeed (p ∷ []) h = h.0
combine_parts-HasSeed (p ∷ q ∷ ps) h = count_all-pos (p ∷ q ∷ ps) h

parse_pieces-Parses :
    (fuel : ℕ) (s : Text) (n : ℕ) → length s < fuel → Parses (All HasSeed) (parse_pieces fuel s n)
unfolding parse_pieces perm_count
parse_pieces-Parses zero s n h = absurd (omega arith)
parse_pieces-Parses (suc fuel) [] n h = parsed tt
parse_pieces-Parses (suc fuel) (c ∷ cs) n h = elim (Option-cases (search_macro (c ∷ cs))) [
  | inl e ↦ rw (e, parse_pieces) (parsed (omega arith, tt))
  | inr ((between, name, rest), e) ↦
      let whole =
        ap length (search_macro_sound (c ∷ cs) {between = between} {name = name} {rest = rest} e) in
      let sizes = length-append between (name ++ b'(' ∷ rest) in
      let sizes' = length-append name (b'(' ∷ rest) in
      rw (e, parse_pieces)
        (Parses-bind _
          (make_perm-Parses (λ s. parse_pieces fuel s >>= λ ps. pure (combine_parts ps)) fuel
            (λ s n g.
              Parses-bind _ (parse_pieces-Parses fuel s n g)
                λ ps n' q. parsed (combine_parts-HasSeed ps q))
            name rest n (omega (arith, whole, sizes, sizes')))
          λ (p, remain) n' (good, short).
            Parses-bind _ (parse_pieces-Parses fuel remain n' short)
              λ ps n'' q. parsed (omega arith, (good, q)))
]

-- With more fuel than the text has characters `_rec_perm_parse` returns a tree with a positive
-- `perm_count`, or raises an exception of the program: the fuel does not run out.
pub rec_perm_parse_total :
    (fuel : ℕ) (s : Text) (n : ℕ) → length s < fuel → Parses HasSeed (rec_perm_parse fuel s n)
unfolding rec_perm_parse
rec_perm_parse_total fuel s n h =
    Parses-bind _ (parse_pieces-Parses fuel s n h) λ ps n' q. parsed (combine_parts-HasSeed ps q)
