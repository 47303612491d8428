-- ===== src/Parse/Search.antt =====
-- perm/parse.py: what a match of the macro pattern is.
use decomp_permuter_psyq.Prelude.{◌≡◌, some, [], ◌∷◌, ◌++◌, arith, Option-cases, inl, inr}
use decomp_permuter_psyq.Text.{Text, codes}
use decomp_permuter_psyq.Parse.Macro.{strip_prefix, lazy_name, some_name, match_here, search_macro}

strip_prefix_sound : (p s : Text) {r : Text} → strip_prefix p s ≡ some r → s ≡ p ++ r
unfolding strip_prefix
strip_prefix_sound [] s h = ground arith
strip_prefix_sound (p ∷ ps) [] h = cc h
strip_prefix_sound (p ∷ ps) (c ∷ cs) {r} h = ground (arith, strip_prefix_sound ps cs {r = r})

lazy_name_sound :
    (s : Text) {name rest : Text} → lazy_name s ≡ some (name, rest) → s ≡ name ++ b'(' ∷ rest
unfolding lazy_name
lazy_name_sound [] h = cc h
lazy_name_sound (c ∷ cs) {name} {rest} h = elim (Option-cases (lazy_name cs)) [
  | inl e ↦ ground (arith, e)
  | inr ((n, r), e) ↦ ground (arith, e, lazy_name_sound cs {name = n} {rest = r})
]

some_name_sound :
    (s : Text) {name rest : Text} → some_name s ≡ some (name, rest) → s ≡ name ++ b'(' ∷ rest
unfolding some_name
some_name_sound [] h = cc h
some_name_sound (c ∷ cs) {name} {rest} h = elim (Option-cases (lazy_name cs)) [
  | inl e ↦ ground (arith, e)
  | inr ((n, r), e) ↦ ground (arith, e, lazy_name_sound cs {name = n} {rest = r})
]

match_here_sound :
    (s : Text) {name rest : Text} → match_here s ≡ some (name, rest) → s ≡ name ++ b'(' ∷ rest
unfolding match_here
match_here_sound s {name} {rest} h = elim (Option-cases (strip_prefix (codes "PERM_") s)) [
  | inl e ↦ cc (rw e at h)
  | inr (after, e) ↦ elim (Option-cases (some_name after)) [
    | inl f ↦ cc (rw (e, f) at h)
    | inr ((n, r), f) ↦
        let made = rw (e, f) at h in
        ground (
          arith,
          made,
          strip_prefix_sound (codes "PERM_") s {r = after} e,
          some_name_sound after {name = n} {rest = r} f,
        )
  ]
]

-- A match splits the text: what stands before it, the macro's name, a `(` and what follows.
pub search_macro_sound :
    (s : Text) {between name rest : Text}
    → search_macro s ≡ some (between, name, rest)
    → s ≡ between ++ (name ++ b'(' ∷ rest)
unfolding search_macro
search_macro_sound [] h = cc h
search_macro_sound (c ∷ cs) {between} {name} {rest} h = elim (Option-cases (match_here (c ∷ cs))) [
  | inl e ↦ elim (Option-cases (search_macro cs)) [
    | inl f ↦ ground (arith, e, f)
    | inr ((b, n, r), f) ↦
        ground (arith, e, f, search_macro_sound cs {between = b} {name = n} {rest = r} f)
  ]
  | inr ((n, r), e) ↦ ground (arith, e, match_here_sound (c ∷ cs) {name = n} {rest = r} e)
]
