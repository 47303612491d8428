-- ===== src/Parse/Sizes.antt =====
-- perm/parse.py: the pieces that the scanners cut are no longer than the text, and the scanners do
-- not run out of fuel.
use decomp_permuter_psyq.Prelude.{
  ℕ, ◌+◌, ◌-◌, ◌*◌, ◌<◌, ◌≢◌, refl, ap, List, [], ◌∷◌, ◌++◌, ◌∙◌, raised, arith, ◌==◌, length,
  length-append, Bool-cases, Option-cases, Ok-cases, inl, inr,
}
use decomp_permuter_psyq.Prelude.Int.{ℤ, ltb_ℤ}
use decomp_permuter_psyq.Text.{Text, newline, join}
use decomp_permuter_psyq.Perm.Syntax.{
  Perm, text, from_list, perms_length, factorial, perm_count, count_all, range_count,
}
use decomp_permuter_psyq.Parse.Monad.{out_of_fuel, lift}
use decomp_permuter_psyq.Parse.Split.{split_loop, split_by_comma, consume_loop, split_lines}
use decomp_permuter_psyq.Parse.Integer.{parse_int}
use decomp_permuter_psyq.Parse.Nesting.{split_by_comma-eq-ok_iff}
use decomp_permuter_psyq.Parse.Grammar.{filled_lines, is_blank, text_of, int_of, int_perm}
use decomp_permuter_psyq.Parse.Rules.{
  All, Parses, parsed, failed, HasSeed, count_all-pos, factorial-pos, mul_pos,
}

pub swap_pos :
    (ps : List Perm)
    → All HasSeed ps
    → 0 < factorial (perms_length (from_list ps)) * count_all (from_list ps)
swap_pos ps h =
    mul_pos (factorial (perms_length (from_list ps))) (count_all (from_list ps))
      (factorial-pos (perms_length (from_list ps))) (count_all-pos ps h)

-- the pieces of a text are no longer than it
pub length-join-lt :
    (sep : Text) (ts : List Text) (l : ℕ) → length (join sep ts) < l → All (λ t. length t < l) ts
unfolding join
length-join-lt sep [] l h = tt
length-join-lt sep (t ∷ []) l h = (h, tt)
length-join-lt sep (t ∷ u ∷ us) l h = (
  omega (arith, length-append t (sep ++ join sep (u ∷ us))),
  length-join-lt sep (u ∷ us) l (
      omega
        (arith, length-append t (sep ++ join sep (u ∷ us)), length-append sep (join sep (u ∷ us)))),
)

pub split_loop-fuel :
    (s : Text) (level : ℕ) (current : Text) (args : List Text)
    → split_loop s level current args ≢ raised out_of_fuel
unfolding split_loop
split_loop-fuel [] level current args e = ground arith
split_loop-fuel (c ∷ cs) level current args e = ground (
  arith,
  split_loop-fuel cs level [] (args ++ current ∷ []),
  split_loop-fuel cs (level + 1) (current ++ c ∷ []) args,
  split_loop-fuel cs (level - 1) (current ++ c ∷ []) args,
  split_loop-fuel cs level (current ++ c ∷ []) args,
)

pub split_by_comma-fuel : (s : Text) → split_by_comma s ≢ raised out_of_fuel
unfolding split_by_comma
split_by_comma-fuel s = split_loop-fuel s 0 [] []

pub consume_loop-fuel :
    (s : Text) (level : ℕ) (before : Text) → consume_loop s level before ≢ raised out_of_fuel
unfolding consume_loop
consume_loop-fuel [] level before e = cc e
consume_loop-fuel (c ∷ cs) level before e = ground (
  arith,
  consume_loop-fuel cs (level + 1) (before ++ c ∷ []),
  consume_loop-fuel cs (level - 1) (before ++ c ∷ []),
  consume_loop-fuel cs level (before ++ c ∷ []),
)

pub split_by_comma-Parses :
    (s : Text) (l n : ℕ)
    → length s < l
    → Parses (λ args. All (λ t. length t < l) args × (0 < length args)) (lift (split_by_comma s) n)
split_by_comma-Parses s l n h = elim (Ok-cases (split_by_comma s)) [
  | inl (args, e) ↦
      let (filled, whole, plain) = (split_by_comma-eq-ok_iff s args).0 e in
      rw e (parsed (length-join-lt (b',' ∷ []) args l (rw whole h), nonempty args filled))
  | inr (x, e) ↦ rw e (failed λ same. split_by_comma-fuel s (e ∙ ap raised same))
]
  where
    nonempty : (args : List Text) → args ≢ [] → 0 < length args
    nonempty [] f = absurd (f refl)
    nonempty (a ∷ as') f = omega arith

pub split_lines-lt :
    (s line : Text) (l : ℕ)
    → length line + length s < l
    → All (λ t. length t < l) (split_lines s line)
unfolding split_lines
split_lines-lt [] line l h = (omega arith, tt)
split_lines-lt (c ∷ cs) line l h = elim (Bool-cases (c == newline)) [
  | inl ends ↦ rw ends (omega arith, split_lines-lt cs [] l (omega arith))
  | inr goes_on ↦
      rw goes_on (split_lines-lt cs (line ++ c ∷ []) l (omega (arith, length-append line (c ∷ []))))
]

pub filled_lines-lt :
    (lines : List Text) (l : ℕ)
    → All (λ t. length t < l) lines
    → All (λ t. length t < l) (filled_lines lines)
unfolding filled_lines
filled_lines-lt [] l h = tt
filled_lines-lt (t ∷ ts) l h = elim (Bool-cases (is_blank t)) [
  | inl blank ↦ rw blank (filled_lines-lt ts l h.1)
  | inr filled ↦ rw filled (h.0, filled_lines-lt ts l h.1)
]

pub text_of-Parses : (p : Perm) (n : ℕ) → Parses (λ t. Unit {0}) (text_of p n)
unfolding text_of
text_of-Parses (text t) n = parsed tt
text_of-Parses _ n = failed λ e. cc e

pub int_of-Parses : (t : Text) (n : ℕ) → Parses (λ z. Unit {0}) (int_of t n)
unfolding int_of
int_of-Parses t n = elim (Option-cases (parse_int t)) [
  | inl e ↦ rw (e, int_of) (failed λ same. cc same)
  | inr (z, e) ↦ rw (e, int_of) (parsed tt)
]

pub int_perm-Parses : (bounds : List ℤ) (n : ℕ) → Parses HasSeed (int_perm bounds n)
unfolding int_perm perm_count range_count
int_perm-Parses (low ∷ high ∷ []) n = elim (Bool-cases (ltb_ℤ high low)) [
  | inl wrong ↦ rw wrong (failed λ e. cc e)
  | inr right ↦ rw right (parsed (omega arith))
]
int_perm-Parses [] n = failed λ e. cc e
int_perm-Parses (low ∷ []) n = failed λ e. cc e
int_perm-Parses (low ∷ high ∷ z ∷ zs) n = failed λ e. cc e
