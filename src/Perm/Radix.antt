-- ===== src/Perm/Radix.antt =====
-- perm/perm.py: the seeds of a `CombinePerm` are the combinations of its children's seeds, and those
-- of a `GeneralPerm` are its alternatives with a seed of their own.
use decomp_permuter_psyq.Prelude.{
  ℕ, zero, suc, ◌+◌, ◌-◌, ◌*◌, ◌/◌, ◌%◌, ◌<◌, ◌≡◌, refl, ap, List, [], ◌∷◌, arith, ltb, false, ◌∙◌,
  lt→ltb, digit-mod, digit-div, digit-lt, div-lt_of_lt-mul, mod-lt_of_lt-mul,
}
use native.Mathlib.Decide.{dec_lt}
use native.Mathlib.Nat.{mod-add-div}
use decomp_permuter_psyq.Text.{Text}
use decomp_permuter_psyq.Perm.Syntax.{Perms, nil, cons, perm_count, count_all, count_either}
use decomp_permuter_psyq.Perm.State.{Eval, bad_seed, pure, raise, ◌>>=◌}
use decomp_permuter_psyq.Perm.Evaluate.{divmod, evaluate, eval_all, eval_either}

-- a seed for each child, below its count
abbrev pub InRange : Perms → List ℕ → Type 0
InRange nil [] = Unit
InRange nil (s ∷ ss) = ⊥
InRange (cons p ps) [] = ⊥
InRange (cons p ps) (s ∷ ss) = (s < perm_count p) × InRange ps ss

-- every child at the seed that is chosen for it, in order
pub eval_each : Perms → List ℕ → Eval (List Text)
eval_each nil ss = pure []
eval_each (cons p ps) [] = raise bad_seed
eval_each (cons p ps) (s ∷ ss) = do t ← evaluate p s; ts ← eval_each ps ss; pure (t ∷ ts)

-- the seed that stands for a combination
pub encode : Perms → List ℕ → ℕ
encode nil ss = 0
encode (cons p ps) [] = 0
encode (cons p ps) (s ∷ ss) = s + perm_count p * encode ps ss

-- the combination that a seed stands for
pub decode : Perms → ℕ → List ℕ
decode nil seed = []
decode (cons p ps) seed = seed % perm_count p ∷ decode ps (seed / perm_count p)

pub encode-lt-count_all : (ps : Perms) (ss : List ℕ) → InRange ps ss → encode ps ss < count_all ps
unfolding encode count_all
encode-lt-count_all nil [] h = omega arith
encode-lt-count_all nil (s ∷ ss) h = absurd h
encode-lt-count_all (cons p ps) [] h = absurd h
encode-lt-count_all (cons p ps) (s ∷ ss) h =
    digit-lt s (encode ps ss) (perm_count p) (count_all ps) h.0 (encode-lt-count_all ps ss h.1)

pub decode-encode : (ps : Perms) (ss : List ℕ) → InRange ps ss → decode ps (encode ps ss) ≡ ss
unfolding encode decode
decode-encode nil [] h = refl
decode-encode nil (s ∷ ss) h = absurd h
decode-encode (cons p ps) [] h = absurd h
decode-encode (cons p ps) (s ∷ ss) h =
    rw
      (digit-mod s (encode ps ss) (perm_count p) h.0, digit-div s (encode ps ss) (perm_count p) h.0)
      (ap (λ r. s ∷ r) (decode-encode ps ss h.1))

pub decode-InRange : (ps : Perms) (seed : ℕ) → seed < count_all ps → InRange ps (decode ps seed)
unfolding decode count_all
decode-InRange nil seed h = tt
decode-InRange (cons p ps) seed h = (
  mod-lt_of_lt-mul seed (perm_count p) (count_all ps) h,
  decode-InRange ps (seed / perm_count p) (div-lt_of_lt-mul seed (perm_count p) (count_all ps) h),
)

pub encode-decode :
    (ps : Perms) (seed : ℕ) → seed < count_all ps → encode ps (decode ps seed) ≡ seed
unfolding encode decode count_all
encode-decode nil seed h = omega arith
encode-decode (cons p ps) seed h =
    rw
      (encode-decode ps (seed / perm_count p)
        (div-lt_of_lt-mul seed (perm_count p) (count_all ps) h))
      (mod-add-div seed (perm_count p))

pub divmod-pure : (a b : ℕ) → a % b < b → divmod a b ≡ pure (a / b, a % b)
unfolding divmod
divmod-pure a b h = ground arith

eval_all-decode :
    (ps : Perms) (seed : ℕ) → seed < count_all ps → eval_all ps seed ≡ eval_each ps (decode ps seed)
unfolding eval_all eval_each decode count_all
eval_all-decode nil seed h = ground arith
eval_all-decode (cons p ps) seed h =
    rw (divmod-pure seed (perm_count p) (mod-lt_of_lt-mul seed (perm_count p) (count_all ps) h)) (
      ap
        (λ (rest : Eval (List Text)). do
          t ← evaluate p (seed % perm_count p)
          ts ← rest
          pure (t ∷ ts))
        (eval_all-decode ps (seed / perm_count p)
          (div-lt_of_lt-mul seed (perm_count p) (count_all ps) h)))

-- For every choice of a seed below its count for each child there is a seed below the product of the
-- counts at which `_eval_all` gives what the children give at the chosen seeds, and from which the
-- choice can be read off again.
pub eval_all-encode :
    (ps : Perms) (ss : List ℕ)
    → InRange ps ss
    → (encode ps ss < count_all ps)
      × (eval_all ps (encode ps ss) ≡ eval_each ps ss)
      × (decode ps (encode ps ss) ≡ ss)
eval_all-encode ps ss h =
    let below = encode-lt-count_all ps ss h in
    let back = decode-encode ps ss h in
    (below, eval_all-decode ps (encode ps ss) below ∙ ap (eval_each ps) back, back)

-- Every seed below the product of the counts is such a choice: `_eval_all` gives what the children
-- give at seeds below their counts, and those determine the seed.
pub eval_all-onto :
    (ps : Perms) (seed : ℕ)
    → seed < count_all ps
    → (ss : List ℕ) × InRange ps ss × (encode ps ss ≡ seed) × (eval_all ps seed ≡ eval_each ps ss)
eval_all-onto ps seed h =
    (decode ps seed, decode-InRange ps seed h, encode-decode ps seed h, eval_all-decode ps seed h)

-- The alternative `i`, at a seed of its own.
pub eval_nth : Perms → ℕ → ℕ → Eval Text
eval_nth nil i s = raise bad_seed
eval_nth (cons p ps) zero s = evaluate p s
eval_nth (cons p ps) (suc i) s = eval_nth ps i s

-- there is an alternative `i`, and `s` is below its count
abbrev pub IsChoice : Perms → ℕ → ℕ → Type 0
IsChoice nil i s = ⊥
IsChoice (cons p ps) zero s = s < perm_count p
IsChoice (cons p ps) (suc i) s = IsChoice ps i s

-- the seeds of the alternatives before `i`, and then `s`
pub choice_seed : Perms → ℕ → ℕ → ℕ
choice_seed nil i s = s
choice_seed (cons p ps) zero s = s
choice_seed (cons p ps) (suc i) s = perm_count p + choice_seed ps i s

-- `_eval_either` at the seed of a choice gives the chosen alternative at its own seed, and that seed
-- is below the sum of the counts.
pub eval_either-choice_seed :
    (ps : Perms) (i s : ℕ)
    → IsChoice ps i s
    → (choice_seed ps i s < count_either ps)
      × (eval_either ps (choice_seed ps i s) ≡ eval_nth ps i s)
unfolding eval_either eval_nth choice_seed count_either
eval_either-choice_seed nil i s h = absurd h
eval_either-choice_seed (cons p ps) zero s h = (omega arith, rw (lt→ltb s (perm_count p) h))
eval_either-choice_seed (cons p ps) (suc i) s h =
    let (below, same) = eval_either-choice_seed ps i s h in
    let later : ltb (perm_count p + choice_seed ps i s) (perm_count p) ≡ false = ground arith in
    let left : perm_count p + choice_seed ps i s - perm_count p ≡ choice_seed ps i s =
      omega arith in
    (omega arith, rw (later, left) same)

-- Every seed below the sum of the counts is the seed of exactly such a choice.
pub eval_either-onto :
    (ps : Perms) (seed : ℕ)
    → seed < count_either ps
    → (i : ℕ) × (s : ℕ) × IsChoice ps i s × (choice_seed ps i s ≡ seed)
unfolding choice_seed count_either
eval_either-onto nil seed h = absurd (omega arith)
eval_either-onto (cons p ps) seed h = elim (dec_lt seed (perm_count p)) [
  | yes here ↦ (0, seed, here, refl)
  | no there ↦
      let (i, s, c, e) = eval_either-onto ps (seed - perm_count p) (omega arith) in
      (suc i, s, c, omega arith)
]
