-- ===== src/Perm/SeedOrder.antt =====
-- perm/eval.py: one round of `_gen_all_seeds` yields each seed once.
use mathlib.Core.List.{reverse, reverse-cons}
use decomp_permuter_psyq.Prelude.{
  ℕ, zero, suc, ◌+◌, ◌/◌, ◌≤◌, ◌<◌, ◌≡◌, refl, true, false, ◌&&◌, not, some, List, [], ◌∷◌, ◌++◌,
  arith, ltb, leb, ◌==◌, if◌then◌else◌, length, min, Option-cases, Bool-cases, inl, inr, subst,
}
use mathlib.Core.Option.{some-injective}
use decomp_permuter_psyq.Perm.Syntax.{is_random}
use decomp_permuter_psyq.Perm.Root.{RootPerm}
use decomp_permuter_psyq.Perm.Seeds.{
  perm_gen_all_seeds, seen_before, draw_seeds, unseen, gen_all_seeds,
}

-- how often a number occurs
abbrev pub occurrences : ℕ → List ℕ → ℕ
occurrences a [] = 0
occurrences a (x ∷ xs) = (if a == x then 1 else 0) + occurrences a xs

occurrences-append :
    (s : ℕ) (front back : List ℕ)
    → occurrences s (front ++ back) ≡ occurrences s front + occurrences s back
occurrences-append s [] back = omega arith
occurrences-append s (t ∷ front) back = omega (arith, occurrences-append s front back)

occurrences-reverse : (a : ℕ) (xs : List ℕ) → occurrences a (reverse xs) ≡ occurrences a xs
occurrences-reverse a [] = refl
occurrences-reverse a (x ∷ xs) =
    rw (reverse-cons x xs)
      (omega (arith, occurrences-append a (reverse xs) (x ∷ []), occurrences-reverse a xs))

-- every seed of `seen` is in it once, and below the count
record IsSeen (total : ℕ) (seen : List ℕ) : Type 0 where
  once : (a : ℕ) → occurrences a seen ≡ (if seen_before a seen then 1 else 0)
  below : (a : ℕ) → seen_before a seen ≡ true → a < total

abbrev pub AllBelow : ℕ → List ℕ → Type 0
AllBelow n [] = Unit
AllBelow n (x ∷ xs) = (x < n) × AllBelow n xs

IsSeen-cons :
    {total : ℕ} {seen : List ℕ} (x : ℕ)
    → IsSeen total seen
    → x < total
    → seen_before x seen ≡ false
    → IsSeen total (x ∷ seen)
unfolding seen_before
IsSeen-cons x s h f = record {
  once = λ a. ground (arith, s.once a);
  below = λ a e. ground (arith, s.below a);
}

draw_seeds-IsSeen :
    (draws : List ℕ) (total : ℕ) (seen : List ℕ) {out : List ℕ}
    → IsSeen total seen
    → AllBelow total draws
    → draw_seeds draws total seen ≡ some out
    → IsSeen total out
unfolding draw_seeds
draw_seeds-IsSeen [] total seen {out} s h e = elim (Bool-cases (ltb (length seen) (total / 2))) [
  | inl more ↦ cc (rw more at e)
  | inr enough ↦ subst (IsSeen total) (some-injective seen out (rw enough at e)) s
]
draw_seeds-IsSeen (x ∷ xs) total seen {out} s h e =
    elim (Bool-cases (ltb (length seen) (total / 2))) [
      | inr enough ↦ subst (IsSeen total) (some-injective seen out (rw enough at e)) s
      | inl more ↦ elim (Bool-cases (seen_before x seen)) [
        | inl old ↦ draw_seeds-IsSeen xs total seen s h.1 (rw (more, old) at e)
        | inr new ↦
            draw_seeds-IsSeen xs total (x ∷ seen) (IsSeen-cons x s h.0 new) h.1
              (rw (more, new) at e)
      ]
    ]

occurrences-unseen :
    (first n : ℕ) (seen : List ℕ) (a : ℕ)
    → occurrences a (unseen first n seen)
      ≡ (if leb first a && (ltb a (first + n) && not (seen_before a seen)) then 1 else 0)
unfolding unseen
occurrences-unseen first zero seen a = ground arith
occurrences-unseen first (suc n) seen a = ground (arith, occurrences-unseen (first + 1) n seen a)

empty-IsSeen : (total : ℕ) → IsSeen total []
unfolding seen_before
empty-IsSeen total = record { once = λ a. refl; below = λ a e. cc e }

-- Whatever is drawn below the count, and however the rest is mixed, a round of `_gen_all_seeds` that
-- ends yields each seed below the count once, and nothing else.
pub gen_all_seeds_once :
    (mix : List ℕ → List ℕ) (draws : List ℕ) (total a : ℕ) {out : List ℕ}
    → ((b : ℕ) (xs : List ℕ) → occurrences b (mix xs) ≡ occurrences b xs)
    → AllBelow total draws
    → gen_all_seeds mix draws total ≡ some out
    → occurrences a out ≡ (if ltb a total then 1 else 0)
unfolding gen_all_seeds
gen_all_seeds_once mix draws total a {out} mixes h e =
    elim (Option-cases (draw_seeds draws total [])) [
      | inl f ↦ cc (rw (f, gen_all_seeds) at e)
      | inr (seen, f) ↦
          let s = draw_seeds-IsSeen draws total [] (empty-IsSeen total) h f in
          let rest = unseen 0 total seen in
          let made = some-injective (reverse seen ++ mix rest) out (rw (f, gen_all_seeds) at e) in
          rw (← made) (
            rw
              (
                occurrences-append a (reverse seen) (mix rest),
                occurrences-reverse a seen,
                mixes a rest,
                s.once a,
                occurrences-unseen 0 total seen a,
              )
              (ground (arith, s.below a)))
    ]

-- how many of the draws are new when they are drawn
abbrev pub new_draws : List ℕ → List ℕ → ℕ
new_draws [] seen = 0
new_draws (x ∷ xs) seen =
    if seen_before x seen then new_draws xs seen else suc (new_draws xs (x ∷ seen))

draw_seeds-returns :
    (draws : List ℕ) (total : ℕ) (seen : List ℕ)
    → total / 2 ≤ length seen + new_draws draws seen
    → (out : List ℕ) × (draw_seeds draws total seen ≡ some out)
unfolding draw_seeds
draw_seeds-returns [] total seen h =
    let enough : ltb (length seen) (total / 2) ≡ false = ground arith in (seen, rw enough)
draw_seeds-returns (x ∷ xs) total seen h = elim (Bool-cases (ltb (length seen) (total / 2))) [
  | inr enough ↦ (seen, rw enough)
  | inl more ↦ elim (Bool-cases (seen_before x seen)) [
    | inl old ↦ rw (more, old) (draw_seeds-returns xs total seen (ground arith))
    | inr new ↦ rw (more, new) (draw_seeds-returns xs total (x ∷ seen) (ground arith))
  ]
]

-- A round ends as soon as half of the seeds have been drawn.
pub gen_all_seeds_returns :
    (mix : List ℕ → List ℕ) (draws : List ℕ) (total : ℕ)
    → total / 2 ≤ new_draws draws []
    → (out : List ℕ) × (gen_all_seeds mix draws total ≡ some out)
unfolding gen_all_seeds
gen_all_seeds_returns mix draws total h =
    let (seen, e) = draw_seeds-returns draws total [] (omega arith) in
    (reverse seen ++ mix (unseen 0 total seen), rw (e, gen_all_seeds))

abbrev pub EachBelow : ℕ → List (List ℕ) → Type 0
EachBelow n [] = Unit
EachBelow n (draws ∷ rounds) = AllBelow n draws × EachBelow n rounds

-- In the rounds of `perm_gen_all_seeds` each seed below the count comes once a round, and no other
-- number comes; a tree that is not random has one round at most, whatever is asked for.
pub perm_gen_all_seeds-occurrences :
    (mix : List ℕ → List ℕ) (root : RootPerm) (rounds : List (List ℕ)) (a : ℕ) {out : List ℕ}
    → ((b : ℕ) (xs : List ℕ) → occurrences b (mix xs) ≡ occurrences b xs)
    → EachBelow root.root_count rounds
    → perm_gen_all_seeds mix root rounds ≡ some out
    → occurrences a out ≡ (
        if ltb a root.root_count
        then if is_random root.inner then length rounds else min 1 (length rounds)
        else 0)
unfolding perm_gen_all_seeds
perm_gen_all_seeds-occurrences mix root [] a {out} mixes h e =
    rw (← some-injective [] out e) (ground arith)
perm_gen_all_seeds-occurrences mix root (draws ∷ rounds) a {out} mixes h e =
    elim (Option-cases (gen_all_seeds mix draws root.root_count)) [
      | inl f ↦ cc (rw (f, perm_gen_all_seeds) at e)
      | inr (seeds, f) ↦
          let once = gen_all_seeds_once mix draws root.root_count a {out = seeds} mixes h.0 f in
          elim (Bool-cases (is_random root.inner)) [
            | inr fixed ↦
                rw (← some-injective seeds out (rw (f, perm_gen_all_seeds, fixed) at e))
                  (rw fixed (ground (arith, once)))
            | inl random ↦ elim (Option-cases (perm_gen_all_seeds mix root rounds)) [
              | inl g ↦ cc (rw (f, perm_gen_all_seeds, random, g) at e)
              | inr (rest, g) ↦
                  let more =
                    perm_gen_all_seeds-occurrences mix root rounds a {out = rest} mixes h.1 g in
                  rw
                    (← some-injective (seeds ++ rest) out
                      (rw (f, perm_gen_all_seeds, random, g) at e))
                    (rw (occurrences-append a seeds rest, once, more, random) (ground arith))
            ]
          ]
    ]
