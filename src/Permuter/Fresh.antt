-- ===== src/Permuter/Fresh.antt =====
-- permuter.py: the scores by source give the scores that the compiler and the scorer would give again.
use decomp_permuter_psyq.Prelude.{
  ℕ, ◌+◌, ◌≤◌, ◌≡◌, refl, sym, ap, ap₂, ◌∙◌, Bool, true, false, Option, none, some, List, [], ◌∷◌,
  arith, ltb, length, Result, ok, raised, if◌then◌else◌, Bool-cases, Option-cases, Ok-cases, ◌⊎◌,
  inl, inr, append-nil,
}
use mathlib.Core.Option.{some-injective}
use decomp_permuter_psyq.Text.{Text}
use decomp_permuter_psyq.Text.Equality.{same_text, same_text_iff}
use decomp_permuter_psyq.Scorer.Score.{listed}
use decomp_permuter_psyq.Scorer.Tally.{AllListed, AllListed-middle}
use decomp_permuter_psyq.Perm.State.{Dict, get, put}
use decomp_permuter_psyq.Perm.Once.{get-put}
use decomp_permuter_psyq.Permuter.Results.{CandidateResult}
use decomp_permuter_psyq.Permuter.Cache.{
  Scores, cache_limit, score_new, score_source, score_sources, fresh_score, fresh_scores,
}

get-put-cases :
    (d : Dict ℕ) (key : Text) (value : ℕ) (other : Text) (s : ℕ)
    → get (put d key value) other ≡ some s
    → ((other ≡ key) × (s ≡ value)) ⊎ (get d other ≡ some s)
get-put-cases d key value other s e = elim (Bool-cases (same_text key other)) [
  | inl same ↦
      let e' = rw (get-put d key other value, same) at e in
      inl (sym ((same_text_iff key other).0 same), sym (some-injective value s e'))
  | inr differ ↦ inr (rw (get-put d key other value, differ) at e)
]

pub length-put : (d : Dict ℕ) (key : Text) (value : ℕ) → length (put d key value) ≤ length d + 1
unfolding put
length-put [] key value = omega arith
length-put ((k, v) ∷ d) key value = elim (Bool-cases (same_text k key)) [
  | inl e ↦ rw e (omega arith)
  | inr e ↦ rw e (omega (arith, length-put d key value))
]

module _ (digest : Text → Text) (compile : Text → Option Text) (score : Option Text → ℕ × Text)
    (show_errors : Bool) where
  -- each entry is the score of one of the sources
  abbrev Good : List Text → Dict ℕ → Type 0
  Good all cache =
      (key : Text) (s : ℕ)
      → get cache key ≡ some s
      → (source : Text) × (listed source all ≡ true)
        × (digest source ≡ key)
        × (fresh_score digest compile score show_errors source ≡ some s)

  put-Good :
      (all : List Text) (cache : Dict ℕ) (source : Text) (s : ℕ)
      → listed source all ≡ true
      → fresh_score digest compile score show_errors source ≡ some s
      → Good all cache
      → Good all (put cache (digest source) s)
  put-Good all cache source s here fresh good key t e =
      elim (get-put-cases cache (digest source) s key t e) [
        | inl (same, value) ↦ (source, here, sym same, fresh ∙ ap some (sym value))
        | inr old ↦ good key t old
      ]

  limit-Good :
      (all : List Text) (cache : Dict ℕ) (source : Text) (s : ℕ) (room : Bool)
      → listed source all ≡ true
      → fresh_score digest compile score show_errors source ≡ some s
      → Good all cache
      → Good all (if room then put cache (digest source) s else cache)
  limit-Good all cache source s true here fresh good = put-Good all cache source s here fresh good
  limit-Good all cache source s false here fresh good = good

  -- one source: its score is the fresh one, and the entries stay right
  abbrev RightRun : List Text → Text → Result (Unit {0}) (CandidateResult × Scores) → Type 0
  RightRun all source (raised e) = fresh_score digest compile score show_errors source ≡ none
  RightRun all source (ok (result, scores)) =
      (fresh_score digest compile score show_errors source ≡ some result.score)
      × Good all scores.score_for_source

  score_new-RightRun :
      (all : List Text) (cache : Dict ℕ) (source : Text) (o_file : Option Text)
      → listed source all ≡ true
      → fresh_score digest compile score show_errors source ≡ some (score o_file).0
      → Good all cache
      → RightRun all source (score_new digest compile score show_errors cache source o_file)
  unfolding score_new
  score_new-RightRun all cache source o_file here fresh good = (
    fresh,
    limit-Good all cache source (score o_file).0 (ltb (length cache) cache_limit) here fresh good,
  )

  score_source-RightRun :
      (all : List Text) (scores : Scores) (source : Text)
      → ((a b : Text) → listed a all ≡ true → listed b all ≡ true → digest a ≡ digest b → a ≡ b)
      → listed source all ≡ true
      → Good all scores.score_for_source
      → RightRun all source (score_source digest compile score show_errors scores source)
  unfolding score_source
  score_source-RightRun all scores source distinct here good =
      elim (Option-cases (get scores.score_for_source (digest source))) [
        | inr (old, e) ↦
            let (origin, there, same, fresh) = good (digest source) old e in
            rw (e, score_source) (rw (distinct origin source there here same) at fresh, good)
        | inl e ↦ elim (Option-cases (compile source)) [
          | inr (o_file, o) ↦
              rw (e, o, score_source)
                (score_new-RightRun all scores.score_for_source source (some o_file) here
                  (rw o refl) good)
          | inl o ↦ elim (Bool-cases show_errors) [
            | inl show ↦ rw (e, o, show, score_source) (rw o refl)
            | inr hide ↦
                let done =
                  score_new-RightRun all scores.score_for_source source none here
                    (rw (o, hide) refl) good in
                rw (e, o, hide, score_source) (rw hide at done)
          ]
        ]
      ]

  score_sources-fresh :
      (all : List Text) (scores : Scores) (sources : List Text)
      → ((a b : Text) → listed a all ≡ true → listed b all ≡ true → digest a ≡ digest b → a ≡ b)
      → AllListed sources all
      → Good all scores.score_for_source
      → (score_sources digest compile score show_errors scores sources).0
        ≡ fresh_scores digest compile score show_errors sources
  unfolding score_sources
  score_sources-fresh all scores [] distinct here good = refl
  score_sources-fresh all scores (source ∷ sources) distinct (here, rest) good =
      let right = score_source-RightRun all scores source distinct here good in
      elim (Ok-cases (score_source digest compile score show_errors scores source)) [
        | inl ((result, scores'), e) ↦
            let (fresh, good') = rw e at right in
            rw (e, score_sources)
              (ap₂ ◌∷◌ (sym fresh) (score_sources-fresh all scores' sources distinct rest good'))
        | inr (x, e) ↦
            let fresh = rw e at right in
            rw (e, score_sources)
              (ap₂ ◌∷◌ (sym fresh) (
                score_sources-fresh all (record scores { last_score = none }) sources distinct rest
                  good))
      ]

-- From an empty cache the scores of a run over sources, a source that comes again included, are those
-- that the compiler and the scorer give each time, if the digests of the sources tell them apart.
pub score_sources-fresh_scores :
    (digest : Text → Text) (compile : Text → Option Text) (score : Option Text → ℕ × Text)
    (show_errors : Bool) (last_score : Option ℕ) (sources : List Text)
    → ((a b : Text)
        → listed a sources ≡ true
        → listed b sources ≡ true
        → digest a ≡ digest b
        → a ≡ b)
    → (score_sources digest compile score show_errors
        (record { last_score = last_score; score_for_source = [] })
        sources).0
      ≡ fresh_scores digest compile score show_errors sources
unfolding get
score_sources-fresh_scores digest compile score show_errors last_score sources distinct =
    score_sources-fresh digest compile score show_errors sources
      (record { last_score = last_score; score_for_source = [] }) sources distinct
      (rw append-nil at (AllListed-middle [] sources [])) λ key s e. absurd (cc e)
