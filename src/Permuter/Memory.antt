-- ===== src/Permuter/Memory.antt =====
-- permuter.py: "prevent unbounded memory usage".
use decomp_permuter_psyq.Prelude.{
  ℕ, ◌≤◌, Bool, Option, none, some, List, [], ◌∷◌, arith, ltb, length, Result, ok, raised,
  if◌then◌else◌, Bool-cases, Option-cases, Ok-cases, inl, inr,
}
use decomp_permuter_psyq.Text.{Text}
use decomp_permuter_psyq.Perm.State.{Dict, get, put}
use decomp_permuter_psyq.Permuter.Results.{CandidateResult}
use decomp_permuter_psyq.Permuter.Cache.{
  Scores, cache_limit, score_new, score_source, score_sources,
}
use decomp_permuter_psyq.Permuter.Fresh.{length-put}

limit-put :
    (cache : Dict ℕ) (key : Text) (value : ℕ)
    → length cache ≤ cache_limit
    → length (if ltb (length cache) cache_limit then put cache key value else cache) ≤ cache_limit
limit-put cache key value h = elim (Bool-cases (ltb (length cache) cache_limit)) [
  | inl room ↦ rw room (let more = length-put cache key value in ground (arith, more, room))
  | inr full ↦ rw full h
]

module _ (digest : Text → Text) (compile : Text → Option Text) (score : Option Text → ℕ × Text)
    (show_errors : Bool) where
  abbrev IsBounded : Result (Unit {0}) (CandidateResult × Scores) → Type 0
  IsBounded (raised e) = Unit
  IsBounded (ok (result, scores)) = length scores.score_for_source ≤ cache_limit

  score_new-IsBounded :
      (cache : Dict ℕ) (source : Text) (o_file : Option Text)
      → length cache ≤ cache_limit
      → IsBounded (score_new digest compile score show_errors cache source o_file)
  unfolding score_new
  score_new-IsBounded cache source o_file h = limit-put cache (digest source) (score o_file).0 h

  score_source-IsBounded :
      (scores : Scores) (source : Text)
      → length scores.score_for_source ≤ cache_limit
      → IsBounded (score_source digest compile score show_errors scores source)
  unfolding score_source
  score_source-IsBounded scores source h =
      elim (Option-cases (get scores.score_for_source (digest source))) [
        | inr (old, e) ↦ rw (e, score_source) h
        | inl e ↦ elim (Option-cases (compile source)) [
          | inr (o_file, o) ↦
              rw (e, o, score_source)
                (score_new-IsBounded scores.score_for_source source (some o_file) h)
          | inl o ↦ elim (Bool-cases show_errors) [
            | inl show ↦ rw (e, o, show, score_source) tt
            | inr hide ↦
                rw (e, o, hide, score_source)
                  (score_new-IsBounded scores.score_for_source source none h)
          ]
        ]
      ]

  -- However many sources are scored, no more than 100000 scores are kept.
  pub score_sources-bound :
      (scores : Scores) (sources : List Text)
      → length scores.score_for_source ≤ cache_limit
      → length (score_sources digest compile score show_errors scores sources).1.score_for_source
        ≤ cache_limit
  unfolding score_sources
  score_sources-bound scores [] h = h
  score_sources-bound scores (source ∷ sources) h =
      let one = score_source-IsBounded scores source h in
      elim (Ok-cases (score_source digest compile score show_errors scores source)) [
        | inl ((result, scores'), e) ↦
            rw (e, score_sources) (score_sources-bound scores' sources (rw e at one))
        | inr (x, e) ↦
            rw (e, score_sources)
              (score_sources-bound (record scores { last_score = none }) sources h)
      ]
