-- ===== src/Examples/Cache.antt =====
-- permuter.py: the scores by source, where one source comes twice and one does not compile.
use decomp_permuter_psyq.Prelude.{
  ℕ, ◌≤◌, ◌≡◌, refl, true, false, Option, none, some, List, [], ◌∷◌, arith, length,
}
use decomp_permuter_psyq.Text.{Text, codes}
use decomp_permuter_psyq.Text.Equality.{same_text}
use decomp_permuter_psyq.Permuter.Cache.{Scores, cache_limit, score_sources, fresh_scores}
use decomp_permuter_psyq.Permuter.Fresh.{score_sources-fresh_scores}
use decomp_permuter_psyq.Permuter.Memory.{score_sources-bound}

abbrev digest : Text → Text
digest source = source

abbrev compile : Text → Option Text
compile [] = none
compile (c ∷ cs) = some (c ∷ cs)

abbrev score : Option Text → ℕ × Text
score none = (1000, [])
score (some o_file) = (length o_file, o_file)

abbrev no_scores : Scores
no_scores = record { last_score = none; score_for_source = [] }

abbrev sources : List Text
sources = codes "aa" ∷ [] ∷ codes "b" ∷ codes "aa" ∷ []

abbrev scores : List (Option ℕ)
scores = some 2 ∷ some 1000 ∷ some 1 ∷ some 2 ∷ []

cached_scores : (score_sources digest compile score false no_scores sources).0 ≡ scores
unfolding score_sources same_text
cached_scores = refl

-- With `show_errors` a source that does not compile has no score.
shown_errors :
    (score_sources digest compile score true no_scores sources).0
    ≡ some 2 ∷ none ∷ some 1 ∷ some 2 ∷ []
unfolding score_sources same_text
shown_errors = refl

score_sources-fresh_scores_example :
    (score_sources digest compile score false no_scores sources).0
    ≡ fresh_scores digest compile score false sources
score_sources-fresh_scores_example =
    score_sources-fresh_scores digest compile score false none sources (λ a b x y e. e)

score_sources-bound_example :
    length (score_sources digest compile score false no_scores sources).1.score_for_source
    ≤ cache_limit
score_sources-bound_example =
    score_sources-bound digest compile score false no_scores sources (omega arith)
