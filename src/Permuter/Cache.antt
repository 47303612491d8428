-- ===== src/Permuter/Cache.antt =====
-- permuter.py: the scores by source in `_eval_candidate`.
use decomp_permuter_psyq.Prelude.{
  ℕ, Bool, Option, none, some, List, [], ◌∷◌, ltb, length, Result, ok, raised, if◌then◌else◌,
}
use decomp_permuter_psyq.Text.{Text}
use decomp_permuter_psyq.Perm.State.{Dict, get, put}
use decomp_permuter_psyq.Permuter.Results.{CandidateResult}

pub record Scores : Type 0 where
  pub last_score : Option ℕ
  pub score_for_source : Dict ℕ

abbrev pub cache_limit : ℕ
cache_limit = 100000

-- `digest` is `hashlib.sha256`, `compile` the compiler's object file, if there is one, whose name is not
-- empty, `score` the scorer's answer.
module _ (digest : Text → Text) (compile : Text → Option Text) (score : Option Text → ℕ × Text)
    (show_errors : Bool) where
  -- A source that is new is compiled and scored; `raised` is `_CompileFailure`.
  unfoldable pub score_new :
      Dict ℕ → Text → Option Text → Result (Unit {0}) (CandidateResult × Scores)
  unfolding put
  score_new cache source o_file =
      let (value, hash) = score o_file in
      let result : CandidateResult = record {
        score = value;
        hash = some hash;
        source = some source;
      } in
      let kept = put cache (digest source) value in
      ok (
        result,
        record {
          last_score = some value;
          score_for_source = if ltb (length cache) cache_limit then kept else cache;
        },
      )

  -- `_eval_candidate` from the source of the candidate to the score
  unfoldable pub score_source : Scores → Text → Result (Unit {0}) (CandidateResult × Scores)
  unfolding score_new get
  score_source scores source = elim (get scores.score_for_source (digest source)) [
    | some old ↦ ok (
      record { score = old; hash = none; source = some source },
      record scores { last_score = some old },
    )
    | none ↦ elim (compile source) [
      | some o_file ↦ score_new scores.score_for_source source (some o_file)
      | none ↦ if show_errors then raised tt else score_new scores.score_for_source source none
    ]
  ]

  -- The scores of a run over sources; a `_CompileFailure` changes nothing but the last score.
  unfoldable pub score_sources : Scores → List Text → List (Option ℕ) × Scores
  unfolding score_source
  score_sources scores [] = ([], scores)
  score_sources scores (source ∷ sources) = elim (score_source scores source) [
    | raised e ↦
        let (rest, last) = score_sources (record scores { last_score = none }) sources in
        (none ∷ rest, last)
    | ok (result, scores') ↦
        let (rest, last) = score_sources scores' sources in (some result.score ∷ rest, last)
  ]

  -- the score without a cache
  abbrev fresh_of : Option Text → Option ℕ
  fresh_of none = if show_errors then none else some (score none).0
  fresh_of (some o_file) = some (score (some o_file)).0

  abbrev pub fresh_score : Text → Option ℕ
  fresh_score source = fresh_of (compile source)

  abbrev pub fresh_scores : List Text → List (Option ℕ)
  fresh_scores [] = []
  fresh_scores (source ∷ sources) = fresh_score source ∷ fresh_scores sources
