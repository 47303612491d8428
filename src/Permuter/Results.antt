-- ===== src/Permuter/Results.antt =====
-- permuter.py: `should_output`, `record_result` and the choice to send a source; candidate.py:
-- `CandidateResult`.
use decomp_permuter_psyq.Prelude.{
  ℕ, Bool, true, false, not, ◌&&◌, ◌||◌, Option, none, some, List, [], ◌∷◌, leb, ltb, ◌==◌, min,
  if◌then◌else◌,
}
use decomp_permuter_psyq.Text.{Text}
use decomp_permuter_psyq.Scorer.Score.{listed}

pub record CandidateResult : Type 0 where
  pub score : ℕ
  pub hash : Option Text
  pub source : Option Text

-- the fields of a `Permuter` that stay as they are
pub record Settings : Type 0 where
  pub base_score : ℕ
  pub base_hash : Text
  pub need_all_sources : Bool
  pub best_only : Bool
  pub better_only : Bool
  pub score_threshold : Option ℕ

-- `hashes` is a set: the order of the list does not matter.
pub record Permuter : Type 0 where
  pub settings : Settings
  pub best_score : ℕ
  pub hashes : List Text

-- the end of `Permuter.__init__`
abbrev pub new_permuter : Settings → Permuter
new_permuter settings = record {
  settings = settings;
  best_score = settings.base_score;
  hashes = settings.base_hash ∷ [];
}

abbrev pub is_present : Option Text → Bool
is_present none = false
is_present (some t) = true

-- `score_threshold is None or score < score_threshold`
abbrev pub below_threshold : Option ℕ → ℕ → Bool
below_threshold none score = true
below_threshold (some threshold) score = ltb score threshold

-- `hash in self.hashes`
abbrev pub is_seen : Option Text → List Text → Bool
is_seen none hashes = false
is_seen (some h) hashes = listed h hashes

unfoldable pub should_output : Permuter → CandidateResult → Bool
should_output self result =
    leb result.score self.settings.base_score
    && (is_present result.hash
        && (is_present result.source
            && (not (ltb self.best_score result.score && self.settings.best_only)
                && ((ltb result.score self.settings.base_score
                      || (result.score == self.settings.base_score
                          && not self.settings.better_only))
                    && (below_threshold self.settings.score_threshold result.score
                        && not (is_seen result.hash self.hashes))))))

abbrev pub add_hash : ℕ → Option Text → List Text → List Text
add_hash score none hashes = hashes
add_hash score (some h) hashes = if score == 0 then hashes else h ∷ hashes

unfoldable pub record_result : Permuter → CandidateResult → Permuter
record_result self result = record self {
  best_score = min self.best_score result.score;
  hashes = add_hash result.score result.hash self.hashes;
}

-- `_need_to_send_source`
unfoldable pub need_to_send_source : Permuter → CandidateResult → Bool
unfolding should_output
need_to_send_source self result = self.settings.need_all_sources || should_output self result

-- the end of `_eval_candidate`
unfoldable pub drop_source : Permuter → CandidateResult → CandidateResult
unfolding need_to_send_source
drop_source self result =
    if need_to_send_source self result then result else record result { hash = none; source = none }
