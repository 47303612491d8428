-- ===== src/Permuter/Record.antt =====
-- permuter.py: what a recorded result changes, and that nothing that was recorded is lost.
use decomp_permuter_psyq.Prelude.{
  ℕ, ◌≤◌, ◌≡◌, refl, ◌⊎◌, inl, inr, true, false, Option, none, some, List, arith, Bool-cases,
}
use decomp_permuter_psyq.Text.{Text}
use decomp_permuter_psyq.Text.Equality.{same_text_iff}
use decomp_permuter_psyq.Scorer.Score.{listed}
use decomp_permuter_psyq.Permuter.Results.{
  CandidateResult, Permuter, should_output, record_result, add_hash,
}
use decomp_permuter_psyq.Permuter.Pool.{worker_record}

pub listed-add_hash :
    (h : Text) (score : ℕ) (hash : Option Text) (hashes : List Text)
    → listed h hashes ≡ true
    → listed h (add_hash score hash hashes) ≡ true
listed-add_hash h score none hashes e = e
listed-add_hash h score (some k) hashes e = ground (arith, e)

abbrev pub Later : Permuter → Permuter → Type 0
Later self self' =
    (self'.settings ≡ self.settings)
    × (self'.best_score ≤ self.best_score)
    × ((h : Text) → listed h self.hashes ≡ true → listed h self'.hashes ≡ true)

pub Later-refl : (self : Permuter) → Later self self
Later-refl self = (refl, omega arith, λ h e. e)

pub record_result-Later :
    (self : Permuter) (result : CandidateResult) → Later self (record_result self result)
unfolding record_result
record_result-Later self result =
    (refl, omega arith, λ h e. listed-add_hash h result.score result.hash self.hashes e)

pub worker_record-true :
    (self : Permuter) (result : CandidateResult)
    → should_output self result ≡ true
    → worker_record self result ≡ record_result self result
unfolding worker_record
worker_record-true self result e = rw e refl

pub worker_record-false :
    (self : Permuter) (result : CandidateResult)
    → should_output self result ≡ false
    → worker_record self result ≡ self
unfolding worker_record
worker_record-false self result e = rw e refl

pub worker_record-Later :
    (self : Permuter) (result : CandidateResult) → Later self (worker_record self result)
worker_record-Later self result = elim (Bool-cases (should_output self result)) [
  | inl e ↦ rw (worker_record-true self result e) (record_result-Later self result)
  | inr e ↦ rw (worker_record-false self result e) (Later-refl self)
]

-- where a hash comes from that is recorded
pub add_hash-cases :
    (h : Text) (score : ℕ) (hash : Option Text) (hashes : List Text)
    → listed h (add_hash score hash hashes) ≡ true
    → (listed h hashes ≡ true) ⊎ ((other : List Text) → listed h (add_hash score hash other) ≡ true)
add_hash-cases h score none hashes e = inl e
add_hash-cases h score (some k) hashes e = elim (Bool-cases (listed h hashes)) [
  | inl old ↦ inl old
  | inr new ↦ inr (λ other. ground (arith, e, new))
]

pub add_hash-some :
    (h : Text) (score : ℕ) (k : Text) (hashes : List Text)
    → listed h (add_hash score (some k) hashes) ≡ true
    → (listed h hashes ≡ true) ⊎ (h ≡ k)
add_hash-some h score k hashes e = ground (arith, e, same_text_iff h k)
