-- ===== src/Permuter/Liberal.antt =====
-- permuter.py: "this must be more liberal in child processes than in parent ones".
use decomp_permuter_psyq.Prelude.{
  ℕ, ◌≤◌, ◌<◌, ◌≡◌, refl, sym, ◌∙◌, ◌⊎◌, inl, inr, true, false, Option, none, some, arith,
  Bool-cases,
}
use decomp_permuter_psyq.Text.{Text}
use decomp_permuter_psyq.Scorer.Score.{listed}
use decomp_permuter_psyq.Permuter.Results.{CandidateResult, Permuter, should_output, record_result}
use decomp_permuter_psyq.Permuter.Pool.{worker_record}
use decomp_permuter_psyq.Permuter.Record.{
  Later, listed-add_hash, worker_record-true, worker_record-false, worker_record-Later,
  add_hash-cases, add_hash-some,
}

-- `score_of` gives the score of a listing by its hash.
module _ (score_of : Text → ℕ) where
  -- the hash of a result fits its score
  abbrev pub HashFits : Option Text → ℕ → Type 0
  HashFits none score = Unit
  HashFits (some h) score = score_of h ≡ score

  abbrev pub Fits : CandidateResult → Type 0
  Fits result = HashFits result.hash result.score

  abbrev pub Sound : Permuter → Type 0
  Sound self = (h : Text) → listed h self.hashes ≡ true → self.best_score ≤ score_of h

  abbrev pub Liberal : Permuter → Permuter → Type 0
  Liberal parent child =
      (child.settings ≡ parent.settings)
      × (parent.best_score ≤ child.best_score)
      × ((h : Text)
          → listed h child.hashes ≡ true
          → (listed h parent.hashes ≡ true)
            ⊎ ((parent.settings.best_only ≡ true) × (parent.best_score < score_of h)))

  pub Liberal-refl : (self : Permuter) → Liberal self self
  Liberal-refl self = (refl, omega arith, λ h p. inl p)

  Liberal-cases :
      (parent child : Permuter) (score : ℕ) (hash source : Option Text)
      → HashFits hash score
      → Liberal parent child
      → should_output parent (record { score = score; hash = hash; source = source }) ≡ true
      → should_output child (record { score = score; hash = hash; source = source }) ≡ true
  unfolding should_output
  Liberal-cases parent child score none source fits liberal h = ground (arith, h)
  Liberal-cases parent child score (some k) none fits liberal h = ground (arith, h)
  Liberal-cases parent child score (some k) (some t) fits (same, best, seen) h =
      rw same (ground (arith, h, seen k))

  -- A result that the parent would write is one that the child sends.
  pub should_output-Liberal :
      (parent child : Permuter) (result : CandidateResult)
      → Fits result
      → Liberal parent child
      → should_output parent result ≡ true
      → should_output child result ≡ true
  should_output-Liberal parent child result =
      Liberal-cases parent child result.score result.hash result.source

  -- a result that is not written because of its hash or of a better score
  refused_cases :
      (parent child : Permuter) (score : ℕ) (k source : Text)
      → score_of k ≡ score
      → child.settings ≡ parent.settings
      → should_output child (record { score = score; hash = some k; source = some source }) ≡ true
      → should_output parent (record { score = score; hash = some k; source = some source }) ≡ false
      → (listed k parent.hashes ≡ true)
        ⊎ ((parent.settings.best_only ≡ true) × (parent.best_score < score_of k))
  unfolding should_output
  refused_cases parent child score k source fits same h r =
      let h' = rw same at h in ground (arith, h', r)

  pub Liberal-Later :
      (parent parent' child : Permuter)
      → Liberal parent child
      → Later parent parent'
      → Liberal parent' child
  Liberal-Later parent parent' child (same, best, seen) (same', best', seen') = (
    same ∙ sym same',
    omega arith,
    λ h e. elim (seen h e) [
      | inl old ↦ inl (seen' h old)
      | inr (only, below) ↦ inr (rw same' only, omega arith)
    ],
  )

  -- both write the result
  record_both :
      (parent child : Permuter) (result : CandidateResult)
      → Liberal parent child
      → Liberal (record_result parent result) (record_result child result)
  unfolding record_result
  record_both parent child result (same, best, seen) = (
    same,
    omega arith,
    λ h e. elim (add_hash-cases h result.score result.hash child.hashes e) [
      | inr new ↦ inl (new parent.hashes)
      | inl old ↦ elim (seen h old) [
        | inl known ↦ inl (listed-add_hash h result.score result.hash parent.hashes known)
        | inr (only, below) ↦ inr (only, omega arith)
      ]
    ],
  )

  record_some :
      (parent child : Permuter) (score : ℕ) (k source : Text)
      → score_of k ≡ score
      → Sound parent
      → Liberal parent child
      → (listed k parent.hashes ≡ true)
        ⊎ ((parent.settings.best_only ≡ true) × (parent.best_score < score_of k))
      → Liberal parent
          (record_result child (record { score = score; hash = some k; source = some source }))
  unfolding record_result
  record_some parent child score k source fits sound (same, best, seen) refused = (
    same,
    elim refused [
      | inl known ↦ let below = sound k known in omega arith
      | inr (only, below) ↦ omega arith
    ],
    λ h e. elim (add_hash-some h score k child.hashes e) [
      | inl old ↦ seen h old
      | inr is_k ↦ rw is_k refused
    ],
  )

  -- Only the child writes the result.
  record_child :
      (parent child : Permuter) (score : ℕ) (hash source : Option Text)
      → HashFits hash score
      → Sound parent
      → Liberal parent child
      → should_output child (record { score = score; hash = hash; source = source }) ≡ true
      → should_output parent (record { score = score; hash = hash; source = source }) ≡ false
      → Liberal parent
          (record_result child (record { score = score; hash = hash; source = source }))
  unfolding should_output
  record_child parent child score none source fits sound liberal h r = absurd (ground (arith, h))
  record_child parent child score (some k) none fits sound liberal h r = absurd (ground (arith, h))
  record_child parent child score (some k) (some t) fits sound liberal h r =
      record_some parent child score k t fits sound liberal
        (refused_cases parent child score k t fits liberal.0 h r)

  pub worker_record-Liberal :
      (parent child : Permuter) (result : CandidateResult)
      → Fits result
      → Sound parent
      → Liberal parent child
      → Liberal (worker_record parent result) (worker_record child result)
  worker_record-Liberal parent child result fits sound liberal =
      elim (Bool-cases (should_output child result)) [
        | inr r ↦ rw (worker_record-false child result r) (
            Liberal-Later parent (worker_record parent result) child liberal
              (worker_record-Later parent result))
        | inl w ↦ elim (Bool-cases (should_output parent result)) [
          | inl p ↦
              rw (worker_record-true child result w, worker_record-true parent result p)
                (record_both parent child result liberal)
          | inr r ↦
              rw (worker_record-true child result w, worker_record-false parent result r)
                (record_child parent child result.score result.hash result.source fits sound liberal
                  w r)
        ]
      ]

  record_result-Sound :
      (self : Permuter) (score : ℕ) (hash source : Option Text)
      → HashFits hash score
      → Sound self
      → Sound (record_result self (record { score = score; hash = hash; source = source }))
  unfolding record_result
  record_result-Sound self score none source fits sound h e = let below = sound h e in omega arith
  record_result-Sound self score (some k) source fits sound h e =
      elim (add_hash-some h score k self.hashes e) [
        | inl old ↦ let below = sound h old in omega arith
        | inr is_k ↦ rw (is_k, fits) (omega arith)
      ]

  pub worker_record-Sound :
      (self : Permuter) (result : CandidateResult)
      → Fits result
      → Sound self
      → Sound (worker_record self result)
  worker_record-Sound self result fits sound = elim (Bool-cases (should_output self result)) [
    | inl e ↦
        rw (worker_record-true self result e)
          (record_result-Sound self result.score result.hash result.source fits sound)
    | inr e ↦ rw (worker_record-false self result e) sound
  ]
