-- ===== src/Scorer/Tally.antt =====
-- scorer.py: the counters of inserted and deleted lines.
use decomp_permuter_psyq.Prelude.{
  ℕ, ◌+◌, ◌≡◌, refl, true, ◌||◌, List, [], ◌∷◌, ◌++◌, arith, if◌then◌else◌, length, ◌∙◌,
  append_assoc, append-nil,
}
use decomp_permuter_psyq.Text.{Text}
use decomp_permuter_psyq.Text.Equality.{same_text_iff}
use decomp_permuter_psyq.Scorer.Score.{times, listed, distinct, tally_items, tally}

sum_times : List Text → List Text → ℕ
sum_times [] ts = 0
sum_times (item ∷ items) ts = times item ts + sum_times items ts

sum_times-nil : (items : List Text) → sum_times items [] ≡ 0
unfolding sum_times
sum_times-nil [] = refl
sum_times-nil (item ∷ items) = omega (arith, sum_times-nil items)

sum_times-cons :
    (items : List Text) (u : Text) (us : List Text)
    → sum_times items (u ∷ us) ≡ times u items + sum_times items us
unfolding sum_times
sum_times-cons [] u us = omega arith
sum_times-cons (item ∷ items) u us =
    ground (arith, sum_times-cons items u us, same_text_iff item u, same_text_iff u item)

times-distinct :
    (t : Text) (ts : List Text) → times t (distinct ts) ≡ (if listed t ts then 1 else 0)
times-distinct t [] = refl
times-distinct t (u ∷ us) = ground (arith, times-distinct t us, same_text_iff t u)

listed-append : (t : Text) (us vs : List Text) → listed t (us ++ vs) ≡ (listed t us || listed t vs)
listed-append t [] vs = refl
listed-append t (u ∷ us) vs = ground (arith, listed-append t us vs)

-- everything in the one list is in the other
abbrev pub AllListed : List Text → List Text → Type 0
AllListed [] l = Unit
AllListed (t ∷ ts) l = (listed t l ≡ true) × AllListed ts l

sum_times-distinct : (l ts : List Text) → AllListed ts l → sum_times (distinct l) ts ≡ length ts
sum_times-distinct l [] h = sum_times-nil (distinct l)
sum_times-distinct l (t ∷ ts) h =
    sum_times-cons (distinct l) t ts
    ∙ rw (times-distinct t l, h.0, sum_times-distinct l ts h.1) (omega arith)

listed-within : (t : Text) (front back : List Text) → listed t (front ++ t ∷ back) ≡ true
listed-within t front back =
    rw (listed-append t front (t ∷ back), (same_text_iff t t).1 refl) (ground arith)

pub AllListed-middle : (front ts back : List Text) → AllListed ts (front ++ (ts ++ back))
AllListed-middle front [] back = tt
AllListed-middle front (t ∷ ts) back = (
  listed-within t front (ts ++ back),
  rw (← append_assoc front (t ∷ []) (ts ++ back)) (AllListed-middle (front ++ t ∷ []) ts back),
)

tally_items-sum :
    (items insertions deletions : List Text)
    → let totals = tally_items items insertions deletions in
      (totals.num_insertion_penalties + totals.num_reordering_penalties
        ≡ sum_times items insertions)
      × (totals.num_deletion_penalties + totals.num_reordering_penalties
          ≡ sum_times items deletions)
unfolding tally_items sum_times
tally_items-sum [] insertions deletions = (refl, refl)
tally_items-sum (item ∷ items) insertions deletions =
    let (i, d) = tally_items-sum items insertions deletions in (omega arith, omega arith)

-- A line that is inserted is counted once, as an insertion or as a reordering, and a line that is
-- deleted once, as a deletion or as a reordering.
pub tally_counts :
    (insertions deletions : List Text)
    → let totals = tally insertions deletions in
      (totals.num_insertion_penalties + totals.num_reordering_penalties ≡ length insertions)
      × (totals.num_deletion_penalties + totals.num_reordering_penalties ≡ length deletions)
unfolding tally
tally_counts insertions deletions =
    let (i, d) = tally_items-sum (distinct (insertions ++ deletions)) insertions deletions in
    (
      i
          ∙ sum_times-distinct (insertions ++ deletions) insertions
              (AllListed-middle [] insertions deletions),
      d
          ∙ sum_times-distinct (insertions ++ deletions) deletions
              (rw append-nil at (AllListed-middle insertions deletions [])),
    )
