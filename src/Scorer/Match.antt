-- ===== src/Scorer/Match.antt =====
-- scorer.py: what the score says of the two listings.
use decomp_permuter_psyq.Prelude.{
  ℕ, zero, suc, ◌+◌, ◌-◌, ◌≤◌, ◌≡◌, refl, sym, ap, ap₂, ◌∙◌, some, List, [], ◌∷◌, ◌++◌, arith,
  length, length-map, take, drop, take-append-drop,
}
use mathlib.Core.Option.{some-injective}
use decomp_permuter_psyq.Text.{Text}
use decomp_permuter_psyq.Scorer.Lines.{Line}
use decomp_permuter_psyq.Scorer.Tally.{tally_counts}
use decomp_permuter_psyq.Scorer.Zero.{
  Tagged, Covers, inserted_by, deleted_by, shared_by, total, Covers-total, apply_opcodes-run,
}
use decomp_permuter_psyq.Scorer.Score.{
  Scorer, Tag, Opcode, Penalties, no_penalties, equal, replace, delete, insert, final_score,
  score_lines, mnemonics, tally,
}

drop-nil : {A : Type 0} (n : ℕ) → drop {A = A} n [] ≡ []
drop-nil zero = refl
drop-nil (suc n) = refl

drop-drop : {A : Type 0} (i n m : ℕ) (xs : List A) → i + n ≡ m → drop n (drop i xs) ≡ drop m xs
drop-drop zero n m xs h = ap (λ (k : ℕ). drop k xs) (let e : n ≡ m = omega arith in e)
drop-drop (suc i) n m [] h = drop-nil n ∙ sym (drop-nil m)
drop-drop (suc i) n zero (x ∷ xs) h = absurd (omega arith)
drop-drop (suc i) n (suc m) (x ∷ xs) h = drop-drop i n m xs (omega arith)

drop_all : {A : Type 0} (n : ℕ) (xs : List A) → length xs ≤ n → drop n xs ≡ []
drop_all n [] h = drop-nil n
drop_all zero (x ∷ xs) h = absurd (omega arith)
drop_all (suc n) (x ∷ xs) h = drop_all n xs (omega arith)

-- lists that agree on a stretch and behind it agree from its start
stretch :
    (i m : ℕ) (a b : List Text)
    → i ≤ m
    → take (m - i) (drop i a) ≡ take (m - i) (drop i b)
    → drop m a ≡ drop m b
    → drop i a ≡ drop i b
stretch i m a b h front back =
    sym (take-append-drop (m - i) (drop i a))
    ∙ ap₂ ◌++◌ front
        (drop-drop i (m - i) m a (omega arith) ∙ back ∙ sym (drop-drop i (m - i) m b (omega arith)))
    ∙ take-append-drop (m - i) (drop i b)

-- an opcode that leaves no line of either list unshared
no_difference :
    (tag : Tag) (op : Opcode) (a b : List Text)
    → op.i1 ≤ op.i2
    → op.j1 ≤ op.j2
    → op.i1 ≡ op.j1
    → Tagged tag a b op
    → inserted_by tag op ≡ 0
    → deleted_by tag op ≡ 0
    → (op.i2 ≡ op.j2) × (take (op.i2 - op.i1) (drop op.i1 a) ≡ take (op.i2 - op.i1) (drop op.i1 b))
no_difference equal op a b hi hj e t x y =
    (omega (arith, t.0), t.1 ∙ ap₂ (λ (n i : ℕ). take n (drop i b)) (sym t.0) (sym e))
no_difference delete op a b hi hj e t x y = (omega (arith, t), rw x refl)
no_difference insert op a b hi hj e t x y =
    let none_left : op.i2 - op.i1 ≡ 0 = omega (arith, t) in (omega (arith, t), rw none_left refl)
no_difference replace op a b hi hj e t x y = (omega arith, rw x refl)

all_shared :
    (a b : List Text) (ops : List Opcode) (i j : ℕ)
    → i ≡ j
    → Covers a b i j ops
    → total inserted_by ops ≡ 0
    → total deleted_by ops ≡ 0
    → drop i a ≡ drop i b
all_shared a b [] i j e h x y =
    drop_all i a (omega (arith, h.0)) ∙ sym (drop_all i b (omega (arith, h.1)))
all_shared a b (op ∷ ops) i j e ((hi, hj), (li, lj, la, lb), t, rest) x y =
    let (next, front) =
      no_difference op.tag op a b li lj (omega arith) t (omega (arith, x)) (omega (arith, y)) in
    rw (← hi) (
      stretch op.i1 op.i2 a b li front
        (all_shared a b ops op.i2 op.j2 next rest (omega (arith, x)) (omega (arith, y))))

module _ (self : Scorer) (cand : List Line)
    (covers : Covers
      (mnemonics cand)
      (mnemonics self.target_seq)
      0
      0
      (self.get_opcodes (mnemonics cand) (mnemonics self.target_seq))) where
  -- Over opcodes that go through both lists `score` raises no `IndexError`, and every line is counted:
  -- a candidate's line as shared, inserted or reordered, a target's as shared, deleted or reordered.
  pub score_accounts :
      (pen : Penalties) × (score_lines self cand ≡ some (final_score pen))
      × ((tally pen.insertions pen.deletions).num_insertion_penalties
            + (tally pen.insertions pen.deletions).num_reordering_penalties
            + total shared_by (self.get_opcodes (mnemonics cand) (mnemonics self.target_seq))
          ≡ length cand)
      × ((tally pen.insertions pen.deletions).num_deletion_penalties
            + (tally pen.insertions pen.deletions).num_reordering_penalties
            + total shared_by (self.get_opcodes (mnemonics cand) (mnemonics self.target_seq))
          ≡ length self.target_seq)
  unfolding score_lines
  score_accounts =
      let ops = self.get_opcodes (mnemonics cand) (mnemonics self.target_seq) in
      let (pen, run, ins, del) = apply_opcodes-run self cand ops 0 0 no_penalties covers in
      let (x, y) = Covers-total (mnemonics cand) (mnemonics self.target_seq) ops 0 0 covers in
      let (ti, td) = tally_counts pen.insertions pen.deletions in
      (
        pen,
        rw (run, score_lines),
        omega (arith, ti, ins, x, length-map cand (λ (l : Line). l.mnemonic)),
        omega (arith, td, del, y, length-map self.target_seq (λ (l : Line). l.mnemonic)),
      )

  -- A score of 0 means that the candidate has the target's mnemonics, in the same order.
  pub score_zero_sound : score_lines self cand ≡ some 0 → mnemonics cand ≡ mnemonics self.target_seq
  unfolding score_lines final_score
  score_zero_sound zero_score =
      let ops = self.get_opcodes (mnemonics cand) (mnemonics self.target_seq) in
      let (pen, run, ins, del) = apply_opcodes-run self cand ops 0 0 no_penalties covers in
      let (ti, td) = tally_counts pen.insertions pen.deletions in
      let sum = some-injective (final_score pen) 0 (rw (run, score_lines) at zero_score) in
      all_shared (mnemonics cand) (mnemonics self.target_seq) ops 0 0 refl covers
        (omega (arith, sum, ti, td, ins, del)) (omega (arith, sum, ti, td, ins, del))
