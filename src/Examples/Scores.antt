-- ===== src/Examples/Scores.antt =====
-- scorer.py on listings of a few lines.
use decomp_permuter_psyq.Prelude.{ℕ, ◌+◌, ◌≡◌, refl, some, none, false, List, [], ◌∷◌, arith}
use decomp_permuter_psyq.Text.{Text, codes}
use decomp_permuter_psyq.Scorer.Lines.{Line, ArchName}
use decomp_permuter_psyq.Scorer.Score.{
  Tag, Scorer, Opcode, Penalties, equal, delete, insert, score_lines, score, final_score, tally,
  mnemonics, penalty_inf,
}
use decomp_permuter_psyq.Scorer.Zero.{total, shared_by, Covers}
use decomp_permuter_psyq.Scorer.Match.{score_accounts, score_zero_sound}

abbrev line : Text → Text → Line
line op row = record { row = row; mnemonic = op; has_symbol = false }

abbrev add_line : Line
add_line = line (codes "add") (codes "add r3,r4")

abbrev other_add_line : Line
other_add_line = line (codes "add") (codes "add r3,r5")

abbrev sub_line : Line
sub_line = line (codes "sub") (codes "sub r3,r4")

abbrev jump_line : Line
jump_line = line (codes "j") (codes "j r3")

abbrev opcode : Tag → ℕ → ℕ → ℕ → ℕ → Opcode
opcode tag i1 i2 j1 j2 = record { tag = tag; i1 = i1; i2 = i2; j1 = j1; j2 = j2 }

-- The differ of the examples matches the first line and sees a swap in what follows.
abbrev scorer_of : List Line → List Opcode → Scorer
scorer_of target ops = record {
  stack_differences = false;
  arch = record { name = ArchName.mips; stack_offset = λ (row : Text). none };
  target_seq = target;
  get_opcodes = λ (a b : List Text). ops;
  objdump = λ (file : Text). other_add_line ∷ jump_line ∷ [];
  sha256 = λ (t : Text). t;
}

abbrev target : List Line
target = add_line ∷ sub_line ∷ jump_line ∷ []

abbrev swapped : List Line
swapped = other_add_line ∷ jump_line ∷ sub_line ∷ []

abbrev swap_ops : List Opcode
swap_ops =
    opcode equal 0 1 0 1 ∷ opcode delete 1 2 1 1 ∷ opcode equal 2 3 1 2 ∷ opcode insert 3 3 2 3 ∷ []

-- a register and a reordered line
swapped_score : score_lines (scorer_of target swap_ops) swapped ≡ some 65
unfolding score_lines
swapped_score = refl

missing_object : score (scorer_of target swap_ops) none ≡ some (penalty_inf, [])
unfolding score
missing_object = refl

abbrev swap_covers : Covers (mnemonics swapped) (mnemonics target) 0 0 swap_ops
swap_covers = (
  (refl, refl),
  (omega arith, omega arith, omega arith, omega arith),
  (refl, refl),
  (
    (refl, refl),
    (omega arith, omega arith, omega arith, omega arith),
    refl,
    (
      (refl, refl),
      (omega arith, omega arith, omega arith, omega arith),
      (refl, refl),
      ((refl, refl), (omega arith, omega arith, omega arith, omega arith), refl, (refl, refl)),
    ),
  ),
)

score_accounts_example :
    (pen : Penalties) × (score_lines (scorer_of target swap_ops) swapped ≡ some (final_score pen))
    × ((tally pen.insertions pen.deletions).num_insertion_penalties
          + (tally pen.insertions pen.deletions).num_reordering_penalties
          + total shared_by swap_ops
        ≡ 3)
    × ((tally pen.insertions pen.deletions).num_deletion_penalties
          + (tally pen.insertions pen.deletions).num_reordering_penalties
          + total shared_by swap_ops
        ≡ 3)
score_accounts_example = score_accounts (scorer_of target swap_ops) swapped swap_covers

abbrev same_ops : List Opcode
same_ops = opcode equal 0 3 0 3 ∷ []

same_score : score_lines (scorer_of target same_ops) target ≡ some 0
unfolding score_lines
same_score = refl

score_zero_sound_example : mnemonics target ≡ mnemonics target
score_zero_sound_example =
    score_zero_sound (scorer_of target same_ops) target
      (
        (refl, refl),
        (omega arith, omega arith, omega arith, omega arith),
        (refl, refl),
        (refl, refl),
      )
      same_score
