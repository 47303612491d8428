-- ===== src/Scorer/Score.antt =====
-- scorer.py: `Scorer.score`.
use decomp_permuter_psyq.Prelude.{
  ℕ, zero, suc, ◌+◌, ◌-◌, ◌*◌, Bool, true, false, Option, none, some, List, [], ◌∷◌, ◌++◌, map, min,
  if◌then◌else◌, get_elem?, ◌^◌,
}
use decomp_permuter_psyq.Text.{Text, newline, join}
use decomp_permuter_psyq.Text.Equality.{same_text}
use decomp_permuter_psyq.Scorer.Lines.{Line, Arch, diff_sameline}

-- an entry of `SequenceMatcher.get_opcodes()`
pub data Tag : Type 0 where
  equal replace delete insert : Tag

pub record Opcode : Type 0 where
  pub tag : Tag
  pub i1 : ℕ
  pub i2 : ℕ
  pub j1 : ℕ
  pub j2 : ℕ

-- the variables of `score` that the loop over the opcodes changes
pub record Penalties : Type 0 where
  pub num_stack_penalties : ℕ
  pub num_regalloc_penalties : ℕ
  pub insertions : List Text
  pub deletions : List Text

abbrev pub no_penalties : Penalties
no_penalties = record {
  num_stack_penalties = 0;
  num_regalloc_penalties = 0;
  insertions = [];
  deletions = [];
}

-- how often an item is in a `Counter`
abbrev pub times : Text → List Text → ℕ
times t [] = 0
times t (u ∷ us) = (if same_text t u then 1 else 0) + times t us

abbrev pub listed : Text → List Text → Bool
listed t [] = false
listed t (u ∷ us) = if same_text t u then true else listed t us

-- the keys of a `Counter`: each item once
abbrev pub distinct : List Text → List Text
distinct [] = []
distinct (t ∷ ts) = let rest = distinct ts in if listed t ts then rest else t ∷ rest

pub record Totals : Type 0 where
  pub num_insertion_penalties : ℕ
  pub num_deletion_penalties : ℕ
  pub num_reordering_penalties : ℕ

-- the loop over `insertions_co + deletions_co`
unfoldable pub tally_items : List Text → List Text → List Text → Totals
tally_items [] insertions deletions = record {
  num_insertion_penalties = 0;
  num_deletion_penalties = 0;
  num_reordering_penalties = 0;
}
tally_items (item ∷ items) insertions deletions =
    let rest = tally_items items insertions deletions in
    let ins = times item insertions in
    let dels = times item deletions in
    let common = min ins dels in
    record {
      num_insertion_penalties = ins - common + rest.num_insertion_penalties;
      num_deletion_penalties = dels - common + rest.num_deletion_penalties;
      num_reordering_penalties = common + rest.num_reordering_penalties;
    }

unfoldable pub tally : List Text → List Text → Totals
unfolding tally_items
tally insertions deletions = tally_items (distinct (insertions ++ deletions)) insertions deletions

abbrev pub penalty_inf : ℕ
penalty_inf = 10 ^ 9

abbrev pub penalty_stackdiff : ℕ
penalty_stackdiff = 1

abbrev pub penalty_regalloc : ℕ
penalty_regalloc = 5

abbrev pub penalty_reordering : ℕ
penalty_reordering = 60

abbrev pub penalty_insertion : ℕ
penalty_insertion = 100

abbrev pub penalty_deletion : ℕ
penalty_deletion = 100

unfoldable pub final_score : Penalties → ℕ
unfolding tally
final_score pen =
    let totals = tally pen.insertions pen.deletions in
    pen.num_stack_penalties * penalty_stackdiff
    + pen.num_regalloc_penalties * penalty_regalloc
    + totals.num_reordering_penalties * penalty_reordering
    + totals.num_insertion_penalties * penalty_insertion
    + totals.num_deletion_penalties * penalty_deletion

abbrev pub mnemonics : List Line → List Text
mnemonics ls = map (λ (l : Line). l.mnemonic) ls

abbrev pub rows : List Line → List Text
rows ls = map (λ (l : Line). l.row) ls

-- `self` of the methods. `get_opcodes cand target` is what `difflib` gives for the two lists of
-- mnemonics, `objdump` the listing of an object file, `sha256` the digest in hexadecimal.
pub record Scorer : Type 0 where
  pub stack_differences : Bool
  pub arch : Arch
  pub target_seq : List Line
  pub get_opcodes : List Text → List Text → List Opcode
  pub objdump : Text → List Line
  pub sha256 : Text → Text

-- In what follows `none` is an `IndexError`.
-- the loop of the tag `equal`, with the rounds that are left
unfoldable pub same_lines : Scorer → List Line → ℕ → ℕ → ℕ → Penalties → Option Penalties
unfolding diff_sameline
same_lines self cand zero i j pen = some pen
same_lines self cand (suc n) i j pen = elim (get_elem? self.target_seq j) [
  | none ↦ none
  | some old_line ↦ elim (get_elem? cand i) [
    | none ↦ none
    | some new_line ↦
        let (stack, regalloc) = diff_sameline self.stack_differences self.arch old_line new_line in
        same_lines self cand n (i + 1) (j + 1) (record pen {
          num_stack_penalties = pen.num_stack_penalties + stack;
          num_regalloc_penalties = pen.num_regalloc_penalties + regalloc;
        })
  ]
]

-- `diff_insert` and `diff_delete` in their loops
unfoldable pub insert_lines : Scorer → List Line → ℕ → ℕ → Penalties → Option Penalties
insert_lines self cand zero i pen = some pen
insert_lines self cand (suc n) i pen = elim (get_elem? cand i) [
  | none ↦ none
  | some line ↦
      insert_lines self cand n (i + 1) (record pen { insertions = pen.insertions ++ line.row ∷ [] })
]

unfoldable pub delete_lines : Scorer → ℕ → ℕ → Penalties → Option Penalties
delete_lines self zero j pen = some pen
delete_lines self (suc n) j pen = elim (get_elem? self.target_seq j) [
  | none ↦ none
  | some line ↦
      delete_lines self n (j + 1) (record pen { deletions = pen.deletions ++ line.row ∷ [] })
]

unfoldable pub apply_tag : Scorer → Tag → List Line → Opcode → Penalties → Option Penalties
unfolding same_lines insert_lines delete_lines
apply_tag self equal cand op pen = same_lines self cand (op.i2 - op.i1) op.i1 op.j1 pen
apply_tag self delete cand op pen = insert_lines self cand (op.i2 - op.i1) op.i1 pen
apply_tag self insert cand op pen = delete_lines self (op.j2 - op.j1) op.j1 pen
apply_tag self replace cand op pen = elim (insert_lines self cand (op.i2 - op.i1) op.i1 pen) [
  | none ↦ none
  | some pen' ↦ delete_lines self (op.j2 - op.j1) op.j1 pen'
]

unfoldable pub apply_opcodes : Scorer → List Line → List Opcode → Penalties → Option Penalties
unfolding apply_tag
apply_opcodes self cand [] pen = some pen
apply_opcodes self cand (op ∷ ops) pen = elim (apply_tag self op.tag cand op pen) [
  | none ↦ none
  | some pen' ↦ apply_opcodes self cand ops pen'
]

unfoldable pub score_lines : Scorer → List Line → Option ℕ
unfolding apply_opcodes final_score
score_lines self cand =
    elim (apply_opcodes self cand (self.get_opcodes (mnemonics cand) (mnemonics self.target_seq))
      no_penalties) [ none ↦ none | some pen ↦ some (final_score pen) ]

-- `Scorer.score`: no object file, or an empty name, gives the infinite penalty.
unfoldable pub score : Scorer → Option Text → Option (ℕ × Text)
unfolding score_lines join
score self none = some (penalty_inf, [])
score self (some []) = some (penalty_inf, [])
score self (some (c ∷ cs)) =
    let cand_seq = self.objdump (c ∷ cs) in
    elim (score_lines self cand_seq) [
      | none ↦ none
      | some n ↦ some (n, self.sha256 (join (newline ∷ []) (rows cand_seq)))
    ]
