-- ===== src/Scorer/Zero.antt =====
-- scorer.py: over opcodes as `difflib` documents them, every line is accounted for, and a score of 0
-- means that the two lists of mnemonics agree.
use decomp_permuter_psyq.Prelude.{
  ℕ, zero, suc, ◌+◌, ◌-◌, ◌≤◌, ◌<◌, ◌≡◌, refl, ap, some, List, [], ◌∷◌, ◌++◌, arith, length,
  length-append, length-map, get_elem?, take, drop,
}
use decomp_permuter_psyq.Text.{Text}
use decomp_permuter_psyq.Scorer.Lines.{Line}
use decomp_permuter_psyq.Scorer.Score.{
  Scorer, Tag, Opcode, Penalties, equal, replace, delete, insert, same_lines, insert_lines,
  delete_lines, apply_tag, apply_opcodes, mnemonics,
}

-- what an opcode says of its ranges
abbrev pub Tagged : Tag → List Text → List Text → Opcode → Type 0
Tagged equal a b op =
    (op.i2 - op.i1 ≡ op.j2 - op.j1)
    × (take (op.i2 - op.i1) (drop op.i1 a) ≡ take (op.j2 - op.j1) (drop op.j1 b))
Tagged delete a b op = op.j1 ≡ op.j2
Tagged insert a b op = op.i1 ≡ op.i2
Tagged replace a b op = Unit

-- The opcodes go through both lists from `i` and `j` to the ends, each from where the one before ended.
abbrev pub Covers : List Text → List Text → ℕ → ℕ → List Opcode → Type 0
Covers a b i j [] = (i ≡ length a) × (j ≡ length b)
Covers a b i j (op ∷ ops) =
    ((op.i1 ≡ i) × (op.j1 ≡ j))
    × ((op.i1 ≤ op.i2) × (op.j1 ≤ op.j2) × (op.i2 ≤ length a) × (op.j2 ≤ length b))
    × Tagged op.tag a b op
    × Covers a b op.i2 op.j2 ops

-- the lines of an opcode that are only in the candidate, only in the target, in both
abbrev pub inserted_by : Tag → Opcode → ℕ
inserted_by equal op = 0
inserted_by insert op = 0
inserted_by delete op = op.i2 - op.i1
inserted_by replace op = op.i2 - op.i1

abbrev pub deleted_by : Tag → Opcode → ℕ
deleted_by equal op = 0
deleted_by delete op = 0
deleted_by insert op = op.j2 - op.j1
deleted_by replace op = op.j2 - op.j1

abbrev pub shared_by : Tag → Opcode → ℕ
shared_by equal op = op.i2 - op.i1
shared_by _ op = 0

abbrev pub total : (Tag → Opcode → ℕ) → List Opcode → ℕ
total f [] = 0
total f (op ∷ ops) = f op.tag op + total f ops

get_elem?-some :
    {A : Type 0} (xs : List A) (i : ℕ) → i < length xs → (x : A) × (get_elem? xs i ≡ some x)
get_elem?-some [] i h = absurd (omega arith)
get_elem?-some (x ∷ xs) zero h = (x, refl)
get_elem?-some (x ∷ xs) (suc i) h = get_elem?-some xs i (omega arith)

module _ (self : Scorer) (cand : List Line) where
  same_lines-run :
      (n i j : ℕ) (pen : Penalties)
      → i + n ≤ length cand
      → j + n ≤ length self.target_seq
      → (pen' : Penalties) × (same_lines self cand n i j pen ≡ some pen')
        × (pen'.insertions ≡ pen.insertions)
        × (pen'.deletions ≡ pen.deletions)
  unfolding same_lines
  same_lines-run zero i j pen h k = (pen, refl, refl, refl)
  same_lines-run (suc n) i j pen h k =
      let (old, e) = get_elem?-some self.target_seq j (omega arith) in
      let (new, f) = get_elem?-some cand i (omega arith) in
      rw (e, f, same_lines) (same_lines-run n (i + 1) (j + 1) _ (omega arith) (omega arith))

  insert_lines-run :
      (n i : ℕ) (pen : Penalties)
      → i + n ≤ length cand
      → (pen' : Penalties) × (insert_lines self cand n i pen ≡ some pen')
        × (length pen'.insertions ≡ n + length pen.insertions)
        × (pen'.deletions ≡ pen.deletions)
  unfolding insert_lines
  insert_lines-run zero i pen h = (pen, refl, omega arith, refl)
  insert_lines-run (suc n) i pen h =
      let (line, e) = get_elem?-some cand i (omega arith) in
      let (pen', run, more, same) =
        insert_lines-run n (i + 1) (record pen { insertions = pen.insertions ++ line.row ∷ [] })
          (omega arith) in
      (
        pen',
        rw (e, insert_lines) run,
        omega (arith, more, length-append pen.insertions (line.row ∷ [])),
        same,
      )

  delete_lines-run :
      (n j : ℕ) (pen : Penalties)
      → j + n ≤ length self.target_seq
      → (pen' : Penalties) × (delete_lines self n j pen ≡ some pen')
        × (length pen'.deletions ≡ n + length pen.deletions)
        × (pen'.insertions ≡ pen.insertions)
  unfolding delete_lines
  delete_lines-run zero j pen h = (pen, refl, omega arith, refl)
  delete_lines-run (suc n) j pen h =
      let (line, e) = get_elem?-some self.target_seq j (omega arith) in
      let (pen', run, more, same) =
        delete_lines-run n (j + 1) (record pen { deletions = pen.deletions ++ line.row ∷ [] })
          (omega arith) in
      (
        pen',
        rw (e, delete_lines) run,
        omega (arith, more, length-append pen.deletions (line.row ∷ [])),
        same,
      )

  apply_tag-run :
      (tag : Tag) (op : Opcode) (pen : Penalties) (a b : List Text)
      → op.i1 ≤ op.i2
      → op.j1 ≤ op.j2
      → op.i2 ≤ length cand
      → op.j2 ≤ length self.target_seq
      → Tagged tag a b op
      → (pen' : Penalties) × (apply_tag self tag cand op pen ≡ some pen')
        × (length pen'.insertions ≡ inserted_by tag op + length pen.insertions)
        × (length pen'.deletions ≡ deleted_by tag op + length pen.deletions)
  unfolding apply_tag
  apply_tag-run equal op pen a b hi hj ha hb t =
      let (pen', run, ins, del) =
        same_lines-run (op.i2 - op.i1) op.i1 op.j1 pen (omega arith) (omega (arith, t.0)) in
      (pen', run, omega (arith, ap length ins), omega (arith, ap length del))
  apply_tag-run delete op pen a b hi hj ha hb t =
      let (pen', run, ins, del) = insert_lines-run (op.i2 - op.i1) op.i1 pen (omega arith) in
      (pen', run, ins, omega (arith, ap length del))
  apply_tag-run insert op pen a b hi hj ha hb t =
      let (pen', run, del, ins) = delete_lines-run (op.j2 - op.j1) op.j1 pen (omega arith) in
      (pen', run, omega (arith, ap length ins), del)
  apply_tag-run replace op pen a b hi hj ha hb t =
      let (mid, run, ins, same) = insert_lines-run (op.i2 - op.i1) op.i1 pen (omega arith) in
      let (pen', run', del, kept) = delete_lines-run (op.j2 - op.j1) op.j1 mid (omega arith) in
      (
        pen',
        rw (run, apply_tag) run',
        omega (arith, ins, ap length kept),
        omega (arith, del, ap length same),
      )

  pub apply_opcodes-run :
      (ops : List Opcode) (i j : ℕ) (pen : Penalties)
      → Covers (mnemonics cand) (mnemonics self.target_seq) i j ops
      → (pen' : Penalties) × (apply_opcodes self cand ops pen ≡ some pen')
        × (length pen'.insertions ≡ total inserted_by ops + length pen.insertions)
        × (length pen'.deletions ≡ total deleted_by ops + length pen.deletions)
  unfolding apply_opcodes
  apply_opcodes-run [] i j pen h = (pen, refl, omega arith, omega arith)
  apply_opcodes-run (op ∷ ops) i j pen (at, (hi, hj, ha, hb), t, rest) =
      let (mid, run, ins, del) =
        apply_tag-run op.tag op pen (mnemonics cand) (mnemonics self.target_seq) hi hj
          (omega (arith, length-map cand (λ (l : Line). l.mnemonic)))
          (omega (arith, length-map self.target_seq (λ (l : Line). l.mnemonic))) t in
      let (pen', run', ins', del') = apply_opcodes-run ops op.i2 op.j2 mid rest in
      (pen', rw (run, apply_opcodes) run', omega (arith, ins, ins'), omega (arith, del, del'))

range_end : (i n l : ℕ) → i ≤ n → i + (n - i) ≡ n
range_end i n l h = omega arith

-- the lines of both lists are those of the opcodes
pub Covers-total :
    (a b : List Text) (ops : List Opcode) (i j : ℕ)
    → Covers a b i j ops
    → (total inserted_by ops + total shared_by ops + i ≡ length a)
      × (total deleted_by ops + total shared_by ops + j ≡ length b)
Covers-total a b [] i j h = (omega (arith, h.0), omega (arith, h.1))
Covers-total a b (op ∷ ops) i j (at, ends, t, rest) =
    let (x, y) = Covers-total a b ops op.i2 op.j2 rest in
    tag_total a b op.tag op (total inserted_by ops) (total deleted_by ops) (total shared_by ops) i j
      at ends t x y
  where
    tag_total :
        (a b : List Text) (tag : Tag) (op : Opcode) (p q r i j : ℕ)
        → (op.i1 ≡ i) × (op.j1 ≡ j)
        → (op.i1 ≤ op.i2) × (op.j1 ≤ op.j2) × (op.i2 ≤ length a) × (op.j2 ≤ length b)
        → Tagged tag a b op
        → p + r + op.i2 ≡ length a
        → q + r + op.j2 ≡ length b
        → (inserted_by tag op + p + (shared_by tag op + r) + i ≡ length a)
          × (deleted_by tag op + q + (shared_by tag op + r) + j ≡ length b)
    tag_total a b equal op p q r i j at ends t x y = (omega arith, omega (arith, t.0))
    tag_total a b delete op p q r i j at ends t x y = (omega arith, omega (arith, t))
    tag_total a b insert op p q r i j at ends t x y = (omega (arith, t), omega arith)
    tag_total a b replace op p q r i j at ends t x y = (omega arith, omega arith)
