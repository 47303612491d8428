-- ===== src/Scorer/Lines.antt =====
-- scorer.py: `diff_sameline` and `field_matches_any_symbol`; objdump.py: `Line`.
use decomp_permuter_psyq.Prelude.{
  ℕ, ◌+◌, ◌-◌, Bool, true, false, not, ◌&&◌, ◌||◌, Option, none, some, List, [], ◌∷◌, ◌++◌, leb,
  ◌==◌, if◌then◌else◌, length,
}
use decomp_permuter_psyq.Prelude.Int.{ℤ, pos_part, neg_part}
use decomp_permuter_psyq.Text.{Text, codes}
use decomp_permuter_psyq.Text.Equality.{same_text}

pub record Line : Type 0 where
  pub row : Text
  pub mnemonic : Text
  pub has_symbol : Bool

pub data ArchName : Type 0 where
  mips ppc arm32 other : ArchName

-- Of `ArchSettings` the scorer reads the name and `re_sprel`: `stack_offset row` is the number
-- `int(m.group(1) or "0", 0)` for `m = re.search(re_sprel, row)`, and `none` where there is no match.
pub record Arch : Type 0 where
  pub name : ArchName
  pub stack_offset : Text → Option ℤ

-- `text.startswith(prefix)`
unfoldable pub starts_with : Text → Text → Bool
starts_with [] s = true
starts_with (p ∷ ps) [] = false
starts_with (p ∷ ps) (c ∷ cs) = p == c && starts_with ps cs

-- `part in text`
unfoldable pub contains : Text → Text → Bool
unfolding starts_with
contains part [] = starts_with part []
contains part (c ∷ cs) = starts_with part (c ∷ cs) || contains part cs

-- `field.rsplit("@", 1)`, if there are two parts
unfoldable pub split_last_at : Text → Option (Text × Text)
split_last_at [] = none
split_last_at (c ∷ cs) = elim (split_last_at cs) [
  | some (before, after) ↦ some (c ∷ before, after)
  | none ↦ if c == b'@' then some ([], cs) else none
]

unfoldable pub all_digits : Text → Bool
all_digits [] = true
all_digits (c ∷ cs) = (leb b'0' c && leb c b'9') && all_digits cs

-- `re.fullmatch(r"^@\d+$", field)`, where `\d` is an ASCII digit
unfoldable pub is_local_symbol : Text → Bool
unfolding all_digits
is_local_symbol (a ∷ d ∷ ds) = a == b'@' && all_digits (d ∷ ds)
is_local_symbol (a ∷ []) = false
is_local_symbol [] = false

-- the field without a relocation suffix
unfoldable pub strip_suffix : Text → Text
unfolding split_last_at same_text
strip_suffix field = elim (split_last_at field) [
  | none ↦ field
  | some (before, after) ↦
      if same_text after (codes "l")
        || same_text after (codes "h")
        || same_text after (codes "ha")
        || same_text after (codes "sda21")
      then before
      else field
]

unfoldable pub field_matches_any_symbol : Text → ArchName → Bool
unfolding contains is_local_symbol strip_suffix
field_matches_any_symbol field ArchName.ppc =
    contains (codes "...") field || is_local_symbol (strip_suffix field)
field_matches_any_symbol field ArchName.mips = contains (codes ".") field
field_matches_any_symbol field ArchName.arm32 = contains (codes ".") field
field_matches_any_symbol field ArchName.other = false

-- `row.split(",")`, with the field that is being read
unfoldable pub split_fields : Text → Text → List Text
split_fields [] field = field ∷ []
split_fields (c ∷ cs) field =
    let next_field = field ∷ split_fields cs [] in
    let same_field = split_fields cs (field ++ c ∷ []) in
    if c == b',' then next_field else same_field

-- `re_paren.split(field)`; `before` is what was read, backwards: no split behind %hi and %lo
unfoldable pub split_parens : Text → Text → Text → List Text
unfolding starts_with
split_parens [] before part = part ∷ []
split_parens (c ∷ cs) before part =
    let next_part = part ∷ split_parens cs (c ∷ before) [] in
    let same_part = split_parens cs (c ∷ before) (part ++ c ∷ []) in
    if c == b'(' && not (starts_with (codes "ih%") before || starts_with (codes "ol%") before)
    then next_part
    else same_part

-- `fields[:-1]`, and `fields[:-1] + re_paren.split(fields[-1])`
unfoldable pub drop_last : List Text → List Text
drop_last [] = []
drop_last (f ∷ []) = []
drop_last (f ∷ g ∷ fs) = f ∷ drop_last (g ∷ fs)

unfoldable pub split_last : List Text → List Text
unfolding split_parens
split_last [] = []
split_last (f ∷ []) = split_parens f [] []
split_last (f ∷ g ∷ fs) = f ∷ split_last (g ∷ fs)

-- the loop over `zip(newfields, oldfields)`
unfoldable pub field_penalties : Bool → ArchName → List Text → List Text → ℕ
unfolding field_matches_any_symbol same_text
field_penalties has_symbol arch [] olds = 0
field_penalties has_symbol arch (nf ∷ news) [] = 0
field_penalties has_symbol arch (nf ∷ news) (of ∷ olds) =
    (if same_text nf of || (field_matches_any_symbol nf arch && has_symbol) then 0 else 1)
    + field_penalties has_symbol arch news olds

-- `abs(a - b)` of two lengths
abbrev pub distance : ℕ → ℕ → ℕ
distance a b = a - b + (b - a)

abbrev pub distance_ℤ : ℤ → ℤ → ℕ
distance_ℤ a b = distance (pos_part a + neg_part b) (pos_part b + neg_part a)

-- The offsets of both lines, if `stack_differences` is set and both have one.
unfoldable pub stack_offsets : Bool → Arch → Text → Text → Option (ℤ × ℤ)
stack_offsets false arch old new = none
stack_offsets true arch old new = elim (arch.stack_offset old) [
  | none ↦ none
  | some o ↦ elim (arch.stack_offset new) [ none ↦ none | some n ↦ some (o, n) ]
]

unfoldable pub compare_fields : Bool → ArchName → List Text → List Text → ℕ
unfolding field_penalties
compare_fields has_symbol arch news olds =
    field_penalties has_symbol arch news olds + distance (length news) (length olds)

-- `diff_sameline`: what it adds to the stack penalties and to the register penalties
unfoldable pub diff_sameline : Bool → Arch → Line → Line → ℕ × ℕ
unfolding stack_offsets compare_fields split_fields drop_last split_last same_text
diff_sameline stack_differences arch old_line new_line =
    let olds = split_fields old_line.row [] in
    let news = split_fields new_line.row [] in
    if same_text old_line.row new_line.row
    then (0, 0)
    else elim (stack_offsets stack_differences arch old_line.row new_line.row) [
      | some (o, n) ↦ (
        distance_ℤ o n,
        compare_fields old_line.has_symbol arch.name (drop_last news) (drop_last olds),
      )
      | none ↦ (0, compare_fields old_line.has_symbol arch.name (split_last news) (split_last olds))
    ]
