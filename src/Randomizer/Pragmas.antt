-- ===== src/Randomizer/Pragmas.antt =====
-- randomizer.py: which pragmas `get_randomization_region` takes, and the regions that it finds.
use decomp_permuter_psyq.Prelude.{
  ℕ, ◌+◌, ◌-◌, ◌≡◌, refl, sym, Bool, true, false, Bool-cases, ◌↔◌, none, some, List, [], ◌∷◌, map,
  ok, Ok-cases, ok-injective, if◌then◌else◌, inl, inr,
}
use decomp_permuter_psyq.Text.{Text}
use decomp_permuter_psyq.Tree.Nodes.{Node, fold}
use decomp_permuter_psyq.Tree.Index.{Span}
use decomp_permuter_psyq.Randomizer.Region.{
  Region, between, starts_region, ends_region, find_regions, pragma_at, chosen_region,
  get_randomization_region,
}

-- the pragmas that start (true) or end (false) a region, among all
abbrev pub marks_of : List (Text × Span) → List (Bool × Span)
marks_of [] = []
marks_of ((string, s) ∷ pragmas) =
    if starts_region string
    then (true, s) ∷ marks_of pragmas
    else if ends_region string
    then (false, s) ∷ marks_of pragmas
    else marks_of pragmas

-- a start and an end in turns
abbrev pub in_turns : List (Span × Span) → List (Bool × Span)
in_turns [] = []
in_turns ((a, b) ∷ pairs) = (true, a) ∷ (false, b) ∷ in_turns pairs

-- from behind the end of the one pragma to before the start of the other
abbrev pub region_of : Span × Span → Region
region_of (a, b) = between (a.end + 1) (b.start - 1)

first_turn :
    (s : Span) (ms : List (Bool × Span)) (pairs : List (Span × Span))
    → (true, s) ∷ ms ≡ in_turns pairs
    → (b : Span) × (others : List (Span × Span)) × (pairs ≡ (s, b) ∷ others)
      × (ms ≡ (false, b) ∷ in_turns others)
first_turn s ms [] h = cc h
first_turn s ms ((a, b) ∷ pairs) h = (b, pairs, cc h, cc h)

no_turn :
    (s : Span) (ms : List (Bool × Span)) (pairs : List (Span × Span))
    → (false, s) ∷ ms ≡ in_turns pairs
    → ⊥
no_turn s ms [] h = cc h
no_turn s ms ((a, b) ∷ pairs) h = cc h

abbrev opened : ℕ → Span → List (Span × Span) → List Region
opened e b pairs = between (e + 1) (b.start - 1) ∷ map region_of pairs

mutual
  unfolding find_regions

  found :
      (ps : List (Text × Span)) (pairs : List (Span × Span))
      → marks_of ps ≡ in_turns pairs
      → find_regions none ps ≡ ok (map region_of pairs)
  found [] [] h = refl
  found [] ((a, b) ∷ pairs) h = cc h
  found ((string, s) ∷ ps) pairs h = elim (Bool-cases (starts_region string)) [
    | inl e ↦
        let (b, others, is_first, rest) = first_turn s (marks_of ps) pairs (rw e at h) in
        rw (e, is_first) (found_open ps s.end b others rest)
    | inr e ↦ elim (Bool-cases (ends_region string)) [
      | inl f ↦ absurd (no_turn s (marks_of ps) pairs (rw (e, f) at h))
      | inr f ↦ rw (e, f) (found ps pairs (rw (e, f) at h))
    ]
  ]

  found_open :
      (ps : List (Text × Span)) (e : ℕ) (b : Span) (pairs : List (Span × Span))
      → marks_of ps ≡ (false, b) ∷ in_turns pairs
      → find_regions (some e) ps ≡ ok (opened e b pairs)
  found_open [] e b pairs h = cc h
  found_open ((string, s) ∷ ps) e b pairs h = elim (Bool-cases (starts_region string)) [
    | inl g ↦ cc (rw g at h)
    | inr g ↦ elim (Bool-cases (ends_region string)) [
      | inl f ↦
          let ended : (false, s) ∷ marks_of ps ≡ (false, b) ∷ in_turns pairs = rw (g, f) at h in
          let same : s ≡ b = cc ended in rw (g, f, found ps pairs (cc ended), same)
      | inr f ↦ rw (g, f) (found_open ps e b pairs (rw (g, f) at h))
    ]
  ]

-- what a run that returns says of the pragmas
abbrev Closes : List (Text × Span) → List Region → Type 0
Closes ps ret =
    (pairs : List (Span × Span)) × (marks_of ps ≡ in_turns pairs) × (ret ≡ map region_of pairs)

abbrev Ends : List (Text × Span) → ℕ → List Region → Type 0
Ends ps e ret =
    (b : Span) × (pairs : List (Span × Span)) × (marks_of ps ≡ (false, b) ∷ in_turns pairs)
    × (ret ≡ opened e b pairs)

mutual
  unfolding find_regions

  closes :
      (ps : List (Text × Span)) (ret : List Region) → find_regions none ps ≡ ok ret → Closes ps ret
  closes [] ret h = ([], refl, cc h)
  closes ((string, s) ∷ ps) ret h = elim (Bool-cases (starts_region string)) [
    | inl e ↦
        let (b, pairs, marks, same) = ends ps s.end ret (rw e at h) in
        ((s, b) ∷ pairs, rw (e, marks), same)
    | inr e ↦ elim (Bool-cases (ends_region string)) [
      | inl f ↦ cc (rw (e, f) at h)
      | inr f ↦
          let (pairs, marks, same) = closes ps ret (rw (e, f) at h) in
          (pairs, rw (e, f) marks, same)
    ]
  ]

  ends :
      (ps : List (Text × Span)) (e : ℕ) (ret : List Region)
      → find_regions (some e) ps ≡ ok ret
      → Ends ps e ret
  ends [] e ret h = cc h
  ends ((string, s) ∷ ps) e ret h = elim (Bool-cases (starts_region string)) [
    | inl g ↦ cc (rw g at h)
    | inr g ↦ elim (Bool-cases (ends_region string)) [
      | inl f ↦ elim (Ok-cases (find_regions none ps)) [
        | inl (rest, ran) ↦
            let (pairs, marks, same) = closes ps rest ran in
            let last : ok (between (e + 1) (s.start - 1) ∷ rest) ≡ ok ret = rw (g, f, ran) at h in
            (s, pairs, rw (g, f, marks), cc (last, same))
        | inr (wrong, ran) ↦ cc (rw (g, f, ran) at h)
      ]
      | inr f ↦
          let (b, pairs, marks, same) = ends ps e ret (rw (g, f) at h) in
          (b, pairs, rw (g, f) marks, same)
    ]
  ]

-- `get_randomization_region` returns exactly where the pragmas that start and that end a region come in turns,
-- from a start to an end. It gives one of the regions from behind a start to before the next end, the one that
-- is picked, or the unbounded one if there is none.
pub get_randomization_region-eq-ok_iff :
    (top_node : Node Span) (pick : ℕ) (region : Region)
    → (get_randomization_region top_node pick ≡ ok region) ↔ (
        (pairs : List (Span × Span)) × (marks_of (fold pragma_at top_node) ≡ in_turns pairs)
        × (region ≡ chosen_region (map region_of pairs) pick))
unfolding get_randomization_region
get_randomization_region-eq-ok_iff top_node pick region = (there, back)
  where
    there :
        get_randomization_region top_node pick ≡ ok region
        → (pairs : List (Span × Span)) × (marks_of (fold pragma_at top_node) ≡ in_turns pairs)
          × (region ≡ chosen_region (map region_of pairs) pick)
    there h = elim (Ok-cases (find_regions none (fold pragma_at top_node))) [
      | inl (ret, ran) ↦
          let (pairs, marks, same) = closes (fold pragma_at top_node) ret ran in
          (pairs, marks, sym (ok-injective (rw (ran, same) at h)))
      | inr (wrong, ran) ↦ cc (rw ran at h)
    ]

    back :
        ((pairs : List (Span × Span)) × (marks_of (fold pragma_at top_node) ≡ in_turns pairs)
          × (region ≡ chosen_region (map region_of pairs) pick))
        → get_randomization_region top_node pick ≡ ok region
    back (pairs, marks, same) = rw (found (fold pragma_at top_node) pairs marks, same)
