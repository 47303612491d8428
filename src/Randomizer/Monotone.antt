-- ===== src/Randomizer/Monotone.antt =====
-- randomizer.py: the assertion that the indices of a variable increase never fails.
use decomp_permuter_psyq.Prelude.{
  ℕ, suc, ◌≤◌, ◌<◌, ◌≡◌, refl, sym, true, false, Bool-cases, List, [], ◌∷◌, ◌++◌, append-nil,
  append_assoc, Result, ok, if◌then◌else◌, inl, inr, arith,
}
use decomp_permuter_psyq.Text.{Text}
use decomp_permuter_psyq.Text.Equality.{same_text, same_text→eq}
use decomp_permuter_psyq.Tree.Nodes.{Node, mark, fold}
use decomp_permuter_psyq.Tree.Index.{compute_node_indices}
use decomp_permuter_psyq.Tree.Nesting.{compute_node_indices-Nested}
use decomp_permuter_psyq.Randomizer.Locations.{
  Unmonotonic, Places, Locations, append_place, add_location, add_locations,
  compute_write_locations, compute_read_locations, find_var_reads, places_of, reads_at, writes_at,
}
use decomp_permuter_psyq.Randomizer.Chains.{Chain, fold-Chain, reads_at-Ordered, writes_at-Ordered}

-- the indices that a list of places has for a name
abbrev pub indices_of : Places → Text → List ℕ
indices_of [] name = []
indices_of ((n, loc) ∷ places) name =
    if same_text n name then loc ∷ indices_of places name else indices_of places name

abbrev pub AllBelow : ℕ → List ℕ → Type 0
AllBelow high [] = Unit {0}
AllBelow high (l ∷ ls) = (l < high) × AllBelow high ls

abbrev pub Below : ℕ → Locations → Type 0
Below high [] = Unit {0}
Below high ((name, locs) ∷ d) = AllBelow high locs × Below high d

AllBelow-grow : (low high : ℕ) (ls : List ℕ) → low ≤ high → AllBelow low ls → AllBelow high ls
AllBelow-grow low high [] h b = tt
AllBelow-grow low high (l ∷ ls) h (a, b) = (omega arith, AllBelow-grow low high ls h b)

Below-grow : (low high : ℕ) (d : Locations) → low ≤ high → Below low d → Below high d
Below-grow low high [] h b = tt
Below-grow low high ((name, locs) ∷ d) h (a, b) =
    (AllBelow-grow low high locs h a, Below-grow low high d h b)

AllBelow-append : (loc : ℕ) (ls : List ℕ) → AllBelow loc ls → AllBelow (suc loc) (ls ++ loc ∷ [])
AllBelow-append loc [] b = (omega arith, tt)
AllBelow-append loc (l ∷ ls) (a, b) = (omega arith, AllBelow-append loc ls b)

append_place_lem :
    (ls : List ℕ) (loc : ℕ) → AllBelow loc ls → append_place ls loc ≡ ok (ls ++ loc ∷ [])
unfolding append_place
append_place_lem [] loc b = refl
append_place_lem (l ∷ []) loc (a, b) = ground arith
append_place_lem (l ∷ m ∷ ls) loc (a, b) = rw (append_place_lem (m ∷ ls) loc b)

found_here :
    (name x : Text) (locs : List ℕ) (loc : ℕ) (others : List ℕ)
    → ◌≡◌ {A = List ℕ}
        (if same_text name x then locs ++ loc ∷ [] else others)
        ((if same_text name x then locs else others) ++ indices_of ((name, loc) ∷ []) x)
found_here name x locs loc others = elim (Bool-cases (same_text name x)) [
  | inl e ↦ rw e
  | inr e ↦ rw e (sym (append-nil others))
]

apart :
    (n name x : Text) → same_text n name ≡ false → same_text n x ≡ true → same_text name x ≡ false
apart n name x other e = elim (Bool-cases (same_text name x)) [
  | inl f ↦ cc (other, same_text→eq name x f)
  | inr f ↦ f
]

found_there :
    (n name x : Text) (locs before after : List ℕ) (loc : ℕ)
    → same_text n name ≡ false
    → after ≡ before ++ indices_of ((name, loc) ∷ []) x
    → ◌≡◌ {A = List ℕ}
        (if same_text n x then locs else after)
        ((if same_text n x then locs else before) ++ indices_of ((name, loc) ∷ []) x)
found_there n name x locs before after loc other h = elim (Bool-cases (same_text n x)) [
  | inl e ↦ rw (e, apart n name x other e) (sym (append-nil locs))
  | inr e ↦ rw e h
]

-- What `add_location` does when the index is new.
abbrev Added : Locations → Text → ℕ → Type 0
Added d name loc =
    (d' : Locations) × (add_location d name loc ≡ ok d')
    × Below (suc loc) d'
    × ((x : Text) → places_of d' x ≡ places_of d x ++ indices_of ((name, loc) ∷ []) x)

add_location_lem : (d : Locations) (name : Text) (loc : ℕ) → Below loc d → Added d name loc
unfolding add_location
add_location_lem [] name loc b = ((name, loc ∷ []) ∷ [], refl, ((omega arith, tt), tt), λ x. refl)
add_location_lem ((n, locs) ∷ d) name loc (a, b) = elim (Bool-cases (same_text n name)) [
  | inl same ↦ (
    (n, locs ++ loc ∷ []) ∷ d,
    rw (same, append_place_lem locs loc a),
    (AllBelow-append loc locs a, Below-grow loc (suc loc) d (omega arith) b),
    λ x. rw (same_text→eq n name same) (found_here name x locs loc (places_of d x)),
  )
  | inr other ↦
      let (d', e, below, found) = add_location_lem d name loc b in
      (
        (n, locs) ∷ d',
        rw (other, e),
        (AllBelow-grow loc (suc loc) locs (omega arith) a, below),
        λ x. found_there n name x locs (places_of d x) (places_of d' x) loc other (found x),
      )
]

step_indices :
    (name x : Text) (loc : ℕ) (ps : Places)
    → indices_of ((name, loc) ∷ ps) x ≡ indices_of ((name, loc) ∷ []) x ++ indices_of ps x
step_indices name x loc ps = elim (Bool-cases (same_text name x)) [ inl e ↦ rw e | inr e ↦ rw e ]

-- Indices that increase are all added, each behind those of its name.
add_locations_lem :
    (d : Locations) (ps : Places) (low high : ℕ)
    → Below low d
    → Chain low high ps
    → (d' : Locations) × (add_locations d ps ≡ ok d')
      × ((x : Text) → places_of d' x ≡ places_of d x ++ indices_of ps x)
unfolding add_locations
add_locations_lem d [] low high b c = (d, refl, λ x. sym (append-nil (places_of d x)))
add_locations_lem d ((name, loc) ∷ ps) low high b (l, c) =
    let (d', e, b', found) = add_location_lem d name loc (Below-grow low loc d l b) in
    let (d'', e', found') = add_locations_lem d' ps (suc loc) high b' c in
    (
      d'',
      rw e e',
      λ x.
          rw (step_indices name x loc ps, found' x, found x)
            (append_assoc (places_of d x) (indices_of ((name, loc) ∷ []) x) (indices_of ps x)),
    )

-- a list of indices that increases
abbrev pub Increasing : ℕ → List ℕ → Type 0
Increasing low [] = Unit {0}
Increasing low (l ∷ ls) = (low ≤ l) × Increasing (suc l) ls

Increasing-weaken :
    (low low' : ℕ) (ls : List ℕ) → low' ≤ low → Increasing low ls → Increasing low' ls
Increasing-weaken low low' [] h i = tt
Increasing-weaken low low' (l ∷ ls) h (a, i) = (omega arith, i)

indices_of-Increasing :
    (ps : Places) (low high : ℕ) (x : Text) → Chain low high ps → Increasing low (indices_of ps x)
indices_of-Increasing [] low high x c = tt
indices_of-Increasing ((name, loc) ∷ ps) low high x (l, c) =
    let rest = indices_of-Increasing ps (suc loc) high x c in
    elim (Bool-cases (same_text name x)) [
      | inl e ↦ rw e (l, rest)
      | inr e ↦ rw e (Increasing-weaken (suc loc) low (indices_of ps x) (omega arith) rest)
    ]

-- a `dict` of the places, from each name to its indices
abbrev pub Lists : Result Unmonotonic Locations → Places → Type 0
Lists r ps =
    (d : Locations) × (r ≡ ok d)
    × ((x : Text) → (places_of d x ≡ indices_of ps x) × Increasing 1 (places_of d x))

Chain-Lists : (ps : Places) (high : ℕ) → Chain 1 high ps → Lists (add_locations [] ps) ps
Chain-Lists ps high c =
    let (d, e, found) = add_locations_lem [] ps 1 high tt c in
    (d, e, λ x. (found x, rw (found x) (indices_of-Increasing ps 1 high x c)))

-- For the indices of `compute_node_indices` the assertion of `compute_write_locations` never fails: for
-- each name the result has the indices of its writes, all of them in the order of the visit, and they increase.
pub compute_write_locations_total :
    {A : Type 0} (top_node : Node A)
    → let indexed = compute_node_indices top_node in
      Lists (compute_write_locations indexed) (fold writes_at indexed)
unfolding compute_write_locations
compute_write_locations_total top_node =
    let indexed = compute_node_indices top_node in
    Chain-Lists (fold writes_at indexed) (mark indexed).end
      (fold-Chain writes_at writes_at-Ordered indexed 1 _ (compute_node_indices-Nested top_node))

-- So neither does that of `compute_read_locations`: for each name the result has the indices of the
-- reads that `find_var_reads` finds, all of them in its order, and they increase.
pub compute_read_locations_total :
    {A : Type 0} (top_node : Node A)
    → let indexed = compute_node_indices top_node in
      Lists (compute_read_locations indexed) (find_var_reads indexed)
unfolding compute_read_locations
compute_read_locations_total top_node =
    let indexed = compute_node_indices top_node in
    Chain-Lists (find_var_reads indexed) (mark indexed).end
      (fold-Chain reads_at reads_at-Ordered indexed 1 _ (compute_node_indices-Nested top_node))
