-- ===== src/Randomizer/Region.antt =====
-- randomizer.py: the region in which a function is changed, and the choice of a candidate.
use decomp_permuter_psyq.Prelude.{
  ℕ, zero, suc, ◌+◌, ◌-◌, Bool, true, false, ◌&&◌, Option, none, some, List, [], ◌∷◌, Result, ok,
  raised, bind, if◌then◌else◌, ltb,
}
use decomp_permuter_psyq.Text.{Text, codes}
use decomp_permuter_psyq.Text.Equality.{same_text}
use decomp_permuter_psyq.Tree.Nodes.{Kind, pragma, Attr, word, Node, mark, fold, gathered}
use decomp_permuter_psyq.Tree.Index.{Span}

-- `unbounded` is the region with no indices.
pub data Region : Type 0 where
  unbounded : Region
  between : ℕ → ℕ → Region

abbrev pub contains_node : Region → Node Span → Bool
contains_node unbounded n = true
contains_node (between start end) n = ltb start (mark n).start && ltb (mark n).end end

abbrev pub contains_pre : Region → Node Span → Bool
contains_pre unbounded n = true
contains_pre (between start end) n = ltb start (mark n).start && ltb (mark n).start end

abbrev pub contains_pre_index : Region → ℕ → Bool
contains_pre_index unbounded index = true
contains_pre_index (between start end) index = ltb start index && ltb index end

-- the exception and the assertions of `get_randomization_region`
pub data RegionFailure : Type 0 where
  nested_start end_without_start start_without_end : RegionFailure

-- the pragmas that a visitor comes to, with their indices
abbrev pub pragma_at :
    Span → Kind → List Attr → List (Node Span) → List (List (Text × Span)) → List (Text × Span)
pragma_at s pragma (word string ∷ attrs) ns rs = (string, s) ∷ []
pragma_at s _ attrs ns rs = gathered rs

abbrev pub starts_region : Text → Bool
starts_region string = same_text string (codes "_permuter randomizer start")

abbrev pub ends_region : Text → Bool
ends_region string = same_text string (codes "_permuter randomizer end")

-- `cur_start is not None`
abbrev pub is_open : Option ℕ → Bool
is_open none = false
is_open (some start) = true

-- `visit_Pragma` for one pragma after the other, from `cur_start`, and the assertion at the end
unfoldable pub find_regions : Option ℕ → List (Text × Span) → Result RegionFailure (List Region)
find_regions none [] = ok []
find_regions (some start) [] = raised start_without_end
find_regions none ((string, s) ∷ pragmas) =
    let opened = find_regions (some s.end) pragmas in
    let rest = find_regions none pragmas in
    if starts_region string
    then opened
    else if ends_region string
    then raised end_without_start
    else rest
find_regions (some start) ((string, s) ∷ pragmas) =
    let closed : Result RegionFailure (List Region) =
      bind (find_regions none pragmas) λ ret. ok (between (start + 1) (s.start - 1) ∷ ret) in
    let rest = find_regions (some start) pragmas in
    if starts_region string
    then raised nested_start
    else if ends_region string
    then closed
    else rest

-- `random.choice` of a list that is not empty: the number is the index that it draws.
abbrev pub choice : {A : Type 0} → A → List A → ℕ → A
choice c cs zero = c
choice c [] (suc i) = c
choice c (d ∷ cs) (suc i) = choice d cs i

abbrev pub chosen_region : List Region → ℕ → Region
chosen_region [] pick = unbounded
chosen_region (r ∷ rs) pick = choice r rs pick

unfoldable pub get_randomization_region : Node Span → ℕ → Result RegionFailure Region
unfolding fold find_regions
get_randomization_region top_node pick =
    bind (find_regions none (fold pragma_at top_node)) λ ret. ok (chosen_region ret pick)

-- How a pass ends early: by `ensure`, so that another pass is tried, or by the assertion of `visit_replace`.
pub data PassFailure : Type 0 where
  randomization_failure unknown_node : PassFailure
