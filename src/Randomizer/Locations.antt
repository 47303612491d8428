-- ===== src/Randomizer/Locations.antt =====
-- randomizer.py: where variables are read and written.
use decomp_permuter_psyq.Prelude.{
  ℕ, ◌&&◌, Bool, true, false, Option, none, some, List, [], ◌∷◌, Result, ok, raised, bind,
  if◌then◌else◌, ltb,
}
use decomp_permuter_psyq.Text.{Text, codes}
use decomp_permuter_psyq.Text.Equality.{same_text}
use decomp_permuter_psyq.Tree.Nodes.{
  Kind, unary_op, assignment, decl, struct_ref, id, Attr, word, present, Node, kind, attributes,
  fold, gathered, one_of, steps,
}
use decomp_permuter_psyq.Tree.Index.{Span}

-- the failed assertion that the indices of a variable increase
pub data Unmonotonic : Type 0 where
  unmonotonic : Unmonotonic

-- a variable with the index of a node
abbrev pub Places : Type 0
Places = List (Text × ℕ)

-- `node.name` of an `ID`
abbrev pub id_name : Kind → List Attr → Option Text
id_name id (word name ∷ attrs) = some name
id_name _ _ = none

-- the name of the first child, if it is an `ID`
abbrev pub first_id : List (Node Span) → Option Text
first_id [] = none
first_id (n ∷ ns) = id_name (kind n) (attributes n)

abbrev pub is_there : {A : Type 0} → Option A → Bool
is_there none = false
is_there (some a) = true

-- The visitor of `find_var_reads`. The members of a `Decl` are its name, four lists, and whether it has an
-- `init` and a `bitsize`.
abbrev pub reads_at : Span → Kind → List Attr → List (Node Span) → List Places → Places
reads_at s decl (name ∷ quals ∷ align ∷ storage ∷ funcspec ∷ present ∷ attrs) ns
      (type ∷ init ∷ rs) =
    init
reads_at s decl attrs ns rs = []
reads_at s id (word name ∷ attrs) ns rs = (name, s.start) ∷ []
reads_at s unary_op (word op ∷ attrs) ns rs =
    if same_text op (codes "&") && is_there (first_id ns) then [] else gathered rs
reads_at s struct_ref attrs ns (r ∷ rs) = r
reads_at s assignment attrs ns rs = if is_there (first_id ns) then [] else gathered rs
reads_at s _ attrs ns rs = gathered rs

unfoldable pub find_var_reads : Node Span → Places
unfolding fold
find_var_reads top_node = fold reads_at top_node

abbrev pub add_place : Option Text → ℕ → Places → Places
add_place none start places = places
add_place (some name) start places = (name, start) ∷ places

-- the variable that `p++` and its like change
abbrev pub stepped : Text → Option Text → Option Text
stepped op name = if one_of op steps then name else none

-- The visitor of `compute_write_locations`, with the calls of `add_write`.
abbrev pub writes_at : Span → Kind → List Attr → List (Node Span) → List Places → Places
writes_at s decl (word name ∷ attrs) ns rs = (name, s.start) ∷ gathered rs
writes_at s unary_op (word op ∷ attrs) ns rs =
    add_place (stepped op (first_id ns)) s.start (gathered rs)
writes_at s assignment attrs ns rs = add_place (first_id ns) s.start (gathered rs)
writes_at s _ attrs ns rs = gathered rs

-- a `dict` from names to their indices, in the order in which the names came
abbrev pub Locations : Type 0
Locations = List (Text × List ℕ)

-- `loc > writes[var_name][-1]` for each index, and the list with `loc` behind it
unfoldable pub append_place : List ℕ → ℕ → Result Unmonotonic (List ℕ)
append_place [] loc = ok (loc ∷ [])
append_place (last ∷ []) loc = if ltb last loc then ok (last ∷ loc ∷ []) else raised unmonotonic
append_place (l ∷ m ∷ ls) loc = bind (append_place (m ∷ ls) loc) λ rest. ok (l ∷ rest)

-- `add_write`, and the body of the loop of `compute_read_locations`
unfoldable pub add_location : Locations → Text → ℕ → Result Unmonotonic Locations
unfolding append_place
add_location [] var_name loc = ok ((var_name, loc ∷ []) ∷ [])
add_location ((name, locs) ∷ d) var_name loc =
    let here : Result Unmonotonic Locations =
      bind (append_place locs loc) λ locs'. ok ((name, locs') ∷ d) in
    let there : Result Unmonotonic Locations =
      bind (add_location d var_name loc) λ d'. ok ((name, locs) ∷ d') in
    if same_text name var_name then here else there

unfoldable pub add_locations : Locations → Places → Result Unmonotonic Locations
unfolding add_location
add_locations d [] = ok d
add_locations d ((name, loc) ∷ places) =
    bind (add_location d name loc) λ d'. add_locations d' places

unfoldable pub compute_write_locations : Node Span → Result Unmonotonic Locations
unfolding fold add_locations
compute_write_locations top_node = add_locations [] (fold writes_at top_node)

unfoldable pub compute_read_locations : Node Span → Result Unmonotonic Locations
unfolding find_var_reads add_locations
compute_read_locations top_node = add_locations [] (find_var_reads top_node)

-- `d.get(name, [])`
abbrev pub places_of : Locations → Text → List ℕ
places_of [] name = []
places_of ((n, locs) ∷ d) name = if same_text n name then locs else places_of d name
