-- ===== src/Parse/Macro.antt =====
-- perm/parse.py: `re.search(r"(PERM_.+?)\(", remain)` and the names of PERM_FACTORIES.
use decomp_permuter_psyq.Prelude.{Option, none, some, [], ◌∷◌, ◌++◌, ◌==◌, if◌then◌else◌}
use decomp_permuter_psyq.Text.{Text, codes, newline}
use decomp_permuter_psyq.Text.Equality.{same_text}

-- what follows the prefix
unfoldable pub strip_prefix : Text → Text → Option Text
strip_prefix [] s = some s
strip_prefix (p ∷ ps) [] = none
strip_prefix (p ∷ ps) (c ∷ cs) = if p == c then strip_prefix ps cs else none

-- `.*?` up to the first `(` on the line: what it matched, and what follows the `(`
unfoldable pub lazy_name : Text → Option (Text × Text)
lazy_name [] = none
lazy_name (c ∷ cs) =
    let longer : Option (Text × Text) = elim (lazy_name cs) [
      | none ↦ none
      | some (name, rest) ↦ some (c ∷ name, rest)
    ] in
    if c == b'(' then some ([], cs) else if c == newline then none else longer

-- `.+?`: the first character may be a `(`, and is no newline
unfoldable pub some_name : Text → Option (Text × Text)
unfolding lazy_name
some_name [] = none
some_name (c ∷ cs) =
    if c == newline
    then none
    else elim (lazy_name cs) [ none ↦ none | some (name, rest) ↦ some (c ∷ name, rest) ]

-- a match at the start of the text: group 1, and what follows the match
unfoldable pub match_here : Text → Option (Text × Text)
unfolding strip_prefix some_name
match_here s = elim (strip_prefix (codes "PERM_") s) [
  | none ↦ none
  | some after ↦ elim (some_name after) [
    | none ↦ none
    | some (name, rest) ↦ some (codes "PERM_" ++ name, rest)
  ]
]

-- the leftmost match: what stands before it, group 1, and what follows it
unfoldable pub search_macro : Text → Option (Text × Text × Text)
unfolding match_here
search_macro [] = none
search_macro (c ∷ cs) =
    let later : Option (Text × Text × Text) = elim (search_macro cs) [
      | none ↦ none
      | some (between, name, rest) ↦ some (c ∷ between, name, rest)
    ] in
    elim (match_here (c ∷ cs)) [ none ↦ later | some (name, rest) ↦ some ([], name, rest) ]

pub data Macro : Type 0 where
  perm_general perm_once perm_randomize perm_force_sameline perm_var : Macro
  perm_lineswap_text perm_lineswap perm_int perm_ignore perm_pretend : Macro

-- `PERM_FACTORIES`
unfoldable pub find_macro : Text → Option Macro
unfolding same_text
find_macro name =
    if same_text name (codes "PERM_GENERAL")
    then some perm_general
    else if same_text name (codes "PERM_ONCE")
    then some perm_once
    else if same_text name (codes "PERM_RANDOMIZE")
    then some perm_randomize
    else if same_text name (codes "PERM_FORCE_SAMELINE")
    then some perm_force_sameline
    else if same_text name (codes "PERM_VAR")
    then some perm_var
    else if same_text name (codes "PERM_LINESWAP_TEXT")
    then some perm_lineswap_text
    else if same_text name (codes "PERM_LINESWAP")
    then some perm_lineswap
    else if same_text name (codes "PERM_INT")
    then some perm_int
    else if same_text name (codes "PERM_IGNORE")
    then some perm_ignore
    else if same_text name (codes "PERM_PRETEND")
    then some perm_pretend
    else none
