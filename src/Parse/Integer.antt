-- ===== src/Parse/Integer.antt =====
-- The built-in `int` on a text of ASCII characters: blanks around it, a sign, digits with single
-- underscores between them.
use decomp_permuter_psyq.Prelude.{
  ℕ, zero, suc, ◌+◌, ◌-◌, ◌*◌, Bool, true, false, ◌&&◌, Option, none, some, [], ◌∷◌, leb, ◌==◌,
  if◌then◌else◌,
}
use decomp_permuter_psyq.Prelude.Int.{ℤ, pos, negsuc}
use decomp_permuter_psyq.Text.{Text, strip}

-- `after_digit`: the character before was a digit, so the text may end or go on with an underscore.
unfoldable pub digits_value : Bool → ℕ → Text → Option ℕ
digits_value after_digit n [] = if after_digit then some n else none
digits_value after_digit n (c ∷ cs) =
    let digit = digits_value true (n * 10 + (c - b'0')) cs in
    let underscore = digits_value false n cs in
    if leb b'0' c && leb c b'9'
    then digit
    else if c == b'_' && after_digit
    then underscore
    else none

abbrev negate : ℕ → ℤ
negate zero = pos 0
negate (suc n) = negsuc n

unfoldable pub signed_value : Text → Option ℤ
unfolding digits_value
signed_value [] = none
signed_value (c ∷ cs) =
    if c == b'-'
    then elim (digits_value false 0 cs) [ none ↦ none | some n ↦ some (negate n) ]
    else if c == b'+'
    then elim (digits_value false 0 cs) [ none ↦ none | some n ↦ some (pos n) ]
    else elim (digits_value false 0 (c ∷ cs)) [ none ↦ none | some n ↦ some (pos n) ]

unfoldable pub parse_int : Text → Option ℤ
unfolding signed_value strip
parse_int s = signed_value (strip s)
