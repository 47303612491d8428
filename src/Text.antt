-- ===== src/Text.antt =====
-- Python's `str` as the list of its code points, with the methods and built-in conversions that the
-- permuter's own code calls: `==`, `strip`, `join`, `replace` at one pattern, `str` of an `int`.
pub mod Base64
pub mod Equality
use Prim.Native.Char.{code}
use Prim.Native.String.{String}
use decomp_permuter_psyq.Prelude.{
  ℕ, zero, suc, ◌+◌, ◌/◌, ◌%◌, Bool, true, false, ◌&&◌, ◌||◌, List, [], ◌∷◌, ◌++◌, ◌==◌, ltb, leb,
  if◌then◌else◌,
}
use decomp_permuter_psyq.Prelude.Int.{ℤ, pos, negsuc}

abbrev pub Text : Type 0
Text = List ℕ

abbrev pub codes : String → Text
codes String.[] = []
codes (String.◌∷◌ c s) = code c ∷ codes s

abbrev pub newline : ℕ
newline = 10

-- the characters that `str.strip` removes
unfoldable pub is_space : ℕ → Bool
is_space c =
    (leb 9 c && leb c 13)
    || (leb 28 c && leb c 32)
    || c == 0x85
    || c == 0xA0
    || c == 0x1680
    || (leb 0x2000 c && leb c 0x200A)
    || c == 0x2028
    || c == 0x2029
    || c == 0x202F
    || c == 0x205F
    || c == 0x3000

-- `s.lstrip()`
unfoldable pub strip_left : Text → Text
unfolding is_space
strip_left [] = []
strip_left (c ∷ cs) = if is_space c then strip_left cs else c ∷ cs

-- `s.rstrip()`
unfoldable pub strip_right : Text → Text
unfolding is_space
strip_right [] = []
strip_right (c ∷ cs) = drop_blank c (strip_right cs)
  where
    drop_blank : ℕ → Text → Text
    drop_blank c [] = if is_space c then [] else c ∷ []
    drop_blank c (d ∷ ds) = c ∷ d ∷ ds

unfoldable pub strip : Text → Text
unfolding strip_left strip_right
strip s = strip_right (strip_left s)

-- `sep.join(parts)`
unfoldable pub join : Text → List Text → Text
join sep [] = []
join sep (t ∷ []) = t
join sep (t ∷ u ∷ ts) = t ++ (sep ++ join sep (u ∷ ts))

unfoldable pub concat : List Text → Text
concat [] = []
concat (t ∷ ts) = t ++ concat ts

-- `text.replace("(,)", ",")`
unfoldable pub unescape_commas : Text → Text
unescape_commas (a ∷ b ∷ c ∷ rest) =
    let replaced = b',' ∷ unescape_commas rest in
    let kept = a ∷ unescape_commas (b ∷ c ∷ rest) in
    if a == b'(' && b == b',' && c == b')' then replaced else kept
unescape_commas (a ∷ b ∷ []) = a ∷ b ∷ []
unescape_commas (a ∷ []) = a ∷ []
unescape_commas [] = []

-- The decimal digits of `n` in front of `acc`; one unit of fuel for each digit.
unfoldable pub decimal : ℕ → ℕ → Text → Text
decimal zero n acc = acc
decimal (suc f) n acc =
    let rest = decimal f (n / 10) ((48 + n % 10) ∷ acc) in if ltb n 10 then (48 + n) ∷ acc else rest

-- `str(n)`
unfoldable pub show_ℕ : ℕ → Text
unfolding decimal
show_ℕ n = decimal (suc n) n []

unfoldable pub show_ℤ : ℤ → Text
unfolding show_ℕ
show_ℤ (pos n) = show_ℕ n
show_ℤ (negsuc n) = b'-' ∷ show_ℕ (suc n)
