-- ===== src/Parse/Nesting.antt =====
-- perm/parse.py: what the scanners of parentheses read, said without their loops.
use decomp_permuter_psyq.Prelude.{
  ℕ, ◌+◌, ◌-◌, ◌≡◌, ◌↔◌, ◌≢◌, subst, refl, sym, ap, ◌∙◌, Bool, true, false, ◌&&◌, Option, none,
  some, List, [], ◌∷◌, ◌++◌, append-nil, append_assoc, ok, ◌==◌, arith, if◌then◌else◌, Bool-cases,
  inl, inr,
}
use decomp_permuter_psyq.Text.{Text, join}
use decomp_permuter_psyq.Parse.Split.{split_loop, split_by_comma, consume_loop, consume_arg_parens}

-- The depth of parentheses after a text, from the depth before it; `none` if it closes one that is not
-- open, or, where `commas` holds, has a comma outside parentheses.
pub depth : Bool → Text → ℕ → Option ℕ
depth commas [] level = some level
depth commas (c ∷ cs) level =
    let deeper = depth commas cs (level + 1) in
    let back = depth commas cs (level - 1) in
    let same = depth commas cs level in
    if commas && (c == b',' && level == 0)
    then none
    else if c == b'('
    then deeper
    else if c == b')'
    then if level == 0 then none else back
    else same

-- closes what it opens, and no more
abbrev pub IsBalanced : Text → Type 0
IsBalanced t = depth false t 0 ≡ some 0

-- and has no comma outside parentheses
abbrev pub IsArg : Text → Type 0
IsArg t = depth true t 0 ≡ some 0

abbrev pub AllArgs : List Text → Type 0
AllArgs [] = Unit
AllArgs (t ∷ ts) = IsArg t × AllArgs ts

depth-append :
    (b : Bool) (s t : Text) (level : ℕ) {m : ℕ}
    → depth b s level ≡ some m
    → depth b (s ++ t) level ≡ depth b t m
unfolding depth
depth-append b [] t level h = ground arith
depth-append b (c ∷ cs) t level {m} h = ground (
  arith,
  depth-append b cs t (level + 1) {m = m},
  depth-append b cs t (level - 1) {m = m},
  depth-append b cs t level {m = m},
)

split_loop-last :
    (t : Text) (level : ℕ) (current : Text) (args : List Text)
    → depth true t level ≡ some 0
    → split_loop t level current args ≡ ok (args ++ (current ++ t) ∷ [])
unfolding depth split_loop
split_loop-last [] level current args h = rw append-nil (ground arith)
split_loop-last (c ∷ cs) level current args h = ground (
  arith,
  append_assoc current (c ∷ []) cs,
  split_loop-last cs (level + 1) (current ++ c ∷ []) args,
  split_loop-last cs (level - 1) (current ++ c ∷ []) args,
  split_loop-last cs level (current ++ c ∷ []) args,
)

split_loop-comma :
    (t rest : Text) (level : ℕ) (current : Text) (args : List Text)
    → depth true t level ≡ some 0
    → split_loop (t ++ b',' ∷ rest) level current args
      ≡ split_loop rest 0 [] (args ++ (current ++ t) ∷ [])
unfolding depth split_loop
split_loop-comma [] rest level current args h = rw append-nil (ground arith)
split_loop-comma (c ∷ cs) rest level current args h = ground (
  arith,
  append_assoc current (c ∷ []) cs,
  split_loop-comma cs rest (level + 1) (current ++ c ∷ []) args,
  split_loop-comma cs rest (level - 1) (current ++ c ∷ []) args,
  split_loop-comma cs rest level (current ++ c ∷ []) args,
)

split_loop-join :
    (t : Text) (ts args : List Text)
    → AllArgs (t ∷ ts)
    → split_loop (join (b',' ∷ []) (t ∷ ts)) 0 [] args ≡ ok (args ++ t ∷ ts)
unfolding join
split_loop-join t [] args h = split_loop-last t 0 [] args h.0
split_loop-join t (u ∷ us) args h =
    split_loop-comma t (join (b',' ∷ []) (u ∷ us)) 0 [] args h.0
    ∙ split_loop-join u us (args ++ t ∷ []) h.1
    ∙ ap ok (append_assoc args (t ∷ []) (u ∷ us))

-- The pieces that a successful run of the loop has found, the first behind what was read before.
record Pieces (current s : Text) (args result : List Text) : Type 0 where
  first : Text
  others : List Text
  found : result ≡ args ++ first ∷ others
  joined : join (b',' ∷ []) (first ∷ others) ≡ current ++ s
  plain : AllArgs (first ∷ others)

depth-snoc :
    (b : Bool) (s : Text) (c level : ℕ) {m : ℕ}
    → depth b s level ≡ some m
    → depth b (s ++ c ∷ []) level ≡ depth b (c ∷ []) m
depth-snoc b s c level h = depth-append b s (c ∷ []) level h

shift :
    (current : Text) (c : ℕ) (s : Text) (args result : List Text)
    → Pieces (current ++ c ∷ []) s args result
    → Pieces current (c ∷ s) args result
shift current c s args result p = record {
  first = p.first;
  others = p.others;
  found = p.found;
  joined = p.joined ∙ append_assoc current (c ∷ []) s;
  plain = p.plain;
}

next_piece :
    (current s : Text) (args result : List Text)
    → IsArg current
    → Pieces [] s (args ++ current ∷ []) result
    → Pieces current (b',' ∷ s) args result
unfolding join
next_piece current s args result h p = record {
  first = current;
  others = p.first ∷ p.others;
  found = p.found ∙ append_assoc args (current ∷ []) (p.first ∷ p.others);
  joined = ap (λ (t : Text). current ++ b',' ∷ t) p.joined;
  plain = (h, p.plain);
}

comma_here : (c level : ℕ) → (c == b',' && level == 0) ≡ true → (c ≡ b',') × (level ≡ 0)
comma_here c level h = ground arith

split_loop-Pieces :
    (s : Text) (level : ℕ) (current : Text) (args : List Text) {result : List Text}
    → depth true current 0 ≡ some level
    → split_loop s level current args ≡ ok result
    → Pieces current s args result
unfolding split_loop depth join
split_loop-Pieces [] level current args h e = record {
  first = current;
  others = [];
  found = ground arith;
  joined = sym (append-nil current);
  plain = (ground arith, tt);
}
split_loop-Pieces (c ∷ cs) level current args {result} h e =
    elim (Bool-cases (c == b',' && level == 0)) [
      | inl comma ↦
          let (is_comma, outside) = comma_here c level comma in
          rw is_comma (
            next_piece current cs args result (rw outside at h) (
              split_loop-Pieces cs level [] (args ++ current ∷ []) (ap some (sym outside))
                (rw comma at e)))
      | inr other ↦
          let here = depth-snoc true current c 0 h in
          elim (Bool-cases (c == b'(')) [
            | inl opens ↦ shift current c cs args result (
                split_loop-Pieces cs (level + 1) (current ++ c ∷ []) args (here ∙ ground arith)
                  (rw (other, opens) at e))
            | inr not_open ↦ elim (Bool-cases (c == b')')) [
              | inl closes ↦ elim (Bool-cases (level == 0)) [
                | inl bad ↦ cc (rw (other, not_open, closes, bad) at e)
                | inr inside ↦ shift current c cs args result (
                    split_loop-Pieces cs (level - 1) (current ++ c ∷ []) args (here ∙ ground arith)
                      (rw (other, not_open, closes, inside) at e))
              ]
              | inr plain ↦ shift current c cs args result (
                  split_loop-Pieces cs level (current ++ c ∷ []) args (here ∙ ground arith)
                    (rw (other, not_open, plain) at e))
            ]
          ]
    ]

split_by_comma_complete :
    (s : Text) (result : List Text)
    → ((result ≢ []) × (join (b',' ∷ []) result ≡ s) × AllArgs result)
    → split_by_comma s ≡ ok result
unfolding split_by_comma
split_by_comma_complete s [] (n, e, h) = absurd (n refl)
split_by_comma_complete s (t ∷ ts) (n, e, h) = rw (← e) (split_loop-join t ts [] h)

-- `_split_by_comma` returns a list exactly when it is not empty, each piece closes the parentheses
-- that it opens and has no comma outside them, and the pieces with commas between them are the text.
pub split_by_comma-eq-ok_iff :
    (s : Text) (result : List Text)
    → (split_by_comma s ≡ ok result)
      ↔ ((result ≢ []) × (join (b',' ∷ []) result ≡ s) × AllArgs result)
unfolding split_by_comma depth
split_by_comma-eq-ok_iff s result = (
  λ e.
      let p = split_loop-Pieces s 0 [] [] {result = result} refl e in
      subst (λ l. (l ≢ []) × (join (b',' ∷ []) l ≡ s) × AllArgs l) (sym p.found)
        ((λ n. cc n), p.joined, p.plain),
  split_by_comma_complete s result,
)

consume_loop-close :
    (t rest : Text) (level : ℕ) (before : Text)
    → depth false t level ≡ some 0
    → consume_loop (t ++ b')' ∷ rest) level before ≡ ok (before ++ t, rest)
unfolding depth consume_loop
consume_loop-close [] rest level before h = rw append-nil (ground arith)
consume_loop-close (c ∷ cs) rest level before h = ground (
  arith,
  append_assoc before (c ∷ []) cs,
  consume_loop-close cs rest (level + 1) (before ++ c ∷ []),
  consume_loop-close cs rest (level - 1) (before ++ c ∷ []),
  consume_loop-close cs rest level (before ++ c ∷ []),
)

consume_loop_sound :
    (s : Text) (level : ℕ) (before args rest : Text)
    → consume_loop s level before ≡ ok (args, rest)
    → (t : Text) × (args ≡ before ++ t) × (s ≡ t ++ b')' ∷ rest) × (depth false t level ≡ some 0)
unfolding depth consume_loop
consume_loop_sound [] level before args rest e = cc e
consume_loop_sound (c ∷ cs) level before args rest e = elim (Bool-cases (c == b'(')) [
  | inl opens ↦
      let (t, a, b, d) =
        consume_loop_sound cs (level + 1) (before ++ c ∷ []) args rest (rw opens at e) in
      (c ∷ t, a ∙ append_assoc before (c ∷ []) t, ap (λ (r : Text). c ∷ r) b, ground arith)
  | inr not_open ↦ elim (Bool-cases (c == b')')) [
    | inl closes ↦ elim (Bool-cases (level == 0)) [
      | inl last ↦ ([], rw append-nil (ground arith), ground arith, ground arith)
      | inr inside ↦
          let (t, a, b, d) =
            consume_loop_sound cs (level - 1) (before ++ c ∷ []) args rest
              (rw (not_open, closes, inside) at e) in
          (c ∷ t, a ∙ append_assoc before (c ∷ []) t, ap (λ (r : Text). c ∷ r) b, ground arith)
    ]
    | inr plain ↦
        let (t, a, b, d) =
          consume_loop_sound cs level (before ++ c ∷ []) args rest (rw (not_open, plain) at e) in
        (c ∷ t, a ∙ append_assoc before (c ∷ []) t, ap (λ (r : Text). c ∷ r) b, ground arith)
  ]
]

-- `_consume_arg_parens` returns two texts exactly when the first closes the parentheses that it opens
-- and the text is the first, a `)` and the second.
pub consume_arg_parens-eq-ok_iff :
    (s args rest : Text)
    → (consume_arg_parens s ≡ ok (args, rest)) ↔ ((s ≡ args ++ b')' ∷ rest) × IsBalanced args)
unfolding consume_arg_parens
consume_arg_parens-eq-ok_iff s args rest = (
  λ e. let (t, a, b, d) = consume_loop_sound s 0 [] args rest e in (rw a b, rw a d),
  λ (e, h). rw e (consume_loop-close args rest 0 [] h),
)
