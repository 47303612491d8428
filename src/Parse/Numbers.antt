-- ===== src/Parse/Numbers.antt =====
-- The built-in `int` reads back what `str` writes of an integer.
use decomp_permuter_psyq.Prelude.{
  ℕ, zero, suc, ◌+◌, ◌-◌, ◌*◌, ◌/◌, ◌%◌, ◌≤◌, ◌<◌, ◌≡◌, refl, ap, ◌∙◌, Bool, true, false, some, [],
  ◌∷◌, arith, leb, ltb, ◌==◌, ◌&&◌, ◌⊎◌, ◌≢◌, inl, inr,
}
use decomp_permuter_psyq.Prelude.Int.{ℤ, pos, negsuc}
use decomp_permuter_psyq.Text.{
  Text, is_space, strip_left, strip_right, strip, decimal, show_ℕ, show_ℤ,
}
use decomp_permuter_psyq.Parse.Integer.{digits_value, signed_value, parse_int}

digits_value-digit :
    (b : Bool) (v d : ℕ) (acc : Text)
    → d < 10
    → digits_value b v ((48 + d) ∷ acc) ≡ digits_value true (v * 10 + d) acc
unfolding digits_value
digits_value-digit b v d acc h =
    let test : (leb b'0' (48 + d) && leb (48 + d) b'9') ≡ true = ground arith in
    let same : 48 + d - b'0' ≡ d = omega arith in rw (test, same) refl

digits_value-small :
    (f m : ℕ) (b : Bool) (acc : Text)
    → m < 10
    → digits_value b 0 (decimal (suc f) m acc) ≡ digits_value true m acc
unfolding decimal
digits_value-small f m b acc h =
    let small : ltb m 10 ≡ true = ground arith in
    rw (small, decimal)
      (digits_value-digit b 0 m acc h ∙ ap (λ (v : ℕ). digits_value true v acc) (omega arith))

decimal-large :
    (f m : ℕ) (acc : Text)
    → 10 ≤ m
    → decimal (suc f) m acc ≡ decimal f (m / 10) ((48 + m % 10) ∷ acc)
unfolding decimal
decimal-large f m acc h = let large : ltb m 10 ≡ false = ground arith in rw large refl

decimal-small : (f m : ℕ) (acc : Text) → m < 10 → decimal (suc f) m acc ≡ (48 + m) ∷ acc
unfolding decimal
decimal-small f m acc h = let small : ltb m 10 ≡ true = ground arith in rw small refl

small-or-large : (m : ℕ) → (m < 10) ⊎ (10 ≤ m)
small-or-large m = omega arith

digits_value-decimal :
    (f m : ℕ) (b : Bool) (acc : Text)
    → m ≤ f
    → digits_value b 0 (decimal (suc f) m acc) ≡ digits_value true m acc
digits_value-decimal zero m b acc h = digits_value-small zero m b acc (omega arith)
digits_value-decimal (suc f) m b acc h = elim (small-or-large m) [
  | inl small ↦ digits_value-small (suc f) m b acc small
  | inr large ↦ rw (decimal-large (suc f) m acc large) (
      digits_value-decimal f (m / 10) b ((48 + m % 10) ∷ acc) (omega arith)
      ∙ digits_value-digit true (m / 10) (m % 10) acc (omega arith)
      ∙ ap (λ (v : ℕ). digits_value true v acc) (omega arith))
]

abbrev AllDigits : Text → Type 0
AllDigits [] = Unit
AllDigits (c ∷ cs) = ((b'0' ≤ c) × (c ≤ b'9')) × AllDigits cs

decimal-AllDigits :
    (f m : ℕ) (acc : Text) → m ≤ f → AllDigits acc → AllDigits (decimal (suc f) m acc)
decimal-AllDigits zero m acc h all =
    rw (decimal-small zero m acc (omega arith)) ((omega arith, omega arith), all)
decimal-AllDigits (suc f) m acc h all = elim (small-or-large m) [
  | inl small ↦ rw (decimal-small (suc f) m acc small) ((omega arith, omega arith), all)
  | inr large ↦ rw (decimal-large (suc f) m acc large) (
      decimal-AllDigits f (m / 10) ((48 + m % 10) ∷ acc) (omega arith)
        ((omega arith, omega arith), all))
]

digit-ne-space : (c : ℕ) → b'0' ≤ c → c ≤ b'9' → is_space c ≡ false
unfolding is_space
digit-ne-space c h k = ground arith

strip_left-AllDigits : (t : Text) → AllDigits t → strip_left t ≡ t
unfolding strip_left
strip_left-AllDigits [] h = refl
strip_left-AllDigits (c ∷ cs) ((low, high), rest) = rw (digit-ne-space c low high) refl

strip_right-AllDigits : (t : Text) → AllDigits t → strip_right t ≡ t
unfolding strip_right
strip_right-AllDigits [] h = refl
strip_right-AllDigits (c ∷ []) ((low, high), rest) = rw (digit-ne-space c low high) refl
strip_right-AllDigits (c ∷ d ∷ ds) (first, rest) = rw (strip_right-AllDigits (d ∷ ds) rest) refl

strip-minus : (t : Text) → AllDigits t → t ≢ [] → strip (b'-' ∷ t) ≡ b'-' ∷ t
unfolding strip
strip-minus [] h nonempty = absurd (nonempty refl)
strip-minus (c ∷ cs) h nonempty = rw (strip_right-AllDigits (c ∷ cs) h) refl

signed_value-AllDigits :
    (t : Text) (n : ℕ)
    → AllDigits t
    → digits_value false 0 t ≡ some n
    → signed_value t ≡ some (pos n)
unfolding signed_value
signed_value-AllDigits [] n h e = absurd (cc e)
signed_value-AllDigits (c ∷ cs) n ((low, high), rest) e =
    let minus : (c == b'-') ≡ false = ground arith in
    let plus : (c == b'+') ≡ false = ground arith in rw (minus, plus, e) refl

show_ℕ-AllDigits : (n : ℕ) → AllDigits (show_ℕ n)
unfolding show_ℕ
show_ℕ-AllDigits n = decimal-AllDigits n n [] (omega arith) tt

digits_value-end : (n : ℕ) → digits_value true n [] ≡ some n
unfolding digits_value
digits_value-end n = refl

signed_value-minus :
    (t : Text) (n : ℕ)
    → digits_value false 0 t ≡ some (suc n)
    → signed_value (b'-' ∷ t) ≡ some (negsuc n)
unfolding signed_value
signed_value-minus t n e = rw (e, signed_value) refl

digits_value-show_ℕ : (n : ℕ) → digits_value false 0 (show_ℕ n) ≡ some n
unfolding show_ℕ
digits_value-show_ℕ n = digits_value-decimal n n false [] (omega arith) ∙ digits_value-end n

show_ℕ-ne-nil : (n : ℕ) → show_ℕ n ≢ []
unfolding digits_value
show_ℕ-ne-nil n e = let value = rw e at (digits_value-show_ℕ n) in cc value

pub parse_int-show_ℤ : (n : ℤ) → parse_int (show_ℤ n) ≡ some n
unfolding parse_int strip show_ℤ
parse_int-show_ℤ (pos n) =
    rw
      (
        strip_left-AllDigits (show_ℕ n) (show_ℕ-AllDigits n),
        strip_right-AllDigits (show_ℕ n) (show_ℕ-AllDigits n),
      )
      (signed_value-AllDigits (show_ℕ n) n (show_ℕ-AllDigits n) (digits_value-show_ℕ n))
parse_int-show_ℤ (negsuc n) =
    rw (strip-minus (show_ℕ (suc n)) (show_ℕ-AllDigits (suc n)) (show_ℕ-ne-nil (suc n)))
      (signed_value-minus (show_ℕ (suc n)) n (digits_value-show_ℕ (suc n)))
