-- ===== src/Perm/Choices.antt =====
-- perm/perm.py: a seed of `RootPerm` is a choice of an alternative for each PERM_ONCE key, with a seed
-- of the tree below it.
use decomp_permuter_psyq.Prelude.{
  ℕ, ◌+◌, ◌*◌, ◌/◌, ◌%◌, ◌<◌, ◌≡◌, refl, sym, ap, ◌∙◌, List, [], ◌∷◌, ok, arith, length, get_or,
  Ok-cases, Bool-cases, ok-injective, inl, inr, div-lt_of_lt-mul, mod-lt_of_lt-mul, digit-mod,
  digit-div, digit-lt,
}
use native.Mathlib.Nat.{mod-add-div, mul_assoc}
use decomp_permuter_psyq.Text.Equality.{same_text}
use decomp_permuter_psyq.Perm.Syntax.{Perm, perm_count}
use decomp_permuter_psyq.Perm.State.{Dict, EvalState, get, put}
use decomp_permuter_psyq.Perm.Evaluate.{evaluate}
use decomp_permuter_psyq.Perm.Radix.{divmod-pure}
use decomp_permuter_psyq.Perm.Safety.{KeysIn, Ends, Ends-weaken, evaluate_safe}
use decomp_permuter_psyq.Perm.Once.{Covers, get-put, some_if, KeysIn-Covers, preprocess-KeysIn}
use decomp_permuter_psyq.Perm.Root.{
  OnceOptions, RootPerm, preprocess, count_options, root_perm, set_choice, choose_options,
  evaluate_root,
}

-- the number of ways to choose an alternative for each key
unfoldable pub ways : OnceOptions → ℕ
ways [] = 1
ways ((key, options) ∷ d) = length options * ways d

-- the alternative's position for each key, from a seed; and the seed that the tree is left with
pub positions : OnceOptions → ℕ → List ℕ
positions [] seed = []
positions ((key, options) ∷ d) seed = seed % length options ∷ positions d (seed / length options)

pub tree_seed : OnceOptions → ℕ → ℕ
tree_seed [] seed = seed
tree_seed ((key, options) ∷ d) seed = tree_seed d (seed / length options)

-- a position for each key, that of one of its alternatives
abbrev pub InOptions : OnceOptions → List ℕ → Type 0
InOptions [] [] = Unit
InOptions [] (i ∷ is) = ⊥
InOptions ((key, options) ∷ d) [] = ⊥
InOptions ((key, options) ∷ d) (i ∷ is) = (i < length options) × InOptions d is

-- `once_choices` with the alternatives at the positions
pub assign : OnceOptions → List ℕ → Dict ℕ → Dict ℕ
assign [] is choices = choices
assign ((key, options) ∷ d) [] choices = choices
assign ((key, options) ∷ d) (i ∷ is) choices = assign d is (put choices key (get_or options i 0))

-- the seed for positions and a seed of the tree
pub root_seed : OnceOptions → List ℕ → ℕ → ℕ
root_seed [] is seed = seed
root_seed ((key, options) ∷ d) [] seed = seed
root_seed ((key, options) ∷ d) (i ∷ is) seed = i + length options * root_seed d is seed

count_options-ways : (c : ℕ) (d : OnceOptions) {n : ℕ} → count_options c d ≡ ok n → n ≡ c * ways d
unfolding count_options ways
count_options-ways c [] h = ground arith
count_options-ways c ((key, options) ∷ d) {n} h = ground (
  arith,
  count_options-ways (c * length options) d {n = n},
  mul_assoc c (length options) (ways d),
)

mul_swap : (c l w : ℕ) → c * (l * w) ≡ l * (c * w)
mul_swap c l w = omega arith

choose_options-run :
    (d : OnceOptions) (c seed : ℕ) (st : EvalState)
    → seed < c * ways d
    → (choose_options d seed st
        ≡ ok (
          tree_seed d seed,
          record st { once_choices = assign d (positions d seed) st.once_choices },
        ))
      × InOptions d (positions d seed)
      × (tree_seed d seed < c)
      × (root_seed d (positions d seed) (tree_seed d seed) ≡ seed)
unfolding choose_options ways positions tree_seed assign root_seed set_choice
choose_options-run [] c seed st h = (refl, tt, omega arith, refl)
choose_options-run ((key, options) ∷ d) c seed st h =
    let l = length options in
    let h' : seed < l * (c * ways d) = rw (← mul_swap c l (ways d)) h in
    let st' : EvalState = record st {
      once_choices = put st.once_choices key (get_or options (seed % l) 0);
    } in
    let (run, fits, small, back) =
      choose_options-run d c (seed / l) st' (div-lt_of_lt-mul seed l (c * ways d) h') in
    (
      rw (divmod-pure seed l (mod-lt_of_lt-mul seed l (c * ways d) h')) run,
      (mod-lt_of_lt-mul seed l (c * ways d) h', fits),
      small,
      rw back (mod-add-div seed l),
    )

root_seed-lt :
    (d : OnceOptions) (is : List ℕ) (c seed : ℕ)
    → InOptions d is
    → seed < c
    → root_seed d is seed < c * ways d
unfolding ways root_seed
root_seed-lt [] [] c seed f h = omega arith
root_seed-lt [] (i ∷ is) c seed f h = absurd f
root_seed-lt ((key, options) ∷ d) [] c seed f h = absurd f
root_seed-lt ((key, options) ∷ d) (i ∷ is) c seed f h = rw (mul_swap c (length options) (ways d)) (
    digit-lt i (root_seed d is seed) (length options) (c * ways d) f.0
      (root_seed-lt d is c seed f.1 h))

root_seed-positions :
    (d : OnceOptions) (is : List ℕ) (seed : ℕ)
    → InOptions d is
    → (positions d (root_seed d is seed) ≡ is) × (tree_seed d (root_seed d is seed) ≡ seed)
unfolding positions tree_seed root_seed
root_seed-positions [] [] seed f = (refl, refl)
root_seed-positions [] (i ∷ is) seed f = absurd f
root_seed-positions ((key, options) ∷ d) [] seed f = absurd f
root_seed-positions ((key, options) ∷ d) (i ∷ is) seed f =
    let l = length options in
    let n = root_seed d is seed in
    let (same, left) = root_seed-positions d is seed f.1 in
    (
      rw (digit-mod i n l f.0, digit-div i n l f.0) (ap (λ (r : List ℕ). i ∷ r) same),
      rw (digit-div i n l f.0) left,
    )

pub root_perm-fields :
    (p : Perm) {root : RootPerm}
    → root_perm p ≡ ok root
    → (root.inner ≡ p)
      × (root.once_options ≡ preprocess p [])
      × (root.root_count ≡ perm_count p * ways (preprocess p []))
unfolding root_perm
root_perm-fields p {root} h = elim (Ok-cases (count_options (perm_count p) (preprocess p []))) [
  | inl (n, counted) ↦
      let made : ◌≡◌ {A = RootPerm}
          (record { inner = p; once_options = preprocess p []; root_count = n }) root =
        ok-injective (rw counted at h) in
      (
        ap (λ (r : RootPerm). r.inner) (sym made),
        ap (λ (r : RootPerm). r.once_options) (sym made),
        ap (λ (r : RootPerm). r.root_count) (sym made)
            ∙ count_options-ways (perm_count p) (preprocess p []) counted,
      )
  | inr (key, lone) ↦ cc (rw lone at h)
]

assign-keeps :
    (d : OnceOptions) (is : List ℕ) (choices : Dict ℕ) → Covers choices (assign d is choices)
unfolding assign
assign-keeps [] is choices j h = h
assign-keeps ((key, options) ∷ d) [] choices j h = h
assign-keeps ((key, options) ∷ d) (i ∷ is) choices j h =
    assign-keeps d is (put choices key (get_or options i 0)) j (
      rw (get-put choices key j (get_or options i 0))
        (some_if (same_text key j) (get_or options i 0) (get choices j) h))

assign-Covers :
    (d : OnceOptions) (is : List ℕ) (choices : Dict ℕ)
    → InOptions d is
    → Covers d (assign d is choices)
unfolding assign get
assign-Covers [] is choices f j h = cc (h.1)
assign-Covers ((key, options) ∷ d) [] choices f j h = absurd f
assign-Covers ((key, options) ∷ d) (i ∷ is) choices f j h =
    let choices' = put choices key (get_or options i 0) in
    elim (Bool-cases (same_text key j)) [
      | inl same ↦
          assign-keeps d is choices' j
            (rw (get-put choices key j (get_or options i 0), same) (get_or options i 0, refl))
      | inr other ↦ assign-Covers d is choices' f.1 j (rw other at h)
    ]

-- What a root's seed makes of the tree: the positions of the chosen alternatives are in range, the
-- tree's own seed is below its count, and the two give the seed back.
pub root_run :
    (p : Perm) (root : RootPerm) (seed : ℕ) (st : EvalState)
    → root_perm p ≡ ok root
    → seed < root.root_count
    → (is : List ℕ) × (s : ℕ) × InOptions root.once_options is
      × (s < perm_count p)
      × (root_seed root.once_options is s ≡ seed)
      × (evaluate_root root seed st
          ≡ evaluate p s (record st { once_choices = assign root.once_options is st.once_choices }))
unfolding evaluate_root
root_run p root seed st made h =
    let (inner, options, count) = root_perm-fields p made in
    let (run, fits, small, back) =
      choose_options-run root.once_options (perm_count p) seed st
        (omega (arith, h, count, ap (λ (d : OnceOptions). perm_count p * ways d) options)) in
    (
      positions root.once_options seed,
      tree_seed root.once_options seed,
      fits,
      small,
      back,
      rw run (
          ap
            (λ (q : Perm). evaluate q (tree_seed root.once_options seed) (record st {
              once_choices =
                  assign root.once_options (positions root.once_options seed) st.once_choices;
            }))
            inner),
    )

-- For every choice of one alternative for each PERM_ONCE key and every seed of the tree there is one
-- seed of the root, below its count, at which the root is the tree under that choice.
pub root_choice :
    (p : Perm) (root : RootPerm) (is : List ℕ) (s : ℕ) (st : EvalState)
    → root_perm p ≡ ok root
    → InOptions root.once_options is
    → s < perm_count p
    → (root_seed root.once_options is s < root.root_count)
      × (evaluate_root root (root_seed root.once_options is s) st
          ≡ evaluate p s (record st { once_choices = assign root.once_options is st.once_choices }))
unfolding evaluate_root
root_choice p root is s st made f h =
    let (inner, options, count) = root_perm-fields p made in
    let below = root_seed-lt root.once_options is (perm_count p) s f h in
    let (same, left) = root_seed-positions root.once_options is s f in
    let run =
      (choose_options-run root.once_options (perm_count p) (root_seed root.once_options is s) st
        below).0 in
    (
      omega (arith, below, count, ap (λ (d : OnceOptions). perm_count p * ways d) options),
      rw (run, same, left, inner),
    )

-- At a seed below its count a root returns a text, or reads a PERM_VAR that is not set; it fails no
-- assertion and misses no key. The choices that it leaves are of one alternative for each key.
pub root_safe :
    (p : Perm) (root : RootPerm) (seed : ℕ) (st : EvalState)
    → root_perm p ≡ ok root
    → seed < root.root_count
    → Ends
        (λ t st'.
          (is : List ℕ) × InOptions root.once_options is
          × (st'.once_choices ≡ assign root.once_options is st.once_choices))
        (evaluate_root root seed st)
root_safe p root seed st made h =
    let (is, s, fits, small, back, run) = root_run p root seed st made h in
    let (inner, options, count) = root_perm-fields p made in
    let st' : EvalState = record st {
      once_choices = assign root.once_options is st.once_choices;
    } in
    let keys : KeysIn st'.once_choices p =
      KeysIn-Covers root.once_options st'.once_choices p
        (assign-Covers root.once_options is st.once_choices fits)
        (rw options (preprocess-KeysIn p [])) in
    rw run (Ends-weaken (evaluate_safe p s st' small keys) λ t st'' e. (is, fits, e))
