-- ===== src/Perm/Lineswap.antt =====
-- perm/perm.py: the seeds below `len(items)!` of `_shuffle` are the orders of the items.
use mathlib.Core.Logic.Or
use mathlib.Core.List.{
  Mem, mem-cons, not-mem-nil, mem-cons_self, Nodup, Nodup-cons, Perm as Permutation,
}
use mathlib.Core.List.Perm
use mathlib.Core.Logic.{∥∥₁_elim, ∥∥₁_map}
use decomp_permuter_psyq.Prelude.{
  ℕ, zero, suc, ◌+◌, ◌*◌, ◌/◌, ◌%◌, ◌<◌, ◌≡◌, refl, sym, ap, ap₂, ◌∙◌, List, [], ◌∷◌, arith, length,
  get_or, digit-mod, digit-div, digit-lt, div-lt_of_lt-mul,
}
use native.Mathlib.Nat.{mod-add-div, mod-lt}
use decomp_permuter_psyq.Perm.Syntax.{factorial}
use decomp_permuter_psyq.Perm.Shuffle.{delete, shuffle_loop, shuffle}

module _ {ℓ} {A : Type ℓ} where
  length-delete : (xs : List A) (i : ℕ) → i < length xs → length xs ≡ suc (length (delete xs i))
  unfolding delete
  length-delete [] i h = absurd (omega arith)
  length-delete (x ∷ xs) zero h = refl
  length-delete (x ∷ xs) (suc i) h = omega (arith, length-delete xs i (omega arith))

  delete-perm :
      (xs : List A) (i : ℕ) (d : A) → i < length xs → Permutation (get_or xs i d ∷ delete xs i) xs
  unfolding delete
  delete-perm [] i d h = absurd (omega arith)
  delete-perm (x ∷ xs) zero d h = Perm.refl (x ∷ xs)
  delete-perm (x ∷ xs) (suc i) d h =
      Perm.trans (Perm.swap x (get_or xs i d) (delete xs i))
        (Perm.cons x (delete-perm xs i d (omega arith)))

  shuffle_loop-perm :
      (n : ℕ) (items : List A) (seed : ℕ)
      → length items ≡ n
      → Permutation (shuffle_loop n items seed) items
  unfolding shuffle_loop
  shuffle_loop-perm zero [] seed h = Perm.refl []
  shuffle_loop-perm zero (x ∷ xs) seed h = absurd (omega arith)
  shuffle_loop-perm (suc n) [] seed h = absurd (omega arith)
  shuffle_loop-perm (suc n) (x ∷ xs) seed h =
      let ind = seed % suc (length xs) in
      let small : ind < suc (length xs) = mod-lt seed (omega arith) in
      let left = delete (x ∷ xs) ind in
      let rest =
        shuffle_loop-perm n left (seed / suc (length xs))
          (omega (arith, length-delete (x ∷ xs) ind small)) in
      Perm.trans (Perm.cons (get_or (x ∷ xs) ind x) rest) (delete-perm (x ∷ xs) ind x small)

  get_or-mem : (xs : List A) (i : ℕ) (d : A) → i < length xs → Mem (get_or xs i d) xs
  get_or-mem xs i d h = (Perm.mem_iff (delete-perm xs i d h)).0 mem-cons_self

  get_or-injective :
      (xs : List A) (i j : ℕ) (d : A)
      → Nodup xs
      → i < length xs
      → j < length xs
      → get_or xs i d ≡ get_or xs j d
      → i ≡ j
  get_or-injective [] i j d u hi hj e = absurd (omega arith)
  get_or-injective (x ∷ xs) zero zero d u hi hj e = refl
  get_or-injective (x ∷ xs) zero (suc j) d u hi hj e =
      absurd ((Nodup-cons.0 u).0 (rw e (get_or-mem xs j d (omega arith))))
  get_or-injective (x ∷ xs) (suc i) zero d u hi hj e =
      absurd ((Nodup-cons.0 u).0 (rw (sym e) (get_or-mem xs i d (omega arith))))
  get_or-injective (x ∷ xs) (suc i) (suc j) d u hi hj e =
      ap suc (get_or-injective xs i j d (Nodup-cons.0 u).1 (omega arith) (omega arith) e)

  cons-head : {x y : A} {xs ys : List A} → x ∷ xs ≡ y ∷ ys → x ≡ y
  cons-head e = cc e

  cons-tail : {x y : A} {xs ys : List A} → x ∷ xs ≡ y ∷ ys → xs ≡ ys
  cons-tail e = cc e

  delete-Nodup : (xs : List A) (i : ℕ) → Nodup xs → i < length xs → Nodup (delete xs i)
  delete-Nodup [] i u h = absurd (omega arith)
  delete-Nodup (x ∷ xs) i u h =
      (Nodup-cons.0 (Perm.nodup (Perm.symm (delete-perm (x ∷ xs) i x h)) u)).1

  shuffle_loop-injective :
      (n : ℕ) (items : List A) (s t : ℕ)
      → length items ≡ n
      → Nodup items
      → s < factorial n
      → t < factorial n
      → shuffle_loop n items s ≡ shuffle_loop n items t
      → s ≡ t
  unfolding shuffle_loop factorial
  shuffle_loop-injective zero items s t h u hs ht e = omega arith
  shuffle_loop-injective (suc n) [] s t h u hs ht e = absurd (omega arith)
  shuffle_loop-injective (suc n) (x ∷ xs) s t h u hs ht e =
      let c = suc (length xs) in
      let s_small : s % c < c = mod-lt s (omega arith) in
      let t_small : t % c < c = mod-lt t (omega arith) in
      let same : s % c ≡ t % c =
        get_or-injective (x ∷ xs) (s % c) (t % c) x u s_small t_small (cons-head e) in
      let rest : s / c ≡ t / c =
        shuffle_loop-injective n (delete (x ∷ xs) (s % c)) (s / c) (t / c)
          (omega (arith, length-delete (x ∷ xs) (s % c) s_small))
          (delete-Nodup (x ∷ xs) (s % c) u s_small) (div-lt_of_lt-mul s c (factorial n) (rw h hs))
          (div-lt_of_lt-mul t c (factorial n) (rw h ht))
          (cons-tail e ∙ ap (λ (i : ℕ). shuffle_loop n (delete (x ∷ xs) i) (t / c)) (sym same)) in
      sym (mod-add-div s c) ∙ rw (same, rest) (mod-add-div t c)

  index_of_mem :
      (xs : List A) (y d : A) → Mem y xs → ∥ ((i : ℕ) × (i < length xs) × (get_or xs i d ≡ y)) ∥₁
  index_of_mem [] y d m = absurd (not-mem-nil m)
  index_of_mem (x ∷ xs) y d m =
      Or.elim squash₁ (mem-cons.0 m) (λ e. ∣ (0, omega arith, sym e) ∣₁)
        (λ later. ∥∥₁_map (index_of_mem xs y d later) λ (i, h, e). (suc i, omega arith, e))

  shuffle_loop-onto :
      (n : ℕ) (target items : List A)
      → length items ≡ n
      → Permutation target items
      → ∥ ((seed : ℕ) × (seed < factorial n) × (shuffle_loop n items seed ≡ target)) ∥₁
  unfolding shuffle_loop factorial
  shuffle_loop-onto zero target [] h p = ∣ (0, omega arith, sym (Perm.eq-nil p)) ∣₁
  shuffle_loop-onto zero target (x ∷ xs) h p = absurd (omega arith)
  shuffle_loop-onto (suc n) target [] h p = absurd (omega arith)
  shuffle_loop-onto (suc n) [] (x ∷ xs) h p = cc (Perm.nil-eq p)
  shuffle_loop-onto (suc n) (y ∷ ys) (x ∷ xs) h p =
      ∥∥₁_elim (index_of_mem (x ∷ xs) y x ((Perm.mem_iff p).0 mem-cons_self)) squash₁
        λ (i, small, found).
          let left = delete (x ∷ xs) i in
          let rest : Permutation ys left =
            Perm.cons_inv
              (Perm.trans p (Perm.symm (rw found at (delete-perm (x ∷ xs) i x small)))) in
          ∥∥₁_map (shuffle_loop-onto n ys left (omega (arith, length-delete (x ∷ xs) i small)) rest)
            λ (s, below, e). (
              i + suc (length xs) * s,
              rw (← h) (digit-lt i s (suc (length xs)) (factorial n) small below),
              rw (digit-mod i s (suc (length xs)) small, digit-div i s (suc (length xs)) small)
                  (ap₂ ◌∷◌ found e),
            )

  -- Whatever the seed, `_shuffle` gives the items in some order.
  pub shuffle-perm : (items : List A) (seed : ℕ) → Permutation (shuffle items seed) items
  unfolding shuffle
  shuffle-perm items seed = shuffle_loop-perm (length items) items seed refl

  -- Each order of the items is that of a seed below the factorial of their number.
  pub shuffle-onto :
      (target items : List A)
      → Permutation target items
      → ∥ ((seed : ℕ) × (seed < factorial (length items)) × (shuffle items seed ≡ target)) ∥₁
  unfolding shuffle
  shuffle-onto target items p = shuffle_loop-onto (length items) target items refl p

  -- Of distinct items, no two seeds below the factorial of their number give the same order.
  pub shuffle-injective :
      (items : List A) (s t : ℕ)
      → Nodup items
      → s < factorial (length items)
      → t < factorial (length items)
      → shuffle items s ≡ shuffle items t
      → s ≡ t
  unfolding shuffle
  shuffle-injective items s t u hs ht e =
      shuffle_loop-injective (length items) items s t refl u hs ht e
