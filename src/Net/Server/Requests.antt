-- ===== src/Net/Server/Requests.antt =====
-- net/server.py: the requests of the controller for work, the answers, and the work that is waited for.
use decomp_permuter_psyq.Prelude.{
  ℕ, suc, ◌+◌, ◌<◌, ◌≡◌, refl, ap, false, some, List, [], ◌∷◌, arith, length, Bool-cases,
  Option-cases, inl, inr,
}
use mathlib.Core.Option.{some-injective}
use decomp_permuter_psyq.Prelude.Int.{ℤ, pos, negsuc, pos_part, same_int, same_int_iff}
use decomp_permuter_psyq.Net.Server.Types.{
  Activity, Output, perm_init_fail, perm_init_success, init_fail, init_success,
}
use decomp_permuter_psyq.Net.Server.Handle.{
  Effect, evaluator, controller, io, io_global, put_id, pop_id,
}

module _ {F : Type 0} where
  -- the messages to the controller that answer a request for work
  abbrev pub answer : Output F → ℕ
  answer Output.need_more_work = 1
  answer (Output.work handle time_start time_us obj source) = 1
  answer (init_fail handle error) = 0
  answer (init_success handle time_us base_score base_hash) = 0
  answer (Output.disconnect handle) = 0
  answer Output.shutdown = 0

  abbrev pub answers : List (Effect F) → ℕ
  answers [] = 0
  answers (controller output ∷ effects) = answer output + answers effects
  answers (evaluator command ∷ effects) = answers effects
  answers (io handle message ∷ effects) = answers effects
  answers (io_global message ∷ effects) = answers effects

  -- the requests, and the other messages that may lead to an answer: the evaluator's on a new permuter
  abbrev pub request : Activity F → ℕ
  request (Activity.work handle id time_start seed) = 1
  request _ = 0

  abbrev pub extra : Activity F → ℕ
  extra (perm_init_fail perm_id error) = 1
  extra (perm_init_success perm_id base_score base_hash time_us) = 1
  extra Activity.need_more_work = 1
  extra _ = 0

  -- `n` requests are numbered by `_next_work_id`, from `next` on.
  abbrev pub Numbered : ℕ → List (F × Activity F) → Type 0
  Numbered next [] = Unit
  Numbered next ((now, Activity.work handle id time_start seed) ∷ msgs) =
      (id ≡ next) × Numbered (suc next) msgs
  Numbered next ((now, msg) ∷ msgs) = Numbered next msgs

  -- the numbers that are waited for are below `next`
  abbrev pub Below : ℕ → List (ℤ × F) → Type 0
  Below next [] = Unit
  Below next ((k, v) ∷ d) = (pos_part k < next) × Below next d

module _ {F : Type 0} where
  pub length-put_id :
      (next : ℕ) (d : List (ℤ × F)) (v : F)
      → Below next d
      → length (put_id d (pos next) v) ≡ length d + 1
  length-put_id next [] v below = refl
  length-put_id next ((pos k, w) ∷ d) v (b, below) =
      let differ : same_int (pos next) (pos k) ≡ false =
        ground (arith, same_int_iff (pos next) (pos k)) in
      rw differ (omega (arith, length-put_id next d v below))
  length-put_id next ((negsuc k, w) ∷ d) v (b, below) =
      let differ : same_int (pos next) (negsuc k) ≡ false =
        ground (arith, same_int_iff (pos next) (negsuc k)) in
      rw differ (omega (arith, length-put_id next d v below))

  pub Below-suc : (next : ℕ) (d : List (ℤ × F)) → Below next d → Below (suc next) d
  Below-suc next [] below = tt
  Below-suc next ((k, w) ∷ d) (b, below) = (omega arith, Below-suc next d below)

  pub Below-put_id :
      (next : ℕ) (d : List (ℤ × F)) (v : F)
      → Below next d
      → Below (suc next) (put_id d (pos next) v)
  Below-put_id next [] v below = (omega arith, tt)
  Below-put_id next ((k, w) ∷ d) v (b, below) = elim (Bool-cases (same_int (pos next) k)) [
    | inl e ↦ rw e (omega arith, Below-suc next d below)
    | inr e ↦ rw e (omega arith, Below-put_id next d v below)
  ]

  pub pop_id-some :
      (next : ℕ) (d : List (ℤ × F)) (id : ℤ) (v : F) (rest : List (ℤ × F))
      → pop_id d id ≡ some (v, rest)
      → Below next d
      → (length d ≡ length rest + 1) × Below next rest
  pop_id-some next [] id v rest e below = absurd (cc e)
  pop_id-some next ((k, w) ∷ d) id v rest e (b, below) = elim (Bool-cases (same_int id k)) [
    | inl same ↦
        let left =
          ap (λ (p : F × List (ℤ × F)). p.1) (some-injective (w, d) (v, rest) (rw same at e)) in
        rw (← left) (omega arith, below)
    | inr differ ↦ elim (Option-cases (pop_id d id)) [
      | inl none_left ↦ let e' = rw (differ, none_left) at e in absurd (cc e')
      | inr ((w', rest'), popped) ↦
          let (shorter, below') = pop_id-some next d id w' rest' popped below in
          let e' = rw (differ, popped) at e in
          let left =
            ap (λ (p : F × List (ℤ × F)). p.1) (some-injective (w', (k, w) ∷ rest') (v, rest) e') in
          rw (← left) (omega arith, (b, below'))
    ]
  ]
