-- ===== src/Net/Client/Turns.antt =====
-- net/client.py: the tasks that a connection sends.
use decomp_permuter_psyq.Prelude.{
  ℕ, zero, suc, ◌≡◌, refl, ap, true, false, List, [], ◌∷◌, ◌++◌, map, arith, length, Ok-cases, inl,
  inr, sum_of-append,
}
use decomp_permuter_psyq.Prelude.Int.{ℤ}
use decomp_permuter_psyq.Text.{Text}
use decomp_permuter_psyq.Net.Wire.{receive_json}
use decomp_permuter_psyq.Net.Client.{
  Connection, Task, work, finish, work_message, run, send_permuter, receive_one, client_loop,
}
use decomp_permuter_psyq.Net.Client.Given.{turn, turns, turns-Plain, turns-need, receive_one-Given}

-- the seeds of the first `n` tasks, up to the end of the tasks
abbrev pub seeds_of : ℕ → List Task → List ℤ
seeds_of zero tasks = []
seeds_of (suc n) [] = []
seeds_of (suc n) (finish ∷ tasks) = []
seeds_of (suc n) (work seed ∷ tasks) = seed ∷ seeds_of n tasks

module _ {F : Type 0} (self : Connection F) where
  client_loop-no_tasks :
      (n : ℕ) (tasks : List Task) (input : List Text)
      → (client_loop self n true tasks input).sent ≡ []
  unfolding client_loop
  client_loop-no_tasks zero tasks input = refl
  client_loop-no_tasks (suc n) tasks input = elim (Ok-cases (receive_one self input)) [
    | inr (e, r) ↦ rw (r, client_loop) refl
    | inl (((true, items), rest), r) ↦ rw (r, client_loop) (client_loop-no_tasks n tasks rest)
    | inl (((false, items), rest), r) ↦ rw (r, client_loop) (client_loop-no_tasks n tasks rest)
  ]

  abbrev Sends : ℕ → List Task → List Text → Type 0
  Sends n tasks input =
      (client_loop self n false tasks input).sent
      ≡ map (work_message self)
          (seeds_of (turns (client_loop self n false tasks input).feedback) tasks)

  client_loop-seeds : (n : ℕ) (tasks : List Task) (input : List Text) → Sends n tasks input
  unfolding client_loop
  client_loop-seeds zero tasks input = refl
  client_loop-seeds (suc n) tasks input = elim (Ok-cases (receive_one self input)) [
    | inr (e, r) ↦ rw (r, client_loop) refl
    | inl (((false, items), rest), r) ↦
        let (plain, size) = rw r at (receive_one-Given self (length input) input (omega arith)) in
        let more = (client_loop self n false tasks rest).feedback in
        let same : turns (items ++ more) ≡ turns more =
          omega (arith, sum_of-append turn items more, turns-Plain items plain) in
        rw (r, client_loop, same) (client_loop-seeds n tasks rest)
    | inl (((true, items), rest), r) ↦
        let (plain, size) = rw r at (receive_one-Given self (length input) input (omega arith)) in
        elim tasks as (λ ts. Sends (suc n) ts input) [
          | [] ↦ rw (r, client_loop, turns-need items [] plain) refl
          | finish ∷ later ↦
              let none_sent = client_loop-no_tasks n later rest in
              rw
                (
                  r,
                  client_loop,
                  turns-need items (client_loop self n true later rest).feedback plain,
                )
                none_sent
          | work seed ∷ later ↦
              rw
                (
                  r,
                  client_loop,
                  turns-need items (client_loop self n false later rest).feedback plain,
                )
                (ap (λ (ms : List Text). work_message self seed ∷ ms)
                  (client_loop-seeds n later rest))
        ]
  ]

-- The client sends its permuter, and then a task for each time that it asks for work, in the order of the
-- tasks and none behind their end, whatever the server sends.
pub run-seeds :
    {F : Type 0} (self : Connection F) (tasks : List Task) (input : List Text)
    → let r = run self tasks input in
      r.sent ≡ send_permuter self ++ map (work_message self) (seeds_of (turns r.feedback) tasks)
unfolding run
run-seeds self tasks input = elim (Ok-cases (receive_json self.wire input)) [
  | inr (e, r) ↦ rw (r, run) refl
  | inl ((msg, rest), r) ↦
      rw (r, run)
        (ap (λ (ms : List Text). send_permuter self ++ ms)
          (client_loop-seeds self (suc (length rest)) tasks rest))
]
