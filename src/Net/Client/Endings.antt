-- ===== src/Net/Client/Endings.antt =====
-- net/client.py: the end of a run.
use decomp_permuter_psyq.Prelude.{
  ℕ, zero, suc, ◌<◌, ◌≡◌, refl, sym, ap, ◌∙◌, ◌⊎◌, append_assoc, All-implies, Bool, true, false,
  none, some, List, [], ◌∷◌, ◌++◌, ok, arith, length, Ok-cases, inl, inr, All, All-append,
}
use decomp_permuter_psyq.Text.{Text}
use decomp_permuter_psyq.Net.Wire.{NetError, receive_json}
use decomp_permuter_psyq.Net.Client.{
  Connection, Feedback, finished, need_more_work, Task, work, finish, waiting, over, Ran, ran,
  ended, work_message, finish_reason, run, send_permuter, receive_one, client_loop,
}
use decomp_permuter_psyq.Net.Client.Given.{is_finished, Plain, receive_one-shorter}

module _ {F : Type 0} (self : Connection F) where
  -- a run that is over has told so last and once; one that waits has not
  abbrev pub Ends : Ran F → Type 0
  Ends r =
      ((r.status ≡ waiting) × All (λ (item : Feedback F). is_finished item ≡ false) r.feedback)
      ⊎ ((r.status ≡ over)
          × (front : List (Feedback F)) × (reason : Text) × (r.feedback
              ≡ front ++ (finished (some reason), none) ∷ [])
          × All (λ (item : Feedback F). is_finished item ≡ false) front)

  ran-Ends :
      (items : List (Feedback F)) (sent : List Text) (r : Ran F)
      → All (λ (item : Feedback F). is_finished item ≡ false) items
      → Ends r
      → Ends (ran items sent r)
  ran-Ends items sent r all (inl (waits, rest)) = inl (
    waits,
    All-append (λ (item : Feedback F). is_finished item ≡ false) items r.feedback all rest,
  )
  ran-Ends items sent r all (inr (done, front, reason, e, rest)) = inr (
    done,
    items ++ front,
    reason,
    ap (λ (more : List (Feedback F)). items ++ more) e ∙ sym (append_assoc items front _),
    All-append (λ (item : Feedback F). is_finished item ≡ false) items front all rest,
  )

  ended-Ends : (e : NetError) → Ends (ended self e)
  ended-Ends e = inr (refl, [], finish_reason self e, refl, tt)

  client_loop-Ends :
      (n : ℕ) (no_tasks : Bool) (tasks : List Task) (input : List Text)
      → length input < n
      → Ends (client_loop self n no_tasks tasks input)
  unfolding client_loop
  client_loop-Ends zero no_tasks tasks input h = absurd (omega (arith, h))
  client_loop-Ends (suc n) no_tasks tasks input h = elim (Ok-cases (receive_one self input)) [
    | inr (e, r) ↦ rw (r, client_loop) (ended-Ends e)
    | inl (((wanted, items), rest), r) ↦
        let (plain, left) = receive_one-shorter self input ((wanted, items), rest) r in
        let all =
          All-implies Plain (λ (item : Feedback F). is_finished item ≡ false) items (λ item p. p.1)
            plain in
        let asking = items ++ (need_more_work, none) ∷ [] in
        let asked =
          All-append (λ (item : Feedback F). is_finished item ≡ false) items
            ((need_more_work, none) ∷ []) all (refl, tt) in
        let size : length rest < n = omega (arith, h, left) in
        elim wanted
            as (λ b.
              receive_one self input ≡ ok ((b, items), rest)
              → Ends (client_loop self (suc n) no_tasks tasks input)) [
                | false ↦ λ r'.
                    rw (r', client_loop)
                      (ran-Ends items [] (client_loop self n no_tasks tasks rest) all
                        (client_loop-Ends n no_tasks tasks rest size))
                | true ↦ λ r'.
                    elim no_tasks as (λ b. Ends (client_loop self (suc n) b tasks input)) [
                      | true ↦
                          rw (r', client_loop)
                            (ran-Ends asking [] (client_loop self n true tasks rest) asked
                              (client_loop-Ends n true tasks rest size))
                      | false ↦
                          elim tasks as (λ ts. Ends (client_loop self (suc n) false ts input)) [
                            | [] ↦
                                rw (r', client_loop)
                                  (ran-Ends asking []
                                    (record { feedback = []; sent = []; status = waiting }) asked
                                    (inl (refl, tt)))
                            | finish ∷ later ↦
                                rw (r', client_loop)
                                  (ran-Ends asking [] (client_loop self n true later rest) asked
                                    (client_loop-Ends n true later rest size))
                            | work seed ∷ later ↦
                                rw (r', client_loop)
                                  (ran-Ends asking []
                                    (ran [] (work_message self seed ∷ [])
                                      (client_loop self n false later rest))
                                    asked
                                    (ran-Ends [] (work_message self seed ∷ [])
                                      (client_loop self n false later rest) tt
                                      (client_loop-Ends n false later rest size)))
                          ]
                    ]
              ]
          r
  ]

-- Each run comes to its end: it tells so as its last feedback and once, with a reason, or it waits for a
-- task that nobody has given yet.
pub run-Ends :
    {F : Type 0} (self : Connection F) (tasks : List Task) (input : List Text)
    → Ends self (run self tasks input)
unfolding run
run-Ends self tasks input = elim (Ok-cases (receive_json self.wire input)) [
  | inr (e, r) ↦
      rw (r, run) (ran-Ends self [] (send_permuter self) (ended self e) tt (ended-Ends self e))
  | inl ((msg, rest), r) ↦
      rw (r, run)
        (ran-Ends self [] (send_permuter self)
          (client_loop self (suc (length rest)) false tasks rest) tt
          (client_loop-Ends self (suc (length rest)) false tasks rest (omega arith)))
]
