-- ===== src/Net/Server/Answers.antt =====
-- net/server.py: the requests of the controller for work, and the answers to them.
use decomp_permuter_psyq.Prelude.{
  ℕ, suc, ◌+◌, ◌≤◌, ◌≡◌, Option, List, [], ◌∷◌, ◌++◌, ok, raised, if◌then◌else◌, arith, length,
  Bool-cases, Option-cases, Ok-cases, inl, inr,
}
use decomp_permuter_psyq.Prelude.Int.{ℤ}
use decomp_permuter_psyq.Text.{Text, codes}
use decomp_permuter_psyq.Parse.Integer.{parse_int}
use decomp_permuter_psyq.Net.Json.{Fields, int}
use decomp_permuter_psyq.Net.Server.Types.{
  Activity, add_permuter, remove_permuter, immediate_disconnect, perm_init_fail, perm_init_success,
  net_thread_disconnected, heartbeat,
}
use decomp_permuter_psyq.Net.Server.Handle.{
  ServerInner, Effect, evaluator, controller, io, io_global, Handled, is_member, pop_id, put_field,
  score_of, handle_work_done, handle_message, main_loop, is_shutdown, if_active,
}
use decomp_permuter_psyq.Net.Server.Requests.{
  answers, request, extra, Numbered, Below, length-put_id, Below-suc, Below-put_id, pop_id-some,
}

module _ {F : Type 0} where
  -- the numbers below `next`, and the answers with what is waited for between two bounds
  abbrev Counted : ℕ → ℕ → ℕ → Handled F → Type 0
  Counted next low high (raised fault) = Unit
  Counted next low high (ok (self, effects)) =
      Below next self.time_starts
      × (low ≤ answers effects + length self.time_starts)
      × (answers effects + length self.time_starts ≤ high)

  if_active-Counted :
      (next low high : ℕ) (self : ServerInner F) (handle : ℤ) (then_next : Handled F)
      → Below next self.time_starts
      → low ≤ suc (length self.time_starts)
      → suc (length self.time_starts) ≤ high
      → Counted next low high then_next
      → Counted next low high (if_active self handle then_next)
  if_active-Counted next low high self handle then_next below l h counted =
      elim (Bool-cases (is_member handle self.active)) [
        | inl e ↦ rw e counted
        | inr e ↦ rw e (below, omega arith, omega arith)
      ]

  handle_work_done-Counted :
      (next low high : ℕ) (self : ServerInner F) (handle : ℤ) (time_start : F) (obj : Fields F)
      (time_us : ℤ) (source : Option Text)
      → Below next self.time_starts
      → low ≤ suc (length self.time_starts)
      → suc (length self.time_starts) ≤ high
      → Counted next low high (handle_work_done self handle time_start obj time_us source)
  unfolding handle_work_done
  handle_work_done-Counted next low high self handle time_start obj time_us source below l h =
      if_active-Counted next low high self handle _ below l h
        (elim (Ok-cases (score_of (put_field obj (codes "permuter") (int handle)))) [
          | inl (score, r) ↦ rw (r, handle_work_done) (below, omega arith, omega arith)
          | inr (x, r) ↦ rw (r, handle_work_done) tt
        ])

  -- the number of the next request behind a message
  abbrev pub behind : ℕ → Activity F → ℕ
  behind next (Activity.work handle id time_start seed) = suc next
  behind next _ = next

  handle_message-Counted :
      (now : F) (next : ℕ) (self : ServerInner F) (msg : Activity F)
      → Numbered next ((now, msg) ∷ [])
      → Below next self.time_starts
      → Counted
          (behind next msg)
          (request msg + length self.time_starts)
          (request msg + extra msg + length self.time_starts)
          (handle_message now self msg)
  unfolding handle_message
  handle_message-Counted now next self Activity.shutdown n below = (below, omega arith, omega arith)
  handle_message-Counted now next self heartbeat n below = (below, omega arith, omega arith)
  handle_message-Counted now next self (Activity.work handle id time_start seed) (is_next, end)
        below =
      if_active-Counted (suc next) _ _ self handle _ (Below-suc next self.time_starts below)
        (omega arith) (omega arith)
        (let longer = length-put_id next self.time_starts time_start below in
          rw is_next
            (Below-put_id next self.time_starts time_start below, omega arith, omega arith))
  handle_message-Counted now next self (add_permuter handle time_start client perm) n below =
      elim (Bool-cases (is_member handle self.active)) [
        | inl e ↦ rw e tt
        | inr e ↦ rw e (below, omega arith, omega arith)
      ]
  handle_message-Counted now next self (remove_permuter handle) n below =
      elim (Bool-cases (is_member handle self.active)) [
        | inl e ↦ rw e (below, omega arith, omega arith)
        | inr e ↦ rw e (below, omega arith, omega arith)
      ]
  handle_message-Counted now next self (Activity.disconnect handle) n below =
      elim (Bool-cases (is_member handle self.active)) [
        | inl e ↦ rw e (below, omega arith, omega arith)
        | inr e ↦ rw e (below, omega arith, omega arith)
      ]
  handle_message-Counted now next self (immediate_disconnect handle client reason) n below =
      elim (Bool-cases (is_member handle self.active)) [
        | inl e ↦ rw e tt
        | inr e ↦ rw e (below, omega arith, omega arith)
      ]
  handle_message-Counted now next self (perm_init_fail perm_id error) n below =
      elim (Option-cases (parse_int perm_id)) [
        | inl e ↦ rw (e, handle_message) tt
        | inr (handle, e) ↦
            rw (e, handle_message)
              (if_active-Counted next _ _ self handle _ below (omega arith) (omega arith)
                (below, omega arith, omega arith))
      ]
  handle_message-Counted now next self (perm_init_success perm_id base_score base_hash time_us) n
        below =
      elim (Option-cases (parse_int perm_id)) [
        | inl e ↦ rw (e, handle_message) tt
        | inr (handle, e) ↦
            rw (e, handle_message)
              (if_active-Counted next _ _ self handle _ below (omega arith) (omega arith)
                (below, omega arith, omega arith))
      ]
  handle_message-Counted now next self (Activity.work_done perm_id id obj time_us source) n below =
      elim (Option-cases (parse_int perm_id)) [
        | inl e ↦ rw (e, handle_message) tt
        | inr (handle, e) ↦ elim (Option-cases (pop_id self.time_starts id)) [
          | inl p ↦ rw (e, p, handle_message) tt
          | inr ((time_start, rest), p) ↦
              let (shorter, below') =
                pop_id-some next self.time_starts id time_start rest p below in
              rw (e, p, handle_message)
                (handle_work_done-Counted next _ _ (record self { time_starts = rest }) handle
                  time_start obj time_us source below' (omega (arith, shorter))
                  (omega (arith, shorter)))
        ]
      ]
  handle_message-Counted now next self Activity.need_more_work n below =
      (below, omega arith, omega arith)
  handle_message-Counted now next self (net_thread_disconnected graceful message) n below =
      (below, omega arith, omega arith)

  -- the sum over the messages that are handled
  abbrev pub total : (Activity F → ℕ) → List (F × Activity F) → ℕ
  total f [] = 0
  total f ((now, msg) ∷ msgs) = if is_shutdown msg then 0 else f msg + total f msgs

  Numbered-cons :
      (next : ℕ) (now : F) (msg : Activity F) (msgs : List (F × Activity F))
      → Numbered next ((now, msg) ∷ msgs)
      → Numbered next ((now, msg) ∷ []) × Numbered (behind next msg) msgs
  Numbered-cons next now (Activity.work handle id time_start seed) msgs (e, rest) = ((e, tt), rest)
  Numbered-cons next now _ msgs rest = (tt, rest)

  answers-append :
      (front back : List (Effect F)) → answers (front ++ back) ≡ answers front + answers back
  answers-append [] back = omega arith
  answers-append (controller output ∷ effects) back = omega (arith, answers-append effects back)
  answers-append (evaluator command ∷ effects) back = answers-append effects back
  answers-append (io handle message ∷ effects) back = answers-append effects back
  answers-append (io_global message ∷ effects) back = answers-append effects back

  abbrev Bounded : ℕ → ℕ → Handled F → Type 0
  Bounded low high (raised fault) = Unit
  Bounded low high (ok (self, effects)) =
      (low ≤ answers effects + length self.time_starts)
      × (answers effects + length self.time_starts ≤ high)

  main_loop-Bounded :
      (next : ℕ) (self : ServerInner F) (msgs : List (F × Activity F))
      → Numbered next msgs
      → Below next self.time_starts
      → Bounded
          (total request msgs + length self.time_starts)
          (total request msgs + total extra msgs + length self.time_starts)
          (main_loop self msgs)
  unfolding main_loop
  main_loop-Bounded next self [] n below = (omega arith, omega arith)
  main_loop-Bounded next self ((now, msg) ∷ msgs) n below = elim (Bool-cases (is_shutdown msg)) [
    | inl stop ↦ rw stop (omega arith, omega arith)
    | inr go ↦
        let (first, rest) = Numbered-cons next now msg msgs n in
        elim (Ok-cases (handle_message now self msg)) [
          | inr (fault, e) ↦ rw (go, e, main_loop) tt
          | inl ((self', effects), e) ↦ elim (Ok-cases (main_loop self' msgs)) [
            | inr (fault, e') ↦ rw (go, e, e', main_loop) tt
            | inl ((last, more), e') ↦
                let (below', l, h) =
                  rw e at (handle_message-Counted now next self msg first below) in
                let (l', h') =
                  rw e' at (main_loop-Bounded (behind next msg) self' msgs rest below') in
                let sum = answers-append effects more in
                rw (go, e, e', main_loop) (omega (arith, l, l', sum), omega (arith, h, h', sum))
          ]
        ]
  ]

-- Each request of the controller for work is answered or still waited for: after a run of the main loop
-- the answers and the work that is under way are at least as many as the requests that came and what was
-- under way before, and at most as many as these and the messages that may lead to another answer, where
-- the requests are numbered in order.
pub main_loop-answers :
    {F : Type 0} (next : ℕ) (self last : ServerInner F) (msgs : List (F × Activity F))
    (effects : List (Effect F))
    → Numbered next msgs
    → Below next self.time_starts
    → main_loop self msgs ≡ ok (last, effects)
    → (total request msgs + length self.time_starts ≤ answers effects + length last.time_starts)
      × (answers effects + length last.time_starts
          ≤ total request msgs + total extra msgs + length self.time_starts)
main_loop-answers next self last msgs effects n below e =
    rw e at (main_loop-Bounded next self msgs n below)
