-- ===== src/Net/Server/Trace.antt =====
-- net/server.py: what the server sends about one permuter, from its `AddPermuter` to its end.
use decomp_permuter_psyq.Prelude.{
  ◌≡◌, refl, sym, ap, ◌∙◌, Bool, true, false, Option, some, List, [], ◌∷◌, ◌++◌, ok, raised,
  if◌then◌else◌, arith, Bool-cases, Option-cases, Ok-cases, inl, inr,
}
use mathlib.Core.Option.{some-injective}
use decomp_permuter_psyq.Prelude.Int.{ℤ, same_int, same_int_iff}
use decomp_permuter_psyq.Text.{Text, codes, show_ℤ}
use decomp_permuter_psyq.Text.Equality.{same_text, same_text_iff}
use decomp_permuter_psyq.Parse.Integer.{parse_int}
use decomp_permuter_psyq.Parse.Numbers.{parse_int-show_ℤ}
use decomp_permuter_psyq.Net.Json.{Fields, int}
use decomp_permuter_psyq.Net.Server.Types.{
  Activity, add_permuter, remove_permuter, immediate_disconnect, perm_init_fail, perm_init_success,
  net_thread_disconnected, heartbeat,
}
use decomp_permuter_psyq.Net.Server.Handle.{
  ServerInner, Effect, Handled, is_member, remove_member, pop_id, put_field, score_of,
  handle_work_done, handle_message, main_loop, is_shutdown, if_active,
}
use decomp_permuter_psyq.Net.Server.Protocol.{Stage, stage_of, watch, watch_all}

show_ℤ-same : (a b : ℤ) → same_text (show_ℤ a) (show_ℤ b) ≡ same_int a b
show_ℤ-same a b = elim (Bool-cases (same_int a b)) [
  | inl same ↦
      let e = (same_int_iff a b).0 same in
      rw (same, e) ((same_text_iff (show_ℤ b) (show_ℤ b)).1 refl)
  | inr differ ↦ elim (Bool-cases (same_text (show_ℤ a) (show_ℤ b))) [
    | inr e ↦ e ∙ sym differ
    | inl e ↦
        let texts = ap parse_int ((same_text_iff (show_ℤ a) (show_ℤ b)).0 e) in
        let equal = some-injective a b (sym (parse_int-show_ℤ a) ∙ texts ∙ parse_int-show_ℤ b) in
        let same = (same_int_iff a b).1 equal in absurd (cc (same, differ))
  ]
]

is_member-remove_member :
    (h k : ℤ) (xs : List ℤ)
    → is_member h (remove_member k xs) ≡ (if same_int h k then false else is_member h xs)
is_member-remove_member h k [] = ground arith
is_member-remove_member h k (x ∷ xs) =
    ground
      (arith, is_member-remove_member h k xs, same_int_iff h k, same_int_iff h x, same_int_iff k x)

other_reason : same_text (codes "disconnected") (codes "kicked") ≡ false
unfolding same_text
other_reason = refl

kicked_reason : same_text (codes "kicked") (codes "kicked") ≡ true
unfolding same_text
kicked_reason = refl

module _ {F : Type 0} (h : ℤ) where
  -- the effects of a round, watched for `h`
  abbrev Watched : Bool → Handled F → Type 0
  Watched is_open (raised fault) = Unit
  Watched is_open (ok (self, effects)) =
      watch_all h (stage_of is_open) effects ≡ some (stage_of (is_member h self.active))

  if_active-Watched :
      (self : ServerInner F) (handle : ℤ) (next : Handled F)
      → (is_member handle self.active ≡ true → Watched (is_member h self.active) next)
      → Watched (is_member h self.active) (if_active self handle next)
  if_active-Watched self handle next then_next = elim (Bool-cases (is_member handle self.active)) [
    | inl e ↦ rw e (then_next e)
    | inr e ↦ rw e refl
  ]

  handle_work_done-Watched :
      (self : ServerInner F) (handle : ℤ) (time_start : F) (obj : Fields F) (time_us : ℤ)
      (compressed_source : Option Text)
      → Watched
          (is_member h self.active)
          (handle_work_done self handle time_start obj time_us compressed_source)
  unfolding handle_work_done
  handle_work_done-Watched self handle time_start obj time_us compressed_source =
      if_active-Watched self handle _ λ e.
        elim (Ok-cases (score_of (put_field obj (codes "permuter") (int handle)))) [
          | inl (score, r) ↦ rw (r, handle_work_done) (ground (arith, e, same_int_iff h handle))
          | inr (x, r) ↦ rw (r, handle_work_done) tt
        ]

  handle_message-Watched :
      (now : F) (self : ServerInner F) (msg : Activity F)
      → Watched (is_member h self.active) (handle_message now self msg)
  unfolding handle_message
  handle_message-Watched now self Activity.shutdown = refl
  handle_message-Watched now self heartbeat = refl
  handle_message-Watched now self (Activity.work handle id time_start seed) =
      if_active-Watched self handle _
        λ e. ground (arith, e, same_int_iff h handle, show_ℤ-same h handle)
  handle_message-Watched now self (add_permuter handle time_start client perm) =
      elim (Bool-cases (is_member handle self.active)) [
        | inl e ↦ rw e tt
        | inr e ↦ rw e (ground (arith, e, same_int_iff h handle, show_ℤ-same h handle))
      ]
  handle_message-Watched now self (remove_permuter handle) =
      elim (Bool-cases (is_member handle self.active)) [
        | inl e ↦ rw e (
            ground (
              arith,
              e,
              same_int_iff h handle,
              show_ℤ-same h handle,
              is_member-remove_member h handle self.active,
              other_reason,
            ))
        | inr e ↦ rw e refl
      ]
  handle_message-Watched now self (Activity.disconnect handle) =
      elim (Bool-cases (is_member handle self.active)) [
        | inl e ↦ rw e (
            ground (
              arith,
              e,
              same_int_iff h handle,
              show_ℤ-same h handle,
              is_member-remove_member h handle self.active,
              kicked_reason,
            ))
        | inr e ↦ rw e refl
      ]
  handle_message-Watched now self (immediate_disconnect handle client reason) =
      elim (Bool-cases (is_member handle self.active)) [
        | inl e ↦ rw e tt
        | inr e ↦ rw e (ground (arith, e, same_int_iff h handle))
      ]
  handle_message-Watched now self (perm_init_fail perm_id error) =
      elim (Option-cases (parse_int perm_id)) [
        | inl e ↦ rw (e, handle_message) tt
        | inr (handle, e) ↦
            rw (e, handle_message)
              (if_active-Watched self handle _ λ e'.
                ground
                  (arith, e', same_int_iff h handle, is_member-remove_member h handle self.active))
      ]
  handle_message-Watched now self (perm_init_success perm_id base_score base_hash time_us) =
      elim (Option-cases (parse_int perm_id)) [
        | inl e ↦ rw (e, handle_message) tt
        | inr (handle, e) ↦
            rw (e, handle_message)
              (if_active-Watched self handle _ λ e'. ground (arith, e', same_int_iff h handle))
      ]
  handle_message-Watched now self (Activity.work_done perm_id id obj time_us compressed_source) =
      elim (Option-cases (parse_int perm_id)) [
        | inl e ↦ rw (e, handle_message) tt
        | inr (handle, e) ↦ elim (Option-cases (pop_id self.time_starts id)) [
          | inl p ↦ rw (e, p, handle_message) tt
          | inr ((time_start, rest), p) ↦
              rw (e, p, handle_message)
                (handle_work_done-Watched (record self { time_starts = rest }) handle time_start obj
                  time_us compressed_source)
        ]
      ]
  handle_message-Watched now self Activity.need_more_work = refl
  handle_message-Watched now self (net_thread_disconnected graceful message) = refl

  watch_all-append :
      (stage : Stage) (front back : List (Effect F)) (after : Stage)
      → watch_all h stage front ≡ some after
      → watch_all h stage (front ++ back) ≡ watch_all h after back
  watch_all-append stage [] back after e =
      ap (λ (b : Stage). watch_all h b back) (some-injective _ _ e)
  watch_all-append stage (effect ∷ front) back after e =
      elim (Option-cases (watch h stage effect)) [
        | inl stop ↦ let e' = rw (stop, watch_all) at e in absurd (cc e')
        | inr (next, go) ↦
            rw (go, watch_all) (watch_all-append next front back after (rw (go, watch_all) at e))
      ]

  main_loop-Watched :
      (self : ServerInner F) (msgs : List (F × Activity F))
      → Watched (is_member h self.active) (main_loop self msgs)
  unfolding main_loop
  main_loop-Watched self [] = refl
  main_loop-Watched self ((now, msg) ∷ msgs) = elim (Bool-cases (is_shutdown msg)) [
    | inl stop ↦ rw stop refl
    | inr go ↦ elim (Ok-cases (handle_message now self msg)) [
      | inr (fault, e) ↦ rw (go, e, main_loop) tt
      | inl ((self', effects), e) ↦ elim (Ok-cases (main_loop self' msgs)) [
        | inr (fault, e') ↦ rw (go, e, e', main_loop) tt
        | inl ((last, more), e') ↦
            let one = rw e at (handle_message-Watched now self msg) in
            let rest = rw e' at (main_loop-Watched self' msgs) in
            rw (go, e, e', main_loop)
              (watch_all-append (stage_of (is_member h self.active)) effects more _ one ∙ rest)
      ]
    ]
  ]

-- For each permuter, what the main loop sends while it runs keeps to an order. The evaluator gets its `add`
-- before the user interface is told that it is connected; until its end come work for the evaluator, and for
-- the controller the success of its start and results, each of which is shown first. The end is a `remove` for
-- the evaluator and a disconnection shown, with one `disconnect` to the controller behind it if the permuter
-- was kicked, or, if it could not be started, a disconnection shown and one failure sent. One that is refused
-- is shown as disconnected and its failure sent while it is not open. Nothing else is sent about it, and
-- between two messages that are handled it is open exactly if it is active.
pub main_loop-watch_all :
    {F : Type 0} (h : ℤ) (self last : ServerInner F) (msgs : List (F × Activity F))
    (effects : List (Effect F))
    → main_loop self msgs ≡ ok (last, effects)
    → watch_all h (stage_of (is_member h self.active)) effects
      ≡ some (stage_of (is_member h last.active))
main_loop-watch_all h self last msgs effects e = rw e at (main_loop-Watched h self msgs)
