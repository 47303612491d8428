-- ===== src/Net/Evaluator/Log.antt =====
-- net/evaluator.py: the tasks that were put into all local queues, in order, and what a worker knows that
-- has read some of them.
use decomp_permuter_psyq.Prelude.{
  ℕ, ◌≤◌, ◌≡◌, refl, sym, ap, ◌∙◌, ◌⊎◌, true, false, List, [], ◌∷◌, ◌++◌, if◌then◌else◌, arith,
  length, length-append, inl, inr, append-nil,
}
use decomp_permuter_psyq.Text.{Text}
use decomp_permuter_psyq.Text.Equality.{same_text, same_text_iff}
use decomp_permuter_psyq.Scorer.Score.{listed}
use decomp_permuter_psyq.Net.Evaluator.Pool.{LocalTask, add, remove, remove_text}

-- the permuters after a sequence of tasks
abbrev pub apply_task : List Text → LocalTask → List Text
apply_task names (add p) = p ∷ names
apply_task names (remove p) = remove_text p names

abbrev pub apply : List Text → List LocalTask → List Text
apply names [] = names
apply names (task ∷ tasks) = apply (apply_task names task) tasks

pub apply-append :
    (names : List Text) (front back : List LocalTask)
    → apply names (front ++ back) ≡ apply (apply names front) back
apply-append names [] back = refl
apply-append names (task ∷ front) back = apply-append (apply_task names task) front back

pub listed-remove_text :
    (t u : Text) (ts : List Text)
    → listed t (remove_text u ts) ≡ (if same_text t u then false else listed t ts)
listed-remove_text t u [] = ground arith
listed-remove_text t u (x ∷ xs) =
    ground
      (arith, listed-remove_text t u xs, same_text_iff t u, same_text_iff t x, same_text_iff u x)

-- a part of a longer log: all of it, or a part of the log before
pub append_one-split :
    (log : List LocalTask) (x : LocalTask) (front back : List LocalTask)
    → log ++ x ∷ [] ≡ front ++ back
    → ((front ≡ log ++ x ∷ []) × (back ≡ []))
      ⊎ ((rest : List LocalTask) × (log ≡ front ++ rest) × (back ≡ rest ++ x ∷ []))
append_one-split [] x [] back e = inr ([], refl, sym e)
append_one-split [] x (y ∷ []) [] e = inl (sym e, refl)
append_one-split [] x (y ∷ []) (z ∷ back) e = absurd (cc e)
append_one-split [] x (y ∷ z ∷ front) back e = absurd (cc e)
append_one-split (w ∷ log) x [] back e = inr (w ∷ log, refl, sym e)
append_one-split (w ∷ log) x (y ∷ front) back e =
    let first : w ≡ y = cc e in
    let others : log ++ x ∷ [] ≡ front ++ back = cc e in
    elim (append_one-split log x front back others) [
      | inl (all, nothing) ↦ inl (cc (first, all), nothing)
      | inr (rest, part, behind) ↦ inr (rest, cc (first, part), behind)
    ]

-- Whoever has read `required` tasks or more knows the permuter `p`.
abbrev pub Known : List LocalTask → ℕ → Text → Type 0
Known log required p =
    (required ≤ length log)
    × ((front back : List LocalTask)
        → log ≡ front ++ back
        → required ≤ length front
        → listed p (apply [] front) ≡ true)

whole_front :
    (log front back : List LocalTask)
    → log ≡ front ++ back
    → length log ≤ length front
    → front ≡ log
whole_front log front [] e long = sym (append-nil front) ∙ sym e
whole_front log front (x ∷ back) e long =
    let sizes = ap length e in absurd (omega (arith, sizes, length-append front (x ∷ back)))

pub Known-now :
    (log : List LocalTask) (p : Text) → listed p (apply [] log) ≡ true → Known log (length log) p
Known-now log p h = (omega arith, λ front back e long. rw (whole_front log front back e long) h)

pub Known-last :
    (log : List LocalTask) (required : ℕ) (p : Text)
    → Known log required p
    → listed p (apply [] log) ≡ true
Known-last log required p (below, known) = known log [] (sym (append-nil log)) below

Known-step :
    (log : List LocalTask) (x : LocalTask) (required : ℕ) (p : Text)
    → Known log required p
    → listed p (apply [] (log ++ x ∷ [])) ≡ true
    → Known (log ++ x ∷ []) required p
Known-step log x required p (below, known) last = (
  omega (arith, length-append log (x ∷ [])),
  λ front back e long. elim (append_one-split log x front back e) [
    | inl (all, nothing) ↦ rw all last
    | inr (rest, part, behind) ↦ known front rest part long
  ],
)

pub Known-add :
    (log : List LocalTask) (q : Text) (required : ℕ) (p : Text)
    → Known log required p
    → Known (log ++ add q ∷ []) required p
Known-add log q required p known =
    let before = Known-last log required p known in
    Known-step log (add q) required p known
      (rw (apply-append [] log (add q ∷ [])) (ground (arith, before)))

pub Known-remove :
    (log : List LocalTask) (q : Text) (required : ℕ) (p : Text)
    → same_text p q ≡ false
    → Known log required p
    → Known (log ++ remove q ∷ []) required p
Known-remove log q required p differ known =
    let before = Known-last log required p known in
    Known-step log (remove q) required p known (
      rw (apply-append [] log (remove q ∷ []), listed-remove_text p q (apply [] log), differ)
        before)

-- Only what is known is removed.
abbrev pub Removable : List LocalTask → Type 0
Removable log =
    (front back : List LocalTask) (p : Text)
    → log ≡ front ++ remove p ∷ back
    → listed p (apply [] front) ≡ true

pub Removable-add :
    (log : List LocalTask) (q : Text) → Removable log → Removable (log ++ add q ∷ [])
Removable-add log q known front back p e =
    elim (append_one-split log (add q) front (remove p ∷ back) e) [
      | inl (all, nothing) ↦ absurd (cc nothing)
      | inr (rest, part, behind) ↦ later rest part behind
    ]
  where
    later :
        (rest : List LocalTask)
        → log ≡ front ++ rest
        → remove p ∷ back ≡ rest ++ add q ∷ []
        → listed p (apply [] front) ≡ true
    later [] part behind = absurd (cc behind)
    later (y ∷ rest) part behind =
        known front rest p (let head : y ≡ remove p = cc behind in rw head at part)

pub Removable-remove :
    (log : List LocalTask) (q : Text)
    → listed q (apply [] log) ≡ true
    → Removable log
    → Removable (log ++ remove q ∷ [])
Removable-remove log q here known front back p e =
    elim (append_one-split log (remove q) front (remove p ∷ back) e) [
      | inl (all, nothing) ↦ absurd (cc nothing)
      | inr (rest, part, behind) ↦ later rest part behind
    ]
  where
    later :
        (rest : List LocalTask)
        → log ≡ front ++ rest
        → remove p ∷ back ≡ rest ++ remove q ∷ []
        → listed p (apply [] front) ≡ true
    later [] part behind =
        let same : p ≡ q = cc behind in
        let all : front ≡ log = sym (append-nil front) ∙ sym part in rw (same, all) here
    later (y ∷ rest) part behind =
        known front rest p (let head : y ≡ remove p = cc behind in rw head at part)
