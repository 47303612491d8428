-- ===== src/Perm/Once.antt =====
-- perm/perm.py: `RootPerm` chooses one alternative for each PERM_ONCE key, and every choice has a seed.
use decomp_permuter_psyq.Prelude.{
  ℕ, ◌≡◌, refl, Bool, true, false, Option, none, some, List, [], ◌∷◌, ◌++◌, arith, if◌then◌else◌,
}
use decomp_permuter_psyq.Text.{Text}
use decomp_permuter_psyq.Text.Equality.{same_text, same_text_iff}
use decomp_permuter_psyq.Perm.Syntax.{
  Perm, Perms, text, ignore, pretend, combine, randomizer, force_sameline, general, once, var_read,
  var_set, line_swap, line_swap_ast, int_range, nil, cons,
}
use decomp_permuter_psyq.Perm.State.{Dict, get, put}
use decomp_permuter_psyq.Perm.Safety.{KeysIn, AllKeysIn}
use decomp_permuter_psyq.Perm.Root.{OnceOptions, add_option, preprocess, preprocess_all}

abbrev pub Has : {V : Type 0} → Dict V → Text → Type 0
Has {V} d key = (v : V) × (get d key ≡ some v)

pub get-put :
    {V : Type 0} (d : Dict V) (k j : Text) (v : V)
    → get (put d k v) j ≡ (if same_text k j then some v else get d j)
unfolding get put
get-put [] k j v = refl
get-put ((i, w) ∷ d) k j v =
    ground (arith, same_text_iff k j, same_text_iff i k, same_text_iff i j, get-put d k j v)

abbrev with_option : Option (List ℕ) → ℕ → List ℕ
with_option none self = self ∷ []
with_option (some options) self = options ++ self ∷ []

get-add_option :
    (d : OnceOptions) (k : Text) (self : ℕ) (j : Text)
    → get (add_option d k self) j
      ≡ (if same_text k j then some (with_option (get d k) self) else get d j)
unfolding get add_option
get-add_option [] k self j = refl
get-add_option ((i, w) ∷ d) k self j =
    ground
      (arith, same_text_iff k j, same_text_iff i k, same_text_iff i j, get-add_option d k self j)

pub some_if :
    {V : Type 0} (b : Bool) (v : V) (o : Option V)
    → (u : V) × (o ≡ some u)
    → (u : V) × ((if b then some v else o) ≡ some u)
some_if true v o h = (v, refl)
some_if false v o h = h

add_option-Has :
    (d : OnceOptions) (k : Text) (self : ℕ) (j : Text) → Has d j → Has (add_option d k self) j
add_option-Has d k self j h =
    rw (get-add_option d k self j)
      (some_if (same_text k j) (with_option (get d k) self) (get d j) h)

add_option-Has_self : (d : OnceOptions) (k : Text) (self : ℕ) → Has (add_option d k self) k
add_option-Has_self d k self =
    rw (get-add_option d k self k, (same_text_iff k k).1 refl) (with_option (get d k) self, refl)

-- what has a value in the one dictionary has one in the other
abbrev pub Covers : {V W : Type 0} → Dict V → Dict W → Type 0
Covers d d' = (j : Text) → Has d j → Has d' j

mutual
  unfolding KeysIn

  pub KeysIn-Covers :
      {V W : Type 0} (d : Dict V) (d' : Dict W) (p : Perm) → Covers d d' → KeysIn d p → KeysIn d' p
  KeysIn-Covers d d' (once self key p) c h = (c key h.0, KeysIn-Covers d d' p c h.1)
  KeysIn-Covers d d' (text t) c h = tt
  KeysIn-Covers d d' (ignore p) c h = KeysIn-Covers d d' p c h
  KeysIn-Covers d d' (pretend p) c h = KeysIn-Covers d d' p c h
  KeysIn-Covers d d' (combine ps) c h = AllKeysIn-Covers d d' ps c h
  KeysIn-Covers d d' (randomizer p) c h = KeysIn-Covers d d' p c h
  KeysIn-Covers d d' (force_sameline p) c h = KeysIn-Covers d d' p c h
  KeysIn-Covers d d' (general ps) c h = AllKeysIn-Covers d d' ps c h
  KeysIn-Covers d d' (var_read v) c h = KeysIn-Covers d d' v c h
  KeysIn-Covers d d' (var_set v e) c h = (KeysIn-Covers d d' v c h.0, KeysIn-Covers d d' e c h.1)
  KeysIn-Covers d d' (line_swap ps) c h = AllKeysIn-Covers d d' ps c h
  KeysIn-Covers d d' (line_swap_ast ps) c h = AllKeysIn-Covers d d' ps c h
  KeysIn-Covers d d' (int_range low high) c h = tt

  AllKeysIn-Covers :
      {V W : Type 0} (d : Dict V) (d' : Dict W) (ps : Perms)
      → Covers d d'
      → AllKeysIn d ps
      → AllKeysIn d' ps
  AllKeysIn-Covers d d' nil c h = tt
  AllKeysIn-Covers d d' (cons p ps) c h =
      (KeysIn-Covers d d' p c h.0, AllKeysIn-Covers d d' ps c h.1)

mutual
  unfolding preprocess

  preprocess-Covers : (p : Perm) (st : OnceOptions) → Covers st (preprocess p st)
  preprocess-Covers (once self key p) st j h =
      preprocess-Covers p (add_option st key self) j (add_option-Has st key self j h)
  preprocess-Covers (text t) st j h = h
  preprocess-Covers (ignore p) st j h = preprocess-Covers p st j h
  preprocess-Covers (pretend p) st j h = preprocess-Covers p st j h
  preprocess-Covers (combine ps) st j h = preprocess_all-Covers ps st j h
  preprocess-Covers (randomizer p) st j h = preprocess-Covers p st j h
  preprocess-Covers (force_sameline p) st j h = preprocess-Covers p st j h
  preprocess-Covers (general ps) st j h = preprocess_all-Covers ps st j h
  preprocess-Covers (var_read v) st j h = preprocess-Covers v st j h
  preprocess-Covers (var_set v e) st j h =
      preprocess-Covers e (preprocess v st) j (preprocess-Covers v st j h)
  preprocess-Covers (line_swap ps) st j h = preprocess_all-Covers ps st j h
  preprocess-Covers (line_swap_ast ps) st j h = preprocess_all-Covers ps st j h
  preprocess-Covers (int_range low high) st j h = h

  preprocess_all-Covers : (ps : Perms) (st : OnceOptions) → Covers st (preprocess_all ps st)
  preprocess_all-Covers nil st j h = h
  preprocess_all-Covers (cons p ps) st j h =
      preprocess_all-Covers ps (preprocess p st) j (preprocess-Covers p st j h)

mutual
  unfolding preprocess KeysIn

  pub preprocess-KeysIn : (p : Perm) (st : OnceOptions) → KeysIn (preprocess p st) p
  preprocess-KeysIn (once self key p) st = (
    preprocess-Covers p (add_option st key self) key (add_option-Has_self st key self),
    preprocess-KeysIn p (add_option st key self),
  )
  preprocess-KeysIn (text t) st = tt
  preprocess-KeysIn (ignore p) st = preprocess-KeysIn p st
  preprocess-KeysIn (pretend p) st = preprocess-KeysIn p st
  preprocess-KeysIn (combine ps) st = preprocess_all-AllKeysIn ps st
  preprocess-KeysIn (randomizer p) st = preprocess-KeysIn p st
  preprocess-KeysIn (force_sameline p) st = preprocess-KeysIn p st
  preprocess-KeysIn (general ps) st = preprocess_all-AllKeysIn ps st
  preprocess-KeysIn (var_read v) st = preprocess-KeysIn v st
  preprocess-KeysIn (var_set v e) st = (
    KeysIn-Covers (preprocess v st) (preprocess e (preprocess v st)) v
        (preprocess-Covers e (preprocess v st)) (preprocess-KeysIn v st),
    preprocess-KeysIn e (preprocess v st),
  )
  preprocess-KeysIn (line_swap ps) st = preprocess_all-AllKeysIn ps st
  preprocess-KeysIn (line_swap_ast ps) st = preprocess_all-AllKeysIn ps st
  preprocess-KeysIn (int_range low high) st = tt

  preprocess_all-AllKeysIn : (ps : Perms) (st : OnceOptions) → AllKeysIn (preprocess_all ps st) ps
  preprocess_all-AllKeysIn nil st = tt
  preprocess_all-AllKeysIn (cons p ps) st = (
    KeysIn-Covers (preprocess p st) (preprocess_all ps (preprocess p st)) p
        (preprocess_all-Covers ps (preprocess p st)) (preprocess-KeysIn p st),
    preprocess_all-AllKeysIn ps (preprocess p st),
  )
