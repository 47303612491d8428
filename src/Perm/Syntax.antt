-- ===== src/Perm/Syntax.antt =====
-- perm/perm.py: the subclasses of `Perm`, and `perm_count`, `is_random`.
use decomp_permuter_psyq.Prelude.{ℕ, zero, suc, ◌+◌, ◌*◌, Bool, true, false, ◌||◌, List, [], ◌∷◌}
use decomp_permuter_psyq.Prelude.Int.{ℤ, pos_part, ◌-ℤ◌}
use decomp_permuter_psyq.Text.{Text, unescape_commas}

-- A constructor for each class but `RootPerm`. A `OncePerm` is compared by identity (`is self`), so
-- it carries the number of the object. A `VarPerm` has one child or two: `var_read` and `var_set`.
mutual
  pub data Perm : Type 0 where
    text : Text → Perm
    ignore : Perm → Perm
    pretend : Perm → Perm
    combine : Perms → Perm
    randomizer : Perm → Perm
    force_sameline : Perm → Perm
    general : Perms → Perm
    once : ℕ → Text → Perm → Perm
    var_read : Perm → Perm
    var_set : Perm → Perm → Perm
    line_swap : Perms → Perm
    line_swap_ast : Perms → Perm
    int_range : ℤ → ℤ → Perm

  pub data Perms : Type 0 where
    nil : Perms
    cons : Perm → Perms → Perms

-- `TextPerm.__init__`, which resolves the comma escape
unfoldable pub text_perm : Text → Perm
unfolding unescape_commas
text_perm t = text (unescape_commas t)

unfoldable pub perms_length : Perms → ℕ
perms_length nil = 0
perms_length (cons p ps) = suc (perms_length ps)

unfoldable pub from_list : List Perm → Perms
from_list [] = nil
from_list (p ∷ ps) = cons p (from_list ps)

unfoldable pub factorial : ℕ → ℕ
factorial zero = 1
factorial (suc n) = suc n * factorial n

-- `high - low + 1`, for `low <= high`
unfoldable pub range_count : ℤ → ℤ → ℕ
unfolding ◌-ℤ◌
range_count low high = pos_part (high -ℤ low) + 1

-- `perm_count`, `_count_all` and `_count_either`
unfoldable mutual
  unfolding perms_length factorial range_count

  pub perm_count : Perm → ℕ
  perm_count (text t) = 1
  perm_count (ignore p) = perm_count p
  perm_count (pretend p) = perm_count p
  perm_count (combine ps) = count_all ps
  perm_count (randomizer p) = perm_count p
  perm_count (force_sameline p) = perm_count p
  perm_count (general ps) = count_either ps
  perm_count (once i key p) = perm_count p
  perm_count (var_read v) = perm_count v
  perm_count (var_set v e) = perm_count v * perm_count e
  perm_count (line_swap ps) = factorial (perms_length ps) * count_all ps
  perm_count (line_swap_ast ps) = factorial (perms_length ps) * count_all ps
  perm_count (int_range low high) = range_count low high

  pub count_all : Perms → ℕ
  count_all nil = 1
  count_all (cons p ps) = perm_count p * count_all ps

  pub count_either : Perms → ℕ
  count_either nil = 0
  count_either (cons p ps) = perm_count p + count_either ps

-- `is_random`
unfoldable mutual
  pub is_random : Perm → Bool
  is_random (text t) = false
  is_random (ignore p) = is_random p
  is_random (pretend p) = is_random p
  is_random (combine ps) = any_random ps
  is_random (randomizer p) = true
  is_random (force_sameline p) = is_random p
  is_random (general ps) = any_random ps
  is_random (once i key p) = is_random p
  is_random (var_read v) = is_random v
  is_random (var_set v e) = is_random v || is_random e
  is_random (line_swap ps) = any_random ps
  is_random (line_swap_ast ps) = any_random ps
  is_random (int_range low high) = false

  pub any_random : Perms → Bool
  any_random nil = false
  any_random (cons p ps) = is_random p || any_random ps
