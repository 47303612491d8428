-- ===== src/Prelude/Digits.antt =====
-- One digit of a number in a mixed radix: taking it off and putting it back.
use Prim.Native.Nat.{ℕ, ◌+◌, ◌*◌, ◌/◌, ◌%◌, ◌<◌}
use mathlib.Core.Path.{◌≡◌}
use native.Mathlib.Omega.{arith}
use native.Mathlib.Nat.{
  mod-eq_of_lt, add-mul-mod_self_left, add-mul-div_left, div-eq_of_lt, mod-add-div,
}

pub digit-mod : (s k c : ℕ) → s < c → (s + c * k) % c ≡ s
digit-mod s k c h = rw (add-mul-mod_self_left s c k, mod-eq_of_lt h)

pub digit-div : (s k c : ℕ) → s < c → (s + c * k) / c ≡ k
digit-div s k c h = rw (add-mul-div_left s k {y = c} (omega arith), div-eq_of_lt h) (omega arith)

pub digit-lt : (s k c m : ℕ) → s < c → k < m → s + c * k < c * m
digit-lt s k c m h g = grind arith

pub div-lt_of_lt-mul : (n c m : ℕ) → n < c * m → n / c < m
div-lt_of_lt-mul n c m h = grind (arith, mod-add-div n c)

pub mod-lt_of_lt-mul : (n c m : ℕ) → n < c * m → n % c < c
mod-lt_of_lt-mul n c m h = grind arith
