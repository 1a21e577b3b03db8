-- ===== src/Prelude/Numbers.antt =====
-- The operations of JavaScript's `number` that the client uses. They are an interface: the client's
-- prices are doubles, and its theorems hold for whatever the operations are, unless they ask for
-- the laws of `IsExact`, which hold where no sum is rounded.
use Prim.Native.Nat.{ℕ, ◌+◌, ◌-◌, ◌*◌, ◌/◌}
use mathlib.Core.Path.{◌≡◌}
use mathlib.Core.Bool.{Bool}
use native.Mathlib.Omega.{arith}
use why_not_grace_pos.Prelude.Tests.{leb, ltb, nat_eq}

pub record Number {ℓ} (N : Type ℓ) : Type ℓ where
  pub of_ℕ : ℕ → N
  pub add : N → N → N
  pub sub : N → N → N
  pub mul : N → N → N
  pub div : N → N → N
  pub le : N → N → Bool
  pub lt : N → N → Bool
  pub same : N → N → Bool
  pub round : N → N

-- Sums of amounts that are not rounded.
pub record IsExact {ℓ} (N : Type ℓ) ⦃n : Number N⦄ : Type ℓ where
  pub zero_add : (x : N) → n.add (n.of_ℕ 0) x ≡ x
  pub add_comm : (x y : N) → n.add x y ≡ n.add y x
  pub add_assoc : (x y z : N) → n.add (n.add x y) z ≡ n.add x (n.add y z)

-- Whole amounts that are not negative meet them.
instance abbrev pub whole_Number : Number ℕ
whole_Number = record {
  of_ℕ = λ n. n;
  add = λ x y. x + y;
  sub = λ x y. x - y;
  mul = λ x y. x * y;
  div = λ x y. x / y;
  le = leb;
  lt = ltb;
  same = nat_eq;
  round = λ x. x;
}

pub whole-IsExact : IsExact ℕ
whole-IsExact = ground arith
