-- ===== src/Prelude/Equality.antt =====
-- Decidable equality as an interface, for the keys of maps and the tests of the code.
use Prim.Native.Nat.{ℕ}
use Prim.Native.String.{String}
use mathlib.Core.Path.{◌≡◌, refl}
use mathlib.Core.Logic.{◌↔◌}
use mathlib.Core.Bool.{Bool, true}
use text.Mathlib.Text.{◌==◌ as str_eq}
use text.Mathlib.TextEquality.{eq_iff}
use xjp_deploy_agent.Prelude.Tests.{nat_beq, nat_beq_iff}

-- `PartialEq`: a test that decides equality.
pub record Eq {ℓ} (K : Type ℓ) : Type ℓ where
  pub is_same : K → K → Bool
  pub is_same_iff : (left right : K) → (is_same left right ≡ true) ↔ (left ≡ right)

pub beq_refl {ℓ} : {K : Type ℓ} ⦃keys : Eq K⦄ (k : K) → keys.is_same k k ≡ true
beq_refl ⦃keys⦄ k = (keys.is_same_iff k k).1 refl

instance abbrev pub string_eq : Eq String
string_eq = record { is_same = str_eq; is_same_iff = eq_iff }

infix 50 ◌==◌
abbrev pub ◌==◌ {ℓ} : {K : Type ℓ} ⦃keys : Eq K⦄ → K → K → Bool
◌==◌ ⦃keys⦄ left right = keys.is_same left right

instance abbrev pub nat_eq : Eq ℕ
nat_eq = record { is_same = nat_beq; is_same_iff = nat_beq_iff }
