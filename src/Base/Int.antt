-- ===== src/Base/Int.antt =====
-- Go's signed integers (int32, int64) by their value. The code reads, stores and compares ports and
-- thresholds and does no arithmetic on them that could wrap round; the one conversion to an int32 is
-- `to_int32` of Rules/Ec2.
use Prim.Native.Nat.{ℕ}
use native.Mathlib.Decide.{ℕ_discrete}
use cloud_provider_osc.Base.Equality.{Eq}

-- `negsuc n` is -(n + 1).
pub data ℤ : Type 0 where
  pos : ℕ → ℤ
  negsuc : ℕ → ℤ

ℤ-discrete : Discrete ℤ
unfolding ℕ_discrete
ℤ-discrete (pos a) (pos b) = elim (ℕ_discrete a b) [ yes p ↦ yes (cc) | no n ↦ no (λ r. n (cc)) ]
ℤ-discrete (pos a) (negsuc b) = no (λ p. cc)
ℤ-discrete (negsuc a) (pos b) = no (λ p. cc)
ℤ-discrete (negsuc a) (negsuc b) = elim (ℕ_discrete a b) [
  | yes p ↦ yes (cc)
  | no n ↦ no (λ r. n (cc))
]

instance unfoldable pub int_eq : Eq ℤ
unfolding ℤ-discrete
int_eq = record { dec = ℤ-discrete }
