-- ===== src/Base/Equality.antt =====
-- Python's `==`, for every type whose equality is decided. The instances stay shut in proofs, where
-- a split on a test yields the equation or its negation; the tests unfold them.
use Prim.Native.Nat.{ℕ}
use Prim.Native.String.{String}
use mathlib.Core.Path.{◌≡◌, ap}
use mathlib.Core.Logic.{ite, dite, ◌⊎◌, inl, inr}
use native.Mathlib.Omega.{arith}
use mathlib.Core.Bool.{Bool, true, false, Bool-discrete}
use native.Mathlib.Decide.{ℕ_discrete}
use text.Mathlib.Text
use text.Mathlib.TextEquality.{eq_iff}

pub record Eq {ℓ} (A : Type ℓ) : Type ℓ where
  pub dec : Discrete A

infix 50 ◌==◌
abbrev pub ◌==◌ {ℓ} : {A : Type ℓ} ⦃e : Eq A⦄ → A → A → Bool
◌==◌ ⦃e⦄ a b = ite (e.dec a b) true false

instance unfoldable pub nat_eq : Eq ℕ
unfolding ℕ_discrete
nat_eq = record { dec = ℕ_discrete }

instance unfoldable pub string_eq : Eq String
string_eq = record {
  dec = λ s t.
      dite (Bool-discrete (Text.◌==◌ s t) true) (λ same. yes ((eq_iff s t).0 same))
        (λ differ. no (λ p. differ ((eq_iff s t).1 p)));
}

module _ {ℓ κ} {A : Type ℓ} {B : Type κ} ⦃d : Eq A⦄ ⦃e : Eq B⦄ where
  pair_dec : Discrete (A × B)
  pair_dec p q =
      dite (d.dec p.0 q.0)
        (λ same.
          dite (e.dec p.1 q.1) (λ same'. yes (λ i. (same i, same' i)))
            (λ differ. no (λ r. differ (ap (λ (x : A × B). x.1) r))))
        (λ differ. no (λ r. differ (ap (λ (x : A × B). x.0) r)))

  instance unfoldable pub pair_eq : Eq (A × B)
  unfolding pair_dec
  pair_eq = record { dec = pair_dec }

-- A test with the equation that it yields.
pub equal_or_not {ℓ} :
    {A : Type ℓ} ⦃e : Eq A⦄ (a b : A) → ((a == b ≡ true) × (a ≡ b)) ⊎ (a == b ≡ false)
equal_or_not ⦃e⦄ a b = elim (e.dec a b) [
  | yes same ↦ inl (ground arith, same)
  | no differ ↦ inr (ground arith)
]
