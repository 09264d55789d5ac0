-- ===== src/Python/Ensures.antt =====
-- What a computation ensures of the value that it returns, with a rule for each way to build one.
use service_oriented_archite.Base.{◌≡◌, refl, subst, Bool, true, false, if◌then◌else◌}
use service_oriented_archite.Python.Exception.{Exn, Result, ok, raise, ◌>>=◌, ◌>>◌, raise_if}

pub record Ensures {ℓ κ} {A : Type ℓ} (P : A → Type κ) (m : Result A) : Type (ℓ ⊔ κ) where
  pub at : (a : A) → m ≡ ok a → P a

module _ {ℓ κ} {A : Type ℓ} {P : A → Type κ} where
  pub Ensures-ok : (a : A) → P a → Ensures P (ok a)
  Ensures-ok a h = record { at = λ b e. subst P (cc) h }

  pub Ensures-raise : (e : Exn) → Ensures P (raise e)
  Ensures-raise e = record { at = λ b k. cc }

  pub Ensures-if :
      (b : Bool) (m n : Result A)
      → (b ≡ true → Ensures P m)
      → (b ≡ false → Ensures P n)
      → Ensures P (if b then m else n)
  Ensures-if true m n hm hn = hm refl
  Ensures-if false m n hm hn = hn refl

  -- What stands behind a guard may use that the guard let it pass.
  pub Ensures-guard :
      (b : Bool) (e : Exn) (m : Result A)
      → (b ≡ false → Ensures P m)
      → Ensures P (raise_if b e >> m)
  unfolding ◌>>◌ raise_if
  Ensures-guard true e m h = Ensures-raise e
  Ensures-guard false e m h = h refl

  pub Ensures-then :
      (m : Result (Unit {0})) (k : Result A) → (m ≡ ok tt → Ensures P k) → Ensures P (m >> k)
  unfolding ◌>>◌
  Ensures-then (ok _) k h = h refl
  Ensures-then (raise e) k h = Ensures-raise e

module _ {ℓ κ} {A : Type ℓ} {P Q : A → Type κ} where
  pub Ensures-mono : (m : Result A) → ((a : A) → P a → Q a) → Ensures P m → Ensures Q m
  Ensures-mono m f h = record { at = λ a e. f a (h.at a e) }

module _ {ℓ κ} {A B : Type ℓ} {P : B → Type κ} where
  pub Ensures-bind :
      (m : Result A) (f : A → Result B)
      → ((a : A) → m ≡ ok a → Ensures P (f a))
      → Ensures P (m >>= f)
  unfolding ◌>>=◌
  Ensures-bind (ok a) f h = h a refl
  Ensures-bind (raise e) f h = Ensures-raise e
