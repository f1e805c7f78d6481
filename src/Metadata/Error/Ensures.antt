-- ===== src/Metadata/Error/Ensures.antt =====
-- Postconditions of fallible code: `Ensures Q r` says that every value which `r` returns is in `Q`,
-- with a rule for each way to build such code.
use mathlib.Core.Path.{subst}
use picomq.Prelude.{◌≡◌, refl, ap, Bool, true, false, if◌then◌else◌}
use picomq.Metadata.Error.{MetadataError, Result, ok, err, ◌>>=◌, ◌>>◌, fail_if}

pub record Ensures {ℓ κ} {A : Type ℓ} (Q : A → Type κ) (r : Result A) : Type (ℓ ⊔ κ) where
  pub holds : (a : A) → r ≡ ok a → Q a

value_or {ℓ} : {A : Type ℓ} → A → Result A → A
value_or d (ok a) = a
value_or d (err e) = d

ok-injective {ℓ} : {A : Type ℓ} {a b : A} → ok a ≡ ok b → a ≡ b
unfolding value_or
ok-injective {a = a} p = ap (value_or a) p

module _ {ℓ κ} {A : Type ℓ} {Q : A → Type κ} where
  pub Ensures-ok : {a : A} → Q a → Ensures Q (ok a)
  Ensures-ok q = record { holds = λ b e. subst Q (ok-injective e) q }

  pub Ensures-err : (e : MetadataError) → Ensures Q (err e)
  Ensures-err e = record { holds = λ b p. cc }

  -- After a guard the code goes on with the test's outcome known.
  pub Ensures-fail_if :
      (b : Bool) (e : MetadataError) (m : Result A)
      → (b ≡ false → Ensures Q m)
      → Ensures Q (fail_if b e >> m)
  unfolding ◌>>◌
  Ensures-fail_if true e m h = Ensures-err e
  Ensures-fail_if false e m h = h refl

  pub Ensures-if :
      (b : Bool) (m n : Result A)
      → (b ≡ true → Ensures Q m)
      → (b ≡ false → Ensures Q n)
      → Ensures Q (if b then m else n)
  Ensures-if true m n hm hn = hm refl
  Ensures-if false m n hm hn = hn refl

  pub Ensures-check :
      (c : Result (Unit {0})) (m : Result A) → (c ≡ ok tt → Ensures Q m) → Ensures Q (c >> m)
  unfolding ◌>>◌
  Ensures-check (ok tt) m h = h refl
  Ensures-check (err e) m h = Ensures-err e

module _ {ℓ κ μ} {A : Type ℓ} {B : Type κ} {Q : B → Type μ} where
  pub Ensures-bind :
      (m : Result A) (f : A → Result B)
      → ((a : A) → m ≡ ok a → Ensures Q (f a))
      → Ensures Q (m >>= f)
  unfolding ◌>>=◌
  Ensures-bind (ok a) f h = h a refl
  Ensures-bind (err e) f h = record { holds = λ b p. cc }
