-- ===== src/Wire/Buffer.antt =====
-- A reader takes values off the front of a byte slice, as code with a `buf: &mut &[u8]` and `?` does.
use picomq.Prelude.{
  ℕ, zero, suc, Bool, true, false, List, [], ◌∷◌, length, ltb, nat_ord, take, if◌then◌else◌, drop,
  Bytes, ◌≡◌, refl,
}

pub data Outcome {ℓ κ} (E : Type ℓ) (A : Type κ) : Type (ℓ ⊔ κ) where
  ok : A → Outcome E A
  err : E → Outcome E A

abbrev pub Reader {ℓ κ} : Type ℓ → Type κ → Type (ℓ ⊔ κ)
Reader E A = Bytes → Outcome E (A × Bytes)

module _ {ℓ κ κ'} {E : Type ℓ} {A : Type κ} {B : Type κ'} where
  abbrev pub bind : Outcome E A → (A → Outcome E B) → Outcome E B
  bind (ok a) f = f a
  bind (err e) f = err e

  -- What a sequence of two steps returned, both returned.
  pub bind-ok :
      (r : Outcome E A) (f : A → Outcome E B) (b : B)
      → bind r f ≡ ok b
      → (a : A) × (r ≡ ok a) × (f a ≡ ok b)
  bind-ok (ok a) f b h = (a, refl, h)
  bind-ok (err e) f b h = cc

module _ {ℓ κ κ'} {E : Type ℓ} {A : Type κ} {B : Type κ'} where
  infixl 5 ◌>>=◌
  unfoldable pub ◌>>=◌ : Reader E A → (A → Reader E B) → Reader E B
  (p >>= f) buf = bind (p buf) λ ((a, rest) : A × Bytes). f a rest

module _ {ℓ κ} {E : Type ℓ} {A : Type κ} where
  unfoldable pub pure : A → Reader E A
  pure a buf = ok (a, buf)

  unfoldable pub failing : E → Reader E A
  failing e buf = err e

module _ {ℓ κ} {E : Type ℓ} {A : Type κ} where
  -- `for _ in 0..n { v.push(p(buf)?) }`
  unfoldable pub many : ℕ → Reader E A → Reader E (List A)
  unfolding ◌>>=◌ pure
  many zero p = pure []
  many (suc n) p = p >>= λ a. many n p >>= λ rest. pure (a ∷ rest)

module _ {ℓ} {E : Type ℓ} where
  -- The next `n` bytes, after the check that they are there.
  unfoldable pub chunk : E → ℕ → Reader E Bytes
  chunk e n buf = if ltb (length buf) n then err e else ok (take n buf, drop n buf)

  -- A guard: `if failing { return Err(e) }`.
  unfoldable pub reject_if : Bool → E → Reader E (Unit {0})
  unfolding pure failing
  reject_if true e = failing e
  reject_if false e = pure tt
