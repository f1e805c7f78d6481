-- ===== src/Wire/Reads.antt =====
-- Readers of what was written: a reader takes back a value off the bytes of it, whatever follows.
use picomq.Prelude.{
  ℕ, ◌≡◌, refl, Bool, false, List, [], ◌∷◌, ◌++◌, arith, length, ltb, nat_ord, Bytes,
  length-append_lists, take-append_length, drop-append_length, All,
}
use mathlib.Core.List.{append_assoc}
use mathlib.Core.Path.{subst}
use picomq.Wire.Words.{be, le, length-be, length-le}
use picomq.Wire.Buffer.{ok, Reader, ◌>>=◌, pure, many, chunk, reject_if}

pub record Reads {ℓ κ} {E : Type ℓ} {A : Type κ} (p : Reader E A) (bytes : Bytes) (a : A)
    : Type (ℓ ⊔ κ) where
  pub reads : (rest : Bytes) → p (bytes ++ rest) ≡ ok (a, rest)

-- The bytes of a list, element by element.
unfoldable pub join {ℓ} : {A : Type ℓ} → (A → Bytes) → List A → Bytes
join f [] = []
join f (x ∷ xs) = f x ++ join f xs

module _ {ℓ κ κ'} {E : Type ℓ} {A : Type κ} {B : Type κ'} where
  pub Reads-bind :
      (f : A → Reader E B) {p : Reader E A} {xs ys : Bytes} {a : A} {b : B}
      → Reads p xs a
      → Reads (f a) ys b
      → Reads (p >>= f) (xs ++ ys) b
  unfolding ◌>>=◌
  Reads-bind f {xs} {ys} r s = record {
    reads = λ rest. rw (append_assoc xs ys rest, r.reads (ys ++ rest)) (s.reads rest);
  }

  -- The last step of a reader, which builds the value.
  pub Reads-map :
      (f : A → B) {p : Reader E A} {xs : Bytes} {a : A}
      → Reads p xs a
      → Reads (p >>= λ (x : A). pure (f x)) xs (f a)
  unfolding ◌>>=◌ pure
  Reads-map f r = record { reads = λ rest. rw (r.reads rest) }

  pub Reads-skip :
      (f : A → Reader E B) {p : Reader E A} {ys : Bytes} {a : A} {b : B}
      → Reads p [] a
      → Reads (f a) ys b
      → Reads (p >>= f) ys b
  unfolding ◌>>=◌
  Reads-skip f {ys} r s = record { reads = λ rest. rw (r.reads (ys ++ rest)) (s.reads rest) }

  -- A step that takes no more bytes.
  pub Reads-last :
      (f : A → Reader E B) {p : Reader E A} {xs : Bytes} {a : A} {b : B}
      → Reads p xs a
      → Reads (f a) [] b
      → Reads (p >>= f) xs b
  unfolding ◌>>=◌
  Reads-last f r s = record { reads = λ rest. rw (r.reads rest) (s.reads rest) }

module _ {ℓ κ} {E : Type ℓ} {A : Type κ} where
  pub Reads-pure : (a : A) → Reads {E = E} (pure a) [] a
  unfolding pure
  Reads-pure a = record { reads = λ rest. refl }

module _ {ℓ κ} {E : Type ℓ} {A : Type κ} where
  pub Reads-many :
      (p : Reader E A) (f : A → Bytes) (xs : List A)
      → All (λ (x : A). Reads p (f x) x) xs
      → Reads (many (length xs) p) (join f xs) xs
  unfolding many join
  Reads-many p f [] h = Reads-pure []
  Reads-many p f (x ∷ xs) (r, rs) = Reads-bind _ r (Reads-map _ (Reads-many p f xs rs))

module _ {ℓ} {E : Type ℓ} where
  pub Reads-chunk : (e : E) (xs : Bytes) → Reads (chunk e (length xs)) xs xs
  unfolding chunk
  Reads-chunk e xs = record {
    reads = λ rest. rw (fits rest, take-append_length xs rest, drop-append_length xs rest) refl;
  }
    where
      fits : (rest : Bytes) → ltb (length (xs ++ rest)) (length xs) ≡ false
      fits rest = ground (arith, length-append_lists xs rest)

  pub Reads-reject_if : (e : E) {b : Bool} → b ≡ false → Reads (reject_if b e) [] tt
  unfolding reject_if pure
  Reads-reject_if e h = record { reads = λ rest. rw h refl }

  pub Reads-be : (e : E) (n v : ℕ) → Reads (chunk e n) (be n v) (be n v)
  Reads-be e n v = rw (length-be n v) at (Reads-chunk e (be n v))

  pub Reads-le : (e : E) (n v : ℕ) → Reads (chunk e n) (le n v) (le n v)
  Reads-le e n v = rw (length-le n v) at (Reads-chunk e (le n v))

pub Reads-eq {ℓ κ} :
    {E : Type ℓ} {A : Type κ} {p : Reader E A} {xs : Bytes} {a b : A}
    → Reads p xs a
    → a ≡ b
    → Reads p xs b
Reads-eq {p} {xs} r e = subst (Reads p xs) e r
