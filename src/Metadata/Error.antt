-- ===== src/Metadata/Error.antt =====
-- picomq/pico-metadata/src/error.rs: the errors of the metadata plane. The structured fields are
-- kept; the formatted messages, which no code reads back, are left out.
pub mod Ensures
use picomq.Prelude.{ℕ, Bool, true, false, ℤ}

pub data MetadataError : Type 0 where
  stream_not_exist : ℕ → MetadataError
  stream_not_closed : ℕ → MetadataError
  stream_fenced : ℕ → ℤ → MetadataError
  expired_epoch : ℕ → ℤ → MetadataError
  node_epoch_mismatch : ℤ → MetadataError
  redundant : MetadataError
  no_live_node : MetadataError
  unavailable : MetadataError
  unexpected : MetadataError

unfoldable pub code : MetadataError → ℕ
code (stream_not_exist _) = 1
code (stream_not_closed _) = 2
code (stream_fenced _ _) = 3
code (expired_epoch _ _) = 4
code (node_epoch_mismatch _) = 5
code redundant = 6
code no_live_node = 7
code unavailable = 8
code unexpected = 99

unfoldable pub is_redundant : MetadataError → Bool
is_redundant redundant = true
is_redundant _ = false

pub data Result {ℓ} (A : Type ℓ) : Type ℓ where
  ok : A → Result A
  err : MetadataError → Result A

-- Both stay shut, so that a step is found by its head; to open `>>` opens `>>=`.
infixl 5 ◌>>=◌ ◌>>◌
unfoldable pub ◌>>=◌ {ℓ κ} : {A : Type ℓ} {B : Type κ} → Result A → (A → Result B) → Result B
ok a >>= f = f a
err e >>= f = err e

unfoldable pub ◌>>◌ {ℓ} : {B : Type ℓ} → Result (Unit {0}) → Result B → Result B
unfolding ◌>>=◌
m >> k = m >>= λ _. k

-- `if failing { return Err(e) }`
abbrev pub fail_if : Bool → MetadataError → Result (Unit {0})
fail_if true e = err e
fail_if false e = ok tt
