-- ===== src/Auth/Error.antt =====
-- picomq/pico-auth/src/error.rs: why authentication or authorization failed. The text of a store
-- failure is left out.
use picomq.Prelude.{Bool, true, false}

pub data AuthError : Type 0 where
  unauthenticated malformed expired wrong_audience denied narrowing_rejected store : AuthError

unfoldable pub is_client : AuthError → Bool
is_client store = false
is_client _ = true

pub data Result {ℓ} (A : Type ℓ) : Type ℓ where
  ok : A → Result A
  err : AuthError → Result A
