-- ===== src/Auth/Authorizer.antt =====
-- picomq/pico-auth/src/authorizer.rs and token.rs: the authentication of a request. The store, the
-- base64 decoder and the SHA-256 of the verifier are not in the repository: the store's answer, the
-- decoder and the hash are parameters.
pub mod Sound
pub mod Issued
use picomq.Prelude.{
  ◌++◌, ℕ, ◌≡◌, Bool, true, false, not, ◌&&◌, ◌||◌, Option, none, some, List, [], ◌∷◌, nat_ord,
  bytes_ord, ◌==◌, ltb, leb, ℤ, if◌then◌else◌, length, is_empty, Text, Bytes, contains, map,
  map_option, trim, ◌+◌,
}
use picomq.OrdMap.{OrdMap, get, insert, remove}
use picomq.Wire.{is_utf8}
use picomq.Auth.Error.{
  AuthError, Result, ok, err, unauthenticated, malformed, expired, wrong_audience,
}
use picomq.Auth.Operation.{Audience}
use picomq.Auth.Scope.{is_expired, allows_audience}
use picomq.Auth.Same.{same_record}
use picomq.Auth.Record.{TokenRecord, id_min_len, id_max_len}

pub record AccessToken : Type 0 where
  pub id : Text
  pub secret : Bytes

-- `Result::and_then`, for `?`.
infixl 5 ◌>>=◌
unfoldable pub ◌>>=◌ {ℓ κ} : {A : Type ℓ} {B : Type κ} → Result A → (A → Result B) → Result B
ok a >>= f = f a
err e >>= f = err e

abbrev fail_if : Bool → AuthError → Result (Unit {0})
fail_if true e = err e
fail_if false e = ok tt

-- What third-party code does: `URL_SAFE_NO_PAD`, and SHA-256.
pub record Crypto : Type 0 where
  pub encode64 : Bytes → Text
  pub decode64 : Text → Option Bytes
  pub sha256 : Bytes → Bytes

-- "picomq-access-token"
abbrev verify_domain : Bytes
verify_domain =
    112 ∷ 105 ∷ 99 ∷ 111 ∷ 109 ∷ 113 ∷ 45 ∷ 97 ∷ 99 ∷ 99 ∷ 101 ∷ 115 ∷ 115 ∷ 45 ∷ 116 ∷ 111 ∷ 107
    ∷ 101 ∷ 110 ∷ []

abbrev pub space : ℕ
space = 32

abbrev pub full_stop : ℕ
full_stop = 46

-- `split_once`: before and after the first occurrence.
unfoldable pub split_once : ℕ → Text → Option (Text × Text)
split_once c [] = none
split_once c (x ∷ xs) =
    let rest = split_once c xs in
    if x == c then some ([], xs) else map_option (λ ((a, b) : Text × Text). (x ∷ a, b)) rest

abbrev pub ascii_lower : ℕ → ℕ
ascii_lower c = if leb 65 c && leb c 90 then c + 32 else c

-- "bearer"
abbrev pub bearer : Text
bearer = 98 ∷ 101 ∷ 97 ∷ 114 ∷ 101 ∷ 114 ∷ []

unfoldable pub strip_bearer : Text → Text
unfolding split_once trim
strip_bearer raw =
    let trimmed = trim raw in
    elim (split_once space trimmed) [
      | none ↦ trimmed
      | some (scheme, rest) ↦ if map ascii_lower scheme == bearer then trim rest else trimmed
    ]

abbrev or_malformed {ℓ} : {A : Type ℓ} → Option A → Result A
or_malformed none = err malformed
or_malformed (some a) = ok a

abbrev pub secret_len : ℕ
secret_len = 32

abbrev pub Cache : Type 0
Cache = OrdMap Text TokenRecord

-- The cached record is kept where it equals the fresh one, which else takes its place.
unfoldable pub intern : TokenRecord → Cache → TokenRecord × Cache
intern fresh cache = elim (get fresh.id cache) [
  | none ↦ (fresh, insert fresh.id fresh cache)
  | some cached ↦
      if same_record cached fresh then (cached, cache) else (fresh, insert fresh.id fresh cache)
]

-- A result next to the cache that the call leaves.
abbrev pub Answer : Type 0
Answer = Result TokenRecord × Cache

abbrev interned : TokenRecord × Cache → Answer
interned (r, cache) = (ok r, cache)

-- "anonymous"
abbrev pub anonymous_token_id : Text
anonymous_token_id = 97 ∷ 110 ∷ 111 ∷ 110 ∷ 121 ∷ 109 ∷ 111 ∷ 117 ∷ 115 ∷ []

unfoldable pub invalidate : Text → Cache → Cache
invalidate id cache = remove id cache

module _ (crypto : Crypto) where
  unfoldable pub parse_parts : Text → Text → Result AccessToken
  unfolding ◌>>=◌
  parse_parts id_b64 secret_b64 =
      fail_if (is_empty id_b64 || is_empty secret_b64 || contains full_stop secret_b64) malformed
      >>= λ _. or_malformed (crypto.decode64 id_b64) >>= λ id.
          fail_if (not (is_utf8 id)) malformed >>= λ _.
          fail_if (ltb (length id) id_min_len || ltb id_max_len (length id)) malformed >>= λ _.
          or_malformed (crypto.decode64 secret_b64) >>= λ secret.
          fail_if (not (length secret == secret_len)) malformed >>= λ _.
          ok (record { id = id; secret = secret })

  unfoldable pub parse : Text → Result AccessToken
  unfolding split_once trim parse_parts
  parse raw = elim (split_once full_stop (trim raw)) [
    | none ↦ err malformed
    | some (id_b64, secret_b64) ↦ parse_parts id_b64 secret_b64
  ]

  unfoldable pub from_secret : Bytes → Bytes
  from_secret secret = crypto.sha256 (verify_domain ++ secret)

  unfoldable pub matches_secret : Bytes → Bytes → Bool
  matches_secret verifier secret = verifier == from_secret secret

  -- `secret` is what the random source gave.
  unfoldable pub issue : Text → Bytes → Result (AccessToken × Bytes)
  unfolding ◌>>=◌
  issue id secret =
      fail_if (ltb (length id) id_min_len || ltb id_max_len (length id)) malformed >>= λ _.
      ok (record { id = id; secret = secret }, from_secret secret)

  unfoldable pub render : AccessToken → Text
  render token = crypto.encode64 token.id ++ (full_stop ∷ crypto.encode64 token.secret)

  unfoldable pub check_fresh : AccessToken → Audience → ℤ → TokenRecord → Cache → Answer
  unfolding matches_secret intern
  check_fresh access audience now_ms fresh cache =
      if not (matches_secret fresh.verifier access.secret)
      then (err unauthenticated, cache)
      else if is_expired fresh.scope now_ms
      then (err expired, cache)
      else if not (allows_audience fresh.scope audience)
      then (err wrong_audience, cache)
      else if not (fresh.id == access.id)
      then (err unauthenticated, cache)
      else interned (intern fresh cache)

  -- `fetched` is what the store answers to `get` when the call waits for it.
  unfoldable pub with_token :
      AccessToken → (Text → Result (Option TokenRecord)) → Audience → ℤ → Cache → Answer
  unfolding check_fresh
  with_token access fetched audience now_ms cache = elim (fetched access.id) [
    | err e ↦ (err e, cache)
    | ok none ↦ (err unauthenticated, remove access.id cache)
    | ok (some fresh) ↦ check_fresh access audience now_ms fresh cache
  ]

  unfoldable pub authenticate :
      Text → (Text → Result (Option TokenRecord)) → Audience → ℤ → Cache → Answer
  unfolding strip_bearer parse with_token
  authenticate credential fetched audience now_ms cache = elim (parse (strip_bearer credential)) [
    | err e ↦ (err e, cache)
    | ok access ↦ with_token access fetched audience now_ms cache
  ]

unfoldable pub check_refreshed : TokenRecord → ℤ → TokenRecord → Cache → Answer
unfolding intern
check_refreshed principal now_ms fresh cache =
    if not (fresh.verifier == principal.verifier)
    then (err unauthenticated, cache)
    else if is_expired fresh.scope now_ms
    then (err expired, cache)
    else interned (intern fresh cache)

unfoldable pub refresh : TokenRecord → Result (Option TokenRecord) → ℤ → Cache → Answer
unfolding check_refreshed
refresh principal fetched now_ms cache = elim fetched [
  | err e ↦ (err e, cache)
  | ok none ↦ (err unauthenticated, remove principal.id cache)
  | ok (some fresh) ↦ check_refreshed principal now_ms fresh cache
]

unfoldable pub check_anonymous : Audience → ℤ → TokenRecord → Cache → Answer
unfolding intern
check_anonymous audience now_ms fresh cache =
    if is_expired fresh.scope now_ms || not (allows_audience fresh.scope audience)
    then (err unauthenticated, cache)
    else interned (intern fresh cache)

unfoldable pub authenticate_anonymous : Result (Option TokenRecord) → Audience → ℤ → Cache → Answer
unfolding check_anonymous
authenticate_anonymous fetched audience now_ms cache = elim fetched [
  | err e ↦ (err e, cache)
  | ok none ↦ (err unauthenticated, remove anonymous_token_id cache)
  | ok (some fresh) ↦ check_anonymous audience now_ms fresh cache
]
