-- ===== src/Auth/Authorizer/Sound.antt =====
-- picomq/pico-auth/src/authorizer.rs: who is let in, whatever the cache holds.
use picomq.Prelude.{
  ◌≡◌, refl, ◌↔◌, true, false, Option, none, some, bytes_ord, eq_of_test, eq_self, ℤ, Text, arith,
  Option-cases, inl, inr, ◌⊎◌,
}
use picomq.OrdMap.{get}
use picomq.Auth.Error.{AuthError, Result, ok, err}
use picomq.Auth.Operation.{Audience}
use picomq.Auth.Scope.{is_expired, allows_audience}
use picomq.Auth.Record.{TokenRecord}
use picomq.Auth.Same.{eq_of_same_record}
use picomq.Auth.Authorizer.{
  from_secret, Crypto, AccessToken, Cache, intern, strip_bearer, parse, matches_secret, check_fresh,
  with_token, authenticate, check_refreshed, refresh,
}

intern-fresh : (fresh : TokenRecord) (cache : Cache) → (intern fresh cache).0 ≡ fresh
unfolding intern
intern-fresh fresh cache = elim (Option-cases (get fresh.id cache)) [
  | inl e ↦ rw (e, intern) refl
  | inr (cached, e) ↦ rw (e, intern) (ground (arith, eq_of_same_record cached fresh))
]

Fetched-cases :
    (r : Result (Option TokenRecord))
    → ((e : AuthError) × (r ≡ err e)) ⊎ (r ≡ ok none) ⊎ ((t : TokenRecord) × (r ≡ ok (some t)))
Fetched-cases (err e) = inl (e, refl)
Fetched-cases (ok none) = inr (inl refl)
Fetched-cases (ok (some t)) = inr (inr (t, refl))

Result-cases {ℓ} :
    {A : Type ℓ} (r : Result A) → ((e : AuthError) × (r ≡ err e)) ⊎ ((a : A) × (r ≡ ok a))
Result-cases (err e) = inl (e, refl)
Result-cases (ok a) = inr (a, refl)

no_err {ℓ} : {A : Type ℓ} {e : AuthError} {a : A} → err e ≡ ok a → ⊥
no_err h = cc

module _ (crypto : Crypto) where
  -- The credential names a token whose stored record, as the store now answers, has the verifier of
  -- the credential's secret, its id, the audience, and time left.
  pub record Admits (credential : Text) (fetched : Text → Result (Option TokenRecord))
      (audience : Audience) (now_ms : ℤ) (principal : TokenRecord) : Type 0 where
    pub access : AccessToken
    pub parsed : parse crypto (strip_bearer credential) ≡ ok access
    pub stored : fetched access.id ≡ ok (some principal)
    pub secret : principal.verifier ≡ from_secret crypto access.secret
    pub live : is_expired principal.scope now_ms ≡ false
    pub listens : allows_audience principal.scope audience ≡ true
    pub same_id : principal.id ≡ access.id

  check_fresh-ok :
      (access : AccessToken) (audience : Audience) (now_ms : ℤ) (fresh : TokenRecord)
      (cache : Cache) (principal : TokenRecord)
      → (check_fresh crypto access audience now_ms fresh cache).0 ≡ ok principal
      → (fresh ≡ principal)
        × (fresh.verifier ≡ from_secret crypto access.secret)
        × (is_expired fresh.scope now_ms ≡ false)
        × (allows_audience fresh.scope audience ≡ true)
        × (fresh.id ≡ access.id)
  unfolding check_fresh matches_secret
  check_fresh-ok access audience now_ms fresh cache principal h = ground (
    arith,
    intern-fresh fresh cache,
    eq_of_test fresh.verifier (from_secret crypto access.secret),
    eq_of_test fresh.id access.id,
  )

  with_token-ok :
      (access : AccessToken) (fetched : Text → Result (Option TokenRecord)) (audience : Audience)
      (now_ms : ℤ) (cache : Cache) (principal : TokenRecord)
      → (with_token crypto access fetched audience now_ms cache).0 ≡ ok principal
      → (fetched access.id ≡ ok (some principal))
        × (principal.verifier ≡ from_secret crypto access.secret)
        × (is_expired principal.scope now_ms ≡ false)
        × (allows_audience principal.scope audience ≡ true)
        × (principal.id ≡ access.id)
  unfolding with_token
  with_token-ok access fetched audience now_ms cache principal h =
      elim (Fetched-cases (fetched access.id)) [
        | inl (x, e) ↦ absurd (no_err (rw (e, with_token) at h))
        | inr (inl e) ↦ absurd (no_err (rw (e, with_token) at h))
        | inr (inr (fresh, e)) ↦
            let (same, secret, live, listens, same_id) =
              check_fresh-ok access audience now_ms fresh cache principal
                (rw (e, with_token) at h) in
            (cc, cc, cc, cc, cc)
      ]

  authenticate-Admits :
      (credential : Text) (fetched : Text → Result (Option TokenRecord)) (audience : Audience)
      (now_ms : ℤ) (cache : Cache) (principal : TokenRecord)
      → (authenticate crypto credential fetched audience now_ms cache).0 ≡ ok principal
      → Admits credential fetched audience now_ms principal
  unfolding authenticate
  authenticate-Admits credential fetched audience now_ms cache principal h =
      elim (Result-cases (parse crypto (strip_bearer credential))) [
        | inl (x, e) ↦ absurd (no_err (rw (e, authenticate) at h))
        | inr (access, e) ↦
            let (stored, secret, live, listens, same_id) =
              with_token-ok access fetched audience now_ms cache principal
                (rw (e, authenticate) at h) in
            record {
              access = access;
              parsed = e;
              stored = stored;
              secret = secret;
              live = live;
              listens = listens;
              same_id = same_id;
            }
      ]

  check_fresh-admits :
      (access : AccessToken) (audience : Audience) (now_ms : ℤ) (fresh : TokenRecord)
      (cache : Cache)
      → fresh.verifier ≡ from_secret crypto access.secret
      → is_expired fresh.scope now_ms ≡ false
      → allows_audience fresh.scope audience ≡ true
      → fresh.id ≡ access.id
      → (check_fresh crypto access audience now_ms fresh cache).0 ≡ ok fresh
  unfolding check_fresh matches_secret
  check_fresh-admits access audience now_ms fresh cache secret live listens same_id =
      ground (arith, intern-fresh fresh cache, eq_self fresh.verifier, eq_self fresh.id)

  authenticate-ok :
      (credential : Text) (fetched : Text → Result (Option TokenRecord)) (audience : Audience)
      (now_ms : ℤ) (cache : Cache) (principal : TokenRecord)
      → Admits credential fetched audience now_ms principal
      → (authenticate crypto credential fetched audience now_ms cache).0 ≡ ok principal
  unfolding authenticate with_token
  authenticate-ok credential fetched audience now_ms cache principal h =
      rw (h.parsed, h.stored, authenticate, with_token)
        (check_fresh-admits h.access audience now_ms principal cache h.secret h.live h.listens
          h.same_id)

-- A request is let in as a principal exactly if the credential parses to a token whose record, as the
-- store now answers, is the principal, with the verifier of the secret, the id of the credential, the
-- audience and time left; so the cache never decides.
pub authenticate_iff :
    (crypto : Crypto) (credential : Text) (fetched : Text → Result (Option TokenRecord))
    (audience : Audience) (now_ms : ℤ) (cache : Cache) (principal : TokenRecord)
    → ((authenticate crypto credential fetched audience now_ms cache).0 ≡ ok principal)
      ↔ Admits crypto credential fetched audience now_ms principal
authenticate_iff crypto credential fetched audience now_ms cache principal = (
  authenticate-Admits crypto credential fetched audience now_ms cache principal,
  authenticate-ok crypto credential fetched audience now_ms cache principal,
)

-- A principal that is refreshed has the verifier that it had, and time left: a token that was
-- revoked, or replaced under the same id by one of another secret, is refused.
pub refresh-live :
    (principal : TokenRecord) (fetched : Result (Option TokenRecord)) (now_ms : ℤ) (cache : Cache)
    (renewed : TokenRecord)
    → (refresh principal fetched now_ms cache).0 ≡ ok renewed
    → (fetched ≡ ok (some renewed))
      × (renewed.verifier ≡ principal.verifier)
      × (is_expired renewed.scope now_ms ≡ false)
unfolding refresh check_refreshed
refresh-live principal (err e) now_ms cache renewed h = cc
refresh-live principal (ok none) now_ms cache renewed h = cc
refresh-live principal (ok (some fresh)) now_ms cache renewed h =
    ground (arith, intern-fresh fresh cache, eq_of_test fresh.verifier principal.verifier)
