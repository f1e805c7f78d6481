-- ===== src/Auth/Authorizer/Issued.antt =====
-- picomq/pico-auth/src/token.rs and authorizer.rs: a token that was issued, as its bearer sends it.
use picomq.Prelude.{
  ℕ, ◌≤◌, ◌≡◌, refl, sym, Bool, true, false, ◌&&◌, ◌||◌, Option, some, [], ◌∷◌, ◌++◌, nat_ord, ◌==◌,
  ltb, leb, ℤ, length, map, all_of, contains, is_empty, Text, Bytes, arith, eq_comm, eq_self, trim,
  is_plain, plain_front, trim-plain_front, plain_front-reverse,
}
use mathlib.Core.List.{reverse, append_assoc}
use picomq.Wire.{is_utf8}
use picomq.Auth.Error.{Result, ok}
use picomq.Auth.Operation.{Audience}
use picomq.Auth.Scope.{is_expired, allows_audience}
use picomq.Auth.Record.{TokenRecord, id_min_len, id_max_len}
use picomq.Auth.Authorizer.{
  Crypto, AccessToken, Cache, full_stop, space, split_once, bearer, ascii_lower, secret_len, parse,
  parse_parts, from_secret, issue, render, strip_bearer, authenticate, ◌>>=◌,
}
use picomq.Auth.Authorizer.Sound.{Admits, authenticate_iff}

abbrev pub is_byte : ℕ → Bool
is_byte c = ltb c 256

-- Letters, digits, "-" and "_".
abbrev pub is_base64 : ℕ → Bool
is_base64 c =
    (leb 65 c && leb c 90)
    || (leb 97 c && leb c 122)
    || (leb 48 c && leb c 57)
    || c == 45
    || c == 95

-- What RFC 4648 says of the URL-safe alphabet without padding.
pub record IsBase64 (crypto : Crypto) : Type 0 where
  pub back : (b : Bytes) → all_of is_byte b ≡ true → crypto.decode64 (crypto.encode64 b) ≡ some b
  pub alphabet : (b : Bytes) → all_of is_byte b ≡ true → all_of is_base64 (crypto.encode64 b) ≡ true
  pub longer : (b : Bytes) → length b ≤ length (crypto.encode64 b)

-- An id of 1 to 96 bytes of UTF-8, and a secret of 32 bytes.
pub record IsToken (token : AccessToken) : Type 0 where
  pub id_bytes : all_of is_byte token.id ≡ true
  pub id_utf8 : is_utf8 token.id ≡ true
  pub id_fits : (ltb (length token.id) id_min_len || ltb id_max_len (length token.id)) ≡ false
  pub secret_bytes : all_of is_byte token.secret ≡ true
  pub secret_length : length token.secret ≡ secret_len

split_once-append :
    (c : ℕ) (xs ys : Text) → contains c xs ≡ false → split_once c (xs ++ (c ∷ ys)) ≡ some (xs, ys)
unfolding split_once
split_once-append c [] ys h = rw (eq_self c) refl
split_once-append c (x ∷ xs) ys h =
    let other : (x == c) ≡ false = ground (arith, eq_comm x c) in
    rw (other, split_once-append c xs ys (ground arith)) refl

all_of_plain : (s : Text) → all_of is_base64 s ≡ true → all_of is_plain s ≡ true
all_of_plain [] h = refl
all_of_plain (c ∷ s) h = ground (arith, all_of_plain s)

no_full_stop : (s : Text) → all_of is_base64 s ≡ true → contains full_stop s ≡ false
no_full_stop [] h = refl
no_full_stop (c ∷ s) h = ground (arith, no_full_stop s)

no_space : (s : Text) → contains space (map ascii_lower s) ≡ false → contains space s ≡ false
no_space [] h = refl
no_space (c ∷ s) h = ground (arith, no_space s)

not_empty : (s t : Text) → 1 ≤ length s → length s ≤ length t → is_empty t ≡ false
not_empty s [] h k = absurd (omega arith)
not_empty s (c ∷ t) h k = refl

module _ (crypto : Crypto) (base64 : IsBase64 crypto) where
  parse_parts-encode64 :
      (token : AccessToken)
      → IsToken token
      → parse_parts crypto (crypto.encode64 token.id) (crypto.encode64 token.secret) ≡ ok token
  unfolding parse_parts ◌>>=◌
  parse_parts-encode64 token h =
      let id_there : is_empty (crypto.encode64 token.id) ≡ false =
        not_empty token.id (crypto.encode64 token.id) (ground (arith, h.id_fits))
          (base64.longer token.id) in
      let secret_there : is_empty (crypto.encode64 token.secret) ≡ false =
        not_empty token.secret (crypto.encode64 token.secret) (ground (arith, h.secret_length))
          (base64.longer token.secret) in
      let one_stop : contains full_stop (crypto.encode64 token.secret) ≡ false =
        no_full_stop (crypto.encode64 token.secret) (base64.alphabet token.secret h.secret_bytes) in
      rw
        (
          id_there,
          secret_there,
          one_stop,
          base64.back token.id h.id_bytes,
          h.id_utf8,
          h.id_fits,
          base64.back token.secret h.secret_bytes,
          h.secret_length,
        )
        refl

  -- What is rendered ends in visible ASCII, so whatever stands in front, only its front is trimmed.
  trim-render :
      (token : AccessToken) (s : Text)
      → IsToken token
      → plain_front (s ++ render crypto token) ≡ true
      → trim (s ++ render crypto token) ≡ s ++ render crypto token
  unfolding render
  trim-render token s h front =
      let e1 : Text = crypto.encode64 token.id in
      let e2 : Text = crypto.encode64 token.secret in
      let visible : all_of is_plain e2 ≡ true =
        all_of_plain e2 (base64.alphabet token.secret h.secret_bytes) in
      let behind : plain_front (reverse (s ++ (e1 ++ (full_stop ∷ e2)))) ≡ true =
        rw (sym (append_assoc s e1 (full_stop ∷ e2)))
          (plain_front-reverse (s ++ e1) full_stop e2 (ground arith)) in
      trim-plain_front (s ++ (e1 ++ (full_stop ∷ e2))) front behind

  plain_front-render :
      (token : AccessToken) → IsToken token → plain_front (render crypto token) ≡ true
  unfolding render
  plain_front-render token h =
      front (crypto.encode64 token.id)
        (all_of_plain (crypto.encode64 token.id) (base64.alphabet token.id h.id_bytes))
    where
      front :
          (e : Text)
          → all_of is_plain e ≡ true
          → plain_front (e ++ (full_stop ∷ crypto.encode64 token.secret)) ≡ true
      front [] k = refl
      front (c ∷ e) k = ground arith

  -- A token is parsed from what it is rendered as.
  pub parse-render :
      (token : AccessToken) → IsToken token → parse crypto (render crypto token) ≡ ok token
  unfolding parse
  parse-render token h =
      let whole : trim (render crypto token) ≡ render crypto token =
        trim-render token [] h (plain_front-render token h) in
      let parts : split_once full_stop (render crypto token)
          ≡ some (crypto.encode64 token.id, crypto.encode64 token.secret) =
        unfold render in
        split_once-append full_stop (crypto.encode64 token.id) (crypto.encode64 token.secret)
          (no_full_stop (crypto.encode64 token.id) (base64.alphabet token.id h.id_bytes)) in
      rw (whole, parts, parse) (parse_parts-encode64 token h)

  plain_front-scheme :
      (scheme s : Text) → map ascii_lower scheme ≡ bearer → plain_front (scheme ++ s) ≡ true
  plain_front-scheme [] s h = cc
  plain_front-scheme (c ∷ scheme) s h = let first : ascii_lower c ≡ 98 = cc in ground arith

  strip_bearer-render :
      (scheme : Text) (token : AccessToken)
      → map ascii_lower scheme ≡ bearer
      → IsToken token
      → strip_bearer (scheme ++ (space ∷ render crypto token)) ≡ render crypto token
  unfolding strip_bearer
  strip_bearer-render scheme token named h =
      let sent : Text = scheme ++ (space ∷ render crypto token) in
      let joined : (scheme ++ (space ∷ [])) ++ render crypto token ≡ sent =
        append_assoc scheme (space ∷ []) (render crypto token) in
      let whole : trim sent ≡ sent = rw joined at (
        trim-render token (scheme ++ (space ∷ [])) h
          (rw joined (plain_front-scheme scheme (space ∷ render crypto token) named))) in
      let parts : split_once space sent ≡ some (scheme, render crypto token) =
        split_once-append space scheme (render crypto token) (no_space scheme (rw named refl)) in
      let rest : trim (render crypto token) ≡ render crypto token =
        trim-render token [] h (plain_front-render token h) in
      rw (whole, parts, strip_bearer, named, rest) refl

  issue-ok :
      (id secret : Text) (token : AccessToken) (verifier : Bytes)
      → issue crypto id secret ≡ ok (token, verifier)
      → ((ltb (length id) id_min_len || ltb id_max_len (length id)) ≡ false)
        × (record { id = id; secret = secret } ≡ token)
        × (verifier ≡ from_secret crypto secret)
  unfolding issue ◌>>=◌
  issue-ok id secret token verifier h = ground arith

  -- A token that `issue` has made, sent as a bearer credential in any case of the scheme, is let in as
  -- the record that the store has of it, where that has the verifier of the issue, the audience, and
  -- time left.
  pub authenticate-issue :
      (id secret scheme : Text) (token : AccessToken) (verifier : Bytes)
      (fetched : Text → Result (Option TokenRecord)) (audience : Audience) (now_ms : ℤ)
      (cache : Cache) (r : TokenRecord)
      → issue crypto id secret ≡ ok (token, verifier)
      → all_of is_byte id ≡ true
      → is_utf8 id ≡ true
      → all_of is_byte secret ≡ true
      → length secret ≡ secret_len
      → map ascii_lower scheme ≡ bearer
      → fetched id ≡ ok (some r)
      → r.id ≡ id
      → r.verifier ≡ verifier
      → is_expired r.scope now_ms ≡ false
      → allows_audience r.scope audience ≡ true
      → (authenticate crypto
          (scheme ++ (space ∷ render crypto token))
          fetched
          audience
          now_ms
          cache).0
        ≡ ok r
  authenticate-issue id secret scheme token verifier fetched audience now_ms cache r issued id_bytes
        id_utf8 secret_bytes secret_length named stored same_id same_verifier live listens =
      let (fits, e, v) = issue-ok id secret token verifier issued in
      let valid : IsToken (record { id = id; secret = secret }) = record {
        id_bytes = id_bytes;
        id_utf8 = id_utf8;
        id_fits = fits;
        secret_bytes = secret_bytes;
        secret_length = secret_length;
      } in
      let h : IsToken token = rw e at valid in
      let parsed = rw (sym (strip_bearer-render scheme token named h)) at (parse-render token h) in
      let admits : Admits crypto (scheme ++ (space ∷ render crypto token)) fetched audience now_ms
          r =
        record {
          access = token;
          parsed = parsed;
          stored = cc;
          secret = cc;
          live = live;
          listens = listens;
          same_id = cc;
        } in
      (authenticate_iff crypto (scheme ++ (space ∷ render crypto token)) fetched audience now_ms
          cache r).1
        admits
