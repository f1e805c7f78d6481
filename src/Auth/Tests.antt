-- ===== src/Auth/Tests.antt =====
-- A small chain of tokens, and the theorems of authorization at it.
pub mod Issued
use picomq.Prelude.{
  ◌≡◌, ◌↔◌, refl, true, false, Option, some, [], ◌∷◌, arith, pos, Text, Bytes, int_ord, nat_ord,
  bytes_ord,
}
use picomq.OrdMap.{empty, get}
use picomq.Wire.{Outcome, is_utf8}
use picomq.Auth.Error.{Result, ok}
use picomq.Auth.Operation.{
  ReadWrite, read, issue_token, pico, kafka, stream, all_operations, resource, writes, describes,
  of, rw_allows, rw_any,
}
use picomq.Auth.Scope.{
  Scope, ResourceSet, exact, prefix, allows, allows_operation, allows_name, allows_stream,
  allows_audience, is_expired, any_right_on, matches, matches_name, contains_set, contains_matcher,
  contains_streams, effective_ops, resolve, strip, sole_prefix, trim_slashes, join_prefix,
  ends_with_slash,
}
use picomq.Auth.Name.{canonical_eq, canonical, canonical_chars, without_slash}
use picomq.Auth.Narrow.{check_issue, contains_scope, contains_access, contains_rw, contains_expiry}
use picomq.Auth.Narrow.Sound.{Permits}
use picomq.Auth.Narrow.Chain.{start, issue, chain-Permits}
use picomq.Auth.Prefix.{resolve-allows_name, strip-resolve}
use picomq.Auth.Record.{TokenRecord, encode}
use picomq.Auth.Record.Decode.{decode}
use picomq.Auth.Record.RoundTrip.{IsRecord, decode-encode}
use picomq.Auth.Authorizer.{
  Crypto, from_secret, authenticate, refresh, strip_bearer, parse, parse_parts,
}
use picomq.Auth.Authorizer.Sound.{Admits, authenticate_iff, refresh-live}
use picomq.Prelude.{starts_with, drop}

abbrev pub nothing : ResourceSet
nothing = record { matchers = [] }

abbrev pub no_rights : ReadWrite
no_rights = record { read = false; write = false }

-- "/a/" for streams, every token, until 100, for pico and kafka.
abbrev pub team : Scope
team = record {
  streams = record { matchers = prefix (47 ∷ 97 ∷ 47 ∷ []) ∷ [] };
  tokens = record { matchers = prefix [] ∷ [] };
  groups = nothing;
  access = record {
    stream = record { read = true; write = true };
    tokens = no_rights;
    group = no_rights;
    admin = no_rights;
  };
  ops = issue_token ∷ [];
  audiences = pico ∷ kafka ∷ [];
  auto_prefix = false;
  expires_at_ms = some (pos 100);
}

-- Reads "/a/b", until 50, for pico.
abbrev pub reader : Scope
reader = record {
  streams = record { matchers = exact (97 ∷ 46 ∷ 98 ∷ []) ∷ [] };
  tokens = nothing;
  groups = nothing;
  access = record {
    stream = record { read = true; write = false };
    tokens = no_rights;
    group = no_rights;
    admin = no_rights;
  };
  ops = [];
  audiences = pico ∷ [];
  auto_prefix = false;
  expires_at_ms = some (pos 50);
}

issued : check_issue team (116 ∷ []) reader ≡ ok tt
unfolding check_issue contains_scope contains_access contains_rw contains_expiry contains_streams
    contains_set contains_matcher allows_operation allows_audience any_right_on effective_ops
    matches matches_name resource writes describes of rw_allows rw_any starts_with canonical
    without_slash all_operations
issued = refl

abbrev b_name : Text
b_name = 47 ∷ 97 ∷ 47 ∷ 98 ∷ []

reads : Permits reader (pos 9) pico read (some b_name)
unfolding is_expired allows_audience allows allows_operation allows_name allows_stream resource
    writes describes of rw_allows canonical_chars without_slash canonical_eq
reads = (refl, refl, refl)

chain-Permits_example : Permits team (pos 9) pico read (some b_name)
chain-Permits_example =
    chain-Permits (pos 9) pico read (some b_name) (issue (116 ∷ []) start issued) reads

-- A scope whose clients see its names without "/a/".
abbrev pub confined : Scope
confined = record team { auto_prefix = true }

abbrev orders : Text
orders = 111 ∷ 114 ∷ []

resolves : resolve confined stream orders ≡ ok (47 ∷ 97 ∷ 47 ∷ orders)
unfolding resolve sole_prefix trim_slashes join_prefix ends_with_slash
resolves = refl

resolve-allows_name_example :
    allows_name confined (some stream) (some (47 ∷ 97 ∷ 47 ∷ orders)) ≡ true
resolve-allows_name_example =
    resolve-allows_name confined stream orders (47 ∷ 97 ∷ 47 ∷ orders) refl resolves

team_prefix : sole_prefix confined.streams ≡ some (47 ∷ 97 ∷ 47 ∷ [])
unfolding sole_prefix
team_prefix = refl

team_slash : ends_with_slash (47 ∷ 97 ∷ 47 ∷ []) ≡ true
unfolding ends_with_slash
team_slash = refl

strip-resolve_example : strip confined stream (47 ∷ 97 ∷ 47 ∷ orders) ≡ trim_slashes orders
strip-resolve_example =
    strip-resolve confined stream (47 ∷ 97 ∷ 47 ∷ []) orders (47 ∷ 97 ∷ 47 ∷ orders) refl
      team_prefix team_slash resolves

abbrev pub secret : Bytes
secret =
    1 ∷ 2 ∷ 3 ∷ 4 ∷ 5 ∷ 6 ∷ 7 ∷ 8 ∷ 1 ∷ 2 ∷ 3 ∷ 4 ∷ 5 ∷ 6 ∷ 7 ∷ 8 ∷ 1 ∷ 2 ∷ 3 ∷ 4 ∷ 5 ∷ 6 ∷ 7 ∷ 8
    ∷ 1 ∷ 2 ∷ 3 ∷ 4 ∷ 5 ∷ 6 ∷ 7 ∷ 8 ∷ []

abbrev pub stored : TokenRecord
stored = record {
  id = 116 ∷ [];
  verifier = secret;
  scope = team;
  created_at_ms = pos 1;
  issued_by = [];
}

stored-IsRecord : IsRecord stored
unfolding is_utf8
stored-IsRecord = record {
  id = ((omega arith, refl), omega arith, omega arith);
  verifier = refl;
  scope = record {
    streams = (omega arith, ((omega arith, refl), tt));
    tokens = (omega arith, ((omega arith, refl), tt));
    groups = (omega arith, tt);
    ops = ((tt, tt), omega arith);
    audiences = (((refl, tt), (tt, tt)), omega arith);
    expires_at_ms = omega arith;
  };
  created_at_ms = omega arith;
  issued_by = (omega arith, refl);
}

decode-encode_example : decode (encode stored) ≡ Outcome.ok stored
decode-encode_example = decode-encode stored stored-IsRecord

-- Stand-ins for base64 and SHA-256: an id is written as it is, and a verifier is the secret.
abbrev plain : Crypto
plain = record { encode64 = λ b. b; decode64 = λ b. some b; sha256 = λ b. drop 19 b }

abbrev pub store : Text → Result (Option TokenRecord)
store id = ok (some stored)

-- "Bearer t." and the secret
abbrev credential : Text
credential = 66 ∷ 101 ∷ 97 ∷ 114 ∷ 101 ∷ 114 ∷ 32 ∷ 116 ∷ 46 ∷ secret

authenticate_iff_example :
    ((authenticate plain credential store pico (pos 9) empty).0 ≡ ok stored)
    ↔ Admits plain credential store pico (pos 9) stored
authenticate_iff_example = authenticate_iff plain credential store pico (pos 9) empty stored

admits : Admits plain credential store pico (pos 9) stored
unfolding parse parse_parts strip_bearer from_secret is_expired allows_audience is_utf8
admits = record {
  access = record { id = 116 ∷ []; secret = secret };
  parsed = refl;
  stored = refl;
  secret = refl;
  live = refl;
  listens = refl;
  same_id = refl;
}

refreshed : (refresh stored (ok (some stored)) (pos 9) empty).0 ≡ ok stored
unfolding refresh is_expired get empty
refreshed = refl

refresh-live_example :
    (◌≡◌ {A = Result (Option TokenRecord)} (ok (some stored)) (ok (some stored)))
    × (stored.verifier ≡ stored.verifier)
    × (is_expired stored.scope (pos 9) ≡ false)
refresh-live_example = refresh-live stored (ok (some stored)) (pos 9) empty stored refreshed
