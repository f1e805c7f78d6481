-- ===== src/Auth/Record/RoundTrip.antt =====
-- picomq/pico-auth/src/record.rs: a record is decoded to itself.
use picomq.Prelude.{
  ℕ, ◌≤◌, ◌<◌, ◌≡◌, refl, Bool, true, false, ◌||◌, Option, none, some, List, [], ◌∷◌, nat_ord,
  int_ord, ltb, ℤ, pos, length, All, Text, Bytes, arith, IsAscending, set_from-ascending, as_u64,
  is_some,
}
use mathlib.Core.List.{append-nil}
use picomq.Wire.{
  Outcome, Reader, pure, be_value, be_value-be, as_i32, as_u32, as_i32-as_u32, IsI32, IsI64,
  is_utf8, many, as_i64-as_u64, as_u32-lt, as_u64-lt, as_i32_small, le_value,
}
use picomq.Wire.Reads.{
  Reads, Reads-bind, Reads-map, Reads-last, Reads-skip, Reads-pure, Reads-many, Reads-chunk,
  Reads-reject_if, Reads-be, Reads-eq, join,
}
use picomq.Auth.Error.{AuthError, malformed}
use picomq.Auth.Operation.{Operation, Audience, operation_ord, audience_ord, ReadWrite, Access}
use picomq.Auth.Scope.{ResourceMatcher, exact, prefix, ResourceSet, Scope}
use picomq.Auth.Record.{
  TokenRecord, put_i32, put_i64, put_bool, put_str, put_matcher, put_operation, put_audience,
  operation_tag, audience_tag, encode_resource_set, encode_rw, encode_access, encode_scope, encode,
  unwrap_or,
}
use picomq.Auth.Record.Decode.{
  get_u8, get_i32, get_i64, get_count, get_str, get_verifier, get_bool, decode_rw, decode_access,
  get_matcher_of, get_matcher, decode_resource_set, operation_from_tag, audience_from_tag,
  get_operation, get_audience, then_some, decode_scope, validate_id, decode_record, drained, decode,
}

get_u8-Reads : (v : ℕ) → Reads get_u8 (v ∷ []) v
unfolding get_u8
get_u8-Reads v =
    Reads-eq (Reads-map _ (Reads-chunk malformed (v ∷ [])))
      (unfold be_value le_value in omega arith)

get_i32-Reads : (z : ℤ) → IsI32 z → Reads get_i32 (put_i32 z) z
unfolding get_i32
get_i32-Reads z h =
    Reads-eq (Reads-map _ (Reads-be malformed 4 (as_u32 z)))
      (rw (be_value-be 4 (as_u32 z) (as_u32-lt z)) (as_i32-as_u32 z h))

get_i64-Reads : (z : ℤ) → IsI64 z → Reads get_i64 (put_i64 z) z
unfolding get_i64
get_i64-Reads z h =
    Reads-eq (Reads-map _ (Reads-be malformed 8 (as_u64 z)))
      (rw (be_value-be 8 (as_u64 z) (as_u64-lt z)) (as_i64-as_u64 z h))

-- Lengths that an `i32` holds.
abbrev IsLength : ℕ → Type 0
IsLength n = n < 2147483648

not_negative : (n : ℕ) → ltb (pos n) (pos 0) ≡ false
not_negative n = ground arith

get_count-Reads : (n : ℕ) → IsLength n → Reads get_count (put_i32 (as_i32 n)) n
unfolding get_count
get_count-Reads n h = rw (as_i32_small n h) (
    Reads-eq
      (Reads-last _ (get_i32-Reads (pos n) h)
        (Reads-last _ (Reads-reject_if malformed (not_negative n)) (Reads-pure (as_u64 (pos n)))))
      (ground arith))

abbrev IsText : Text → Type 0
IsText s = IsLength (length s) × (is_utf8 s ≡ true)

get_str-Reads : (s : Text) → IsText s → Reads get_str (put_str s) s
unfolding get_str put_str
get_str-Reads s (fits, valid) = Reads-bind _ (get_count-Reads (length s) fits) (
    Reads-last _ (Reads-chunk malformed s)
      (Reads-last _ (Reads-reject_if malformed (rw valid refl)) (Reads-pure s)))

get_bool-Reads : (b : Bool) → Reads get_bool (put_bool b) b
unfolding get_bool
get_bool-Reads true = Reads-map _ (get_u8-Reads 1)
get_bool-Reads false = Reads-map _ (get_u8-Reads 0)

decode_rw-Reads : (rw_ : ReadWrite) → Reads decode_rw (encode_rw rw_) rw_
unfolding decode_rw encode_rw
decode_rw-Reads r = Reads-bind _ (get_bool-Reads r.read) (Reads-map _ (get_bool-Reads r.write))

decode_access-Reads : (a : Access) → Reads decode_access (encode_access a) a
unfolding decode_access encode_access
decode_access-Reads a = Reads-bind _ (decode_rw-Reads a.stream) (
    Reads-bind _ (decode_rw-Reads a.tokens)
      (Reads-bind _ (decode_rw-Reads a.group) (Reads-map _ (decode_rw-Reads a.admin))))

operation_from_tag-operation_tag :
    (op : Operation) → operation_from_tag (operation_tag op) ≡ pure op
unfolding operation_from_tag operation_tag
operation_from_tag-operation_tag op = ground arith

audience_from_tag-audience_tag : (a : Audience) → audience_from_tag (audience_tag a) ≡ pure a
unfolding audience_from_tag audience_tag
audience_from_tag-audience_tag a = ground arith

get_operation-Reads : (op : Operation) → Reads get_operation (put_operation op) op
unfolding get_operation
get_operation-Reads op =
    Reads-last _ (get_u8-Reads (operation_tag op))
      (rw (operation_from_tag-operation_tag op) (Reads-pure op))

get_audience-Reads : (a : Audience) → Reads get_audience (put_audience a) a
unfolding get_audience
get_audience-Reads a =
    Reads-last _ (get_u8-Reads (audience_tag a))
      (rw (audience_from_tag-audience_tag a) (Reads-pure a))

abbrev IsMatcher : ResourceMatcher → Type 0
IsMatcher (exact name) = IsText name
IsMatcher (prefix p) = IsText p

get_matcher-Reads : (m : ResourceMatcher) → IsMatcher m → Reads get_matcher (put_matcher m) m
unfolding get_matcher put_matcher get_matcher_of
get_matcher-Reads (exact name) h =
    Reads-bind _ (get_u8-Reads 1) (Reads-map exact (get_str-Reads name h))
get_matcher-Reads (prefix p) h =
    Reads-bind _ (get_u8-Reads 2) (Reads-map prefix (get_str-Reads p h))

abbrev IsMatchers : ResourceSet → Type 0
IsMatchers set = IsLength (length set.matchers) × All IsMatcher set.matchers

All-Reads {ℓ} :
    {A : Type ℓ} {P : A → Type 0} (p : Reader AuthError A) (f : A → Bytes) (xs : List A)
    → ((x : A) → P x → Reads p (f x) x)
    → All P xs
    → All (λ (x : A). Reads p (f x) x) xs
All-Reads p f [] k h = tt
All-Reads p f (x ∷ xs) k (h, hs) = (k x h, All-Reads p f xs k hs)

decode_resource_set-Reads :
    (set : ResourceSet) → IsMatchers set → Reads decode_resource_set (encode_resource_set set) set
unfolding decode_resource_set encode_resource_set
decode_resource_set-Reads set (fits, ok_matchers) =
    Reads-bind _ (get_count-Reads (length set.matchers) fits) (
      Reads-map _ (
        Reads-many get_matcher put_matcher set.matchers
          (All-Reads get_matcher put_matcher set.matchers get_matcher-Reads ok_matchers)))

Reads-all {ℓ} :
    {A : Type ℓ} (p : Reader AuthError A) (f : A → Bytes)
    → ((x : A) → Reads p (f x) x)
    → (xs : List A) → Reads (many (length xs) p) (join f xs) xs
Reads-all p f k xs = Reads-many p f xs (go xs)
  where
    go : (ys : List _) → All (λ y. Reads p (f y) y) ys
    go [] = tt
    go (y ∷ ys) = (k y, go ys)

abbrev FitsTime : Option ℤ → Type 0
FitsTime none = Unit
FitsTime (some z) = IsI64 z

unwrap_or-IsI64 : (o : Option ℤ) → FitsTime o → IsI64 (unwrap_or (pos 0) o)
unwrap_or-IsI64 none h = omega arith
unwrap_or-IsI64 (some z) h = h

then_some-unwrap_or : (o : Option ℤ) → then_some (is_some o) (unwrap_or (pos 0) o) ≡ o
then_some-unwrap_or none = refl
then_some-unwrap_or (some z) = refl

-- What the types of a scope's fields guarantee, and that its lists are of a length below 2^31.
pub record IsScope (s : Scope) : Type 0 where
  pub streams : IsMatchers s.streams
  pub tokens : IsMatchers s.tokens
  pub groups : IsMatchers s.groups
  pub ops : IsAscending s.ops × IsLength (length s.ops)
  pub audiences : IsAscending s.audiences × IsLength (length s.audiences)
  pub expires_at_ms : FitsTime s.expires_at_ms

decode_scope-Reads : (s : Scope) → IsScope s → Reads decode_scope (encode_scope s) s
unfolding decode_scope encode_scope
decode_scope-Reads s h =
    Reads-eq
      (Reads-bind _ (decode_resource_set-Reads s.streams h.streams) (
        Reads-bind _ (decode_resource_set-Reads s.tokens h.tokens) (
          Reads-bind _ (decode_resource_set-Reads s.groups h.groups) (
            Reads-bind _ (decode_access-Reads s.access) (
              Reads-bind _ (get_count-Reads (length s.ops) h.ops.1) (
                Reads-bind _ (Reads-all get_operation put_operation get_operation-Reads s.ops) (
                  Reads-bind _ (get_count-Reads (length s.audiences) h.audiences.1) (
                    Reads-bind _
                      (Reads-all get_audience put_audience get_audience-Reads s.audiences)
                      (Reads-bind _ (get_bool-Reads s.auto_prefix) (
                        Reads-bind _ (get_bool-Reads (is_some s.expires_at_ms)) (
                          Reads-map _ (
                            get_i64-Reads (unwrap_or (pos 0) s.expires_at_ms)
                              (unwrap_or-IsI64 s.expires_at_ms h.expires_at_ms)))))))))))))
      (rw
        (
          set_from-ascending s.ops h.ops.0,
          set_from-ascending s.audiences h.audiences.0,
          then_some-unwrap_or s.expires_at_ms,
        )
        refl)

pub record IsRecord (r : TokenRecord) : Type 0 where
  pub id : IsText r.id × (1 ≤ length r.id) × (length r.id ≤ 96)
  pub verifier : length r.verifier ≡ 32
  pub scope : IsScope r.scope
  pub created_at_ms : IsI64 r.created_at_ms
  pub issued_by : IsText r.issued_by

id_fits : (n : ℕ) → 1 ≤ n → n ≤ 96 → (ltb n 1 || ltb 96 n) ≡ false
id_fits n lo hi = ground arith

decode_record-Reads : (r : TokenRecord) → IsRecord r → Reads decode_record (encode r) r
unfolding decode_record encode validate_id get_verifier
decode_record-Reads r h = Reads-bind _ (get_str-Reads r.id h.id.0) (
    Reads-skip _ (Reads-reject_if malformed (id_fits (length r.id) h.id.1 h.id.2)) (
      Reads-bind _ (rw h.verifier at (Reads-chunk malformed r.verifier)) (
        Reads-bind _ (decode_scope-Reads r.scope h.scope) (
          Reads-bind _ (get_i64-Reads r.created_at_ms h.created_at_ms)
            (Reads-map _ (get_str-Reads r.issued_by h.issued_by))))))

-- A record of valid ids and texts, sets in order and lengths below 2^31 is decoded from its bytes to
-- itself.
pub decode-encode : (r : TokenRecord) → IsRecord r → decode (encode r) ≡ Outcome.ok r
unfolding decode
decode-encode r h =
    let whole = (decode_record-Reads r h).reads [] in
    rw (rw append-nil at whole) (unfold drained in refl)
