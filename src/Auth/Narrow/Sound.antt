-- ===== src/Auth/Narrow/Sound.antt =====
-- picomq/pico-auth/src/narrow.rs: what a scope contains, it allows.
use picomq.Prelude.{
  ◌≡◌, refl, Bool, true, false, Option, none, some, int_ord, bytes_ord, ℤ, all_of, Text, arith,
  any-all_of, all_of-contains, any-contains, inl, inr, Bool-cases,
}
use picomq.Auth.Operation.{
  Operation, Resource, stream, token, group, ReadWrite, Access, Audience, of, resource, writes,
  same_resource, operation_ord, audience_ord, rw_allows, rw_any,
}
use picomq.Auth.Scope.{
  Scope, contains_set, contains_streams, allows_operation, allows_audience, allows_name, allows,
  any_right_on, is_expired,
}
use picomq.Auth.Narrow.Names.{contains_set-matches, contains_streams-allows_stream}
use picomq.Auth.Narrow.{contains_rw, contains_access, contains_expiry, contains_scope}

contains_rw-rw_allows :
    (p c : ReadWrite) (write : Bool)
    → contains_rw p c ≡ true
    → rw_allows c write ≡ true
    → rw_allows p write ≡ true
unfolding contains_rw rw_allows
contains_rw-rw_allows p c true h k = ground arith
contains_rw-rw_allows p c false h k = ground arith

contains_rw-rw_any : (p c : ReadWrite) → contains_rw p c ≡ true → rw_any c ≡ true → rw_any p ≡ true
unfolding contains_rw rw_any
contains_rw-rw_any p c h k = ground arith

contains_access-of :
    (p c : Access) (res : Option Resource)
    → contains_access p c ≡ true
    → contains_rw (of p res) (of c res) ≡ true
unfolding contains_access of
contains_access-of p c (some stream) h = ground arith
contains_access-of p c (some token) h = ground arith
contains_access-of p c (some group) h = ground arith
contains_access-of p c none h = ground arith

same_resource_refl : (r : Option Resource) → same_resource r r ≡ true
same_resource_refl (some stream) = refl
same_resource_refl (some token) = refl
same_resource_refl (some group) = refl
same_resource_refl none = refl

eq_of_same_resource : (r q : Option Resource) → same_resource r q ≡ true → r ≡ q
eq_of_same_resource r q h = ground arith

abbrev on_resource : Option Resource → Operation → Bool
on_resource res op = same_resource (resource op) res

-- A scope that allows an operation has some right on its resource.
allows_operation-any_right_on :
    (scope : Scope) (op : Operation)
    → allows_operation scope op ≡ true
    → any_right_on scope (resource op) ≡ true
unfolding allows_operation any_right_on rw_allows rw_any
allows_operation-any_right_on scope op h =
    ground (
      arith,
      any-contains (on_resource (resource op)) op scope.ops,
      same_resource_refl (resource op),
    )

-- The parts of containment that rights, names and time are checked by.
record Within (issuer child : Scope) : Type 0 where
  streams : contains_streams issuer child.streams ≡ true
  tokens : contains_set issuer.tokens child.tokens ≡ true
  groups : contains_set issuer.groups child.groups ≡ true
  access : contains_access issuer.access child.access ≡ true
  ops : all_of (allows_operation issuer) child.ops ≡ true
  audiences : all_of (allows_audience issuer) child.audiences ≡ true
  expiry : contains_expiry issuer.expires_at_ms child.expires_at_ms ≡ true

contains_scope-Within :
    (issuer child : Scope) → contains_scope issuer child ≡ true → Within issuer child
unfolding contains_scope
contains_scope-Within issuer child h = record {
  streams = ground arith;
  tokens = ground arith;
  groups = ground arith;
  access = ground arith;
  ops = ground arith;
  audiences = ground arith;
  expiry = ground arith;
}

module _ (issuer child : Scope) (w : Within issuer child) where
  any_right_on_mono :
      (res : Option Resource) → any_right_on child res ≡ true → any_right_on issuer res ≡ true
  any_right_on_mono res h = elim (Bool-cases (rw_any (of child.access res))) [
    | inl e ↦
        unfold any_right_on in
        ground (
          arith,
          contains_rw-rw_any (of issuer.access res) (of child.access res)
              (contains_access-of issuer.access child.access res w.access) e,
        )
    | inr e ↦
        let (op, granted, on) =
          any-all_of (allows_operation issuer) (on_resource res) child.ops w.ops
            (unfold any_right_on in ground arith) in
        rw (eq_of_same_resource (resource op) res on) at
          (allows_operation-any_right_on issuer op granted)
  ]

  allows_operation_mono :
      (op : Operation) → allows_operation child op ≡ true → allows_operation issuer op ≡ true
  unfolding allows_operation
  allows_operation_mono op h = ground (
    arith,
    all_of-contains (allows_operation issuer) op child.ops w.ops,
    contains_rw-rw_allows (of issuer.access (resource op)) (of child.access (resource op))
        (writes op) (contains_access-of issuer.access child.access (resource op) w.access),
    any_right_on_mono (resource op),
  )

  allows_name_mono :
      (res : Option Resource) (name : Option Text)
      → allows_name child res name ≡ true
      → allows_name issuer res name ≡ true
  unfolding allows_name
  allows_name_mono (some stream) (some name) h =
      contains_streams-allows_stream issuer child name w.streams h
  allows_name_mono (some token) (some name) h =
      contains_set-matches issuer.tokens child.tokens name w.tokens h
  allows_name_mono (some group) (some name) h =
      contains_set-matches issuer.groups child.groups name w.groups h
  allows_name_mono (some stream) none h = cc
  allows_name_mono (some token) none h = cc
  allows_name_mono (some group) none h = cc
  allows_name_mono none name h = ground arith

  allows_audience_mono :
      (audience : Audience)
      → allows_audience child audience ≡ true
      → allows_audience issuer audience ≡ true
  unfolding allows_audience
  allows_audience_mono audience h =
      all_of-contains (allows_audience issuer) audience child.audiences w.audiences h

-- Nothing outlives the scope that contains it.
contains_expiry-is_expired :
    (issuer child : Scope) (now : ℤ)
    → contains_expiry issuer.expires_at_ms child.expires_at_ms ≡ true
    → is_expired child now ≡ false
    → is_expired issuer now ≡ false
unfolding contains_expiry is_expired
contains_expiry-is_expired issuer child now h k = ground arith

-- A request that a scope lets through: in time, at the listener, and for the operation and name.
abbrev pub Permits : Scope → ℤ → Audience → Operation → Option Text → Type 0
Permits scope now audience op name =
    (is_expired scope now ≡ false)
    × (allows_audience scope audience ≡ true)
    × (allows scope op name ≡ true)

-- A scope permits each request that a scope it contains permits, at any time.
pub contains_scope-Permits :
    (issuer child : Scope) (now : ℤ) (audience : Audience) (op : Operation) (name : Option Text)
    → contains_scope issuer child ≡ true
    → Permits child now audience op name
    → Permits issuer now audience op name
unfolding allows
contains_scope-Permits issuer child now audience op name h (live, listens, may) =
    let w : Within issuer child = contains_scope-Within issuer child h in
    (
      contains_expiry-is_expired issuer child now w.expiry live,
      allows_audience_mono issuer child w audience listens,
      ground (
        arith,
        allows_operation_mono issuer child w op,
        allows_name_mono issuer child w (resource op) name,
      ),
    )
