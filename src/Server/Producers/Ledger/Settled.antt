-- ===== src/Server/Producers/Ledger/Settled.antt =====
-- picomq/pico-server/src/producers.rs: what a ledger holds after a crash and after confirmation.
use picomq.Prelude.{
  ℕ, ◌≡◌, refl, ap, sym, ◌∙◌, Bool, Option, some, List, [], ◌∷◌, ◌++◌, nat_ord, ltb, length,
  if◌then◌else◌, keep_if, take_while, drop, map_option, Bool-cases, inl, inr,
}
use picomq.Server.Producers.Ledger.{
  Ledger, last_of, value_of, or_value, last, accept, below, confirm, settle,
}

module _ {ℓ} {T : Type ℓ} where
  -- All that is kept by the retention of `settle` is confirmed.
  take_while-keep_if :
      (end : ℕ) (es : List (T × ℕ))
      → take_while (below end) (keep_if (below end) es) ≡ keep_if (below end) es
  take_while-keep_if end [] = refl
  take_while-keep_if end (e ∷ es) = elim (Bool-cases (below end e)) [
    | inl h ↦ rw h (rw h (ap (λ (xs : List (T × ℕ)). e ∷ xs) (take_while-keep_if end es)))
    | inr h ↦ rw h (take_while-keep_if end es)
  ]

  drop-length : (es : List (T × ℕ)) → drop (length es) es ≡ []
  drop-length [] = refl
  drop-length (e ∷ es) = drop-length es

  -- The last value of a list, on top of an older one.
  abbrev on_top : Option T → List (T × ℕ) → Option T
  on_top d es = or_value (map_option value_of (last_of es)) d

  on_top-cons :
      (d : Option T) (e : T × ℕ) (es : List (T × ℕ)) → on_top d (e ∷ es) ≡ on_top (some e.0) es
  unfolding last_of
  on_top-cons d e [] = refl
  on_top-cons d e (f ∷ es) = on_top-some d (some e.0) f es
    where
      on_top-some :
          (c d' : Option T) (x : T × ℕ) (xs : List (T × ℕ)) → on_top c (x ∷ xs) ≡ on_top d' (x ∷ xs)
      on_top-some c d' x [] = refl
      on_top-some c d' x (y ∷ ys) = on_top-some c d' y ys

  on_top-append :
      (d : Option T) (xs ys : List (T × ℕ)) → on_top d (xs ++ ys) ≡ on_top (on_top d xs) ys
  on_top-append d [] ys = unfold last_of in refl
  on_top-append d (x ∷ xs) ys =
      on_top-cons d x (xs ++ ys)
      ∙ on_top-append (some x.0) xs ys
      ∙ ap (λ (o : Option T). on_top o ys) (sym (on_top-cons d x xs))

  take_while-drop :
      (p : T × ℕ → Bool) (es : List (T × ℕ))
      → take_while p es ++ drop (length (take_while p es)) es ≡ es
  take_while-drop p [] = refl
  take_while-drop p (e ∷ es) = elim (Bool-cases (p e)) [
    | inl h ↦ rw h (ap (λ (xs : List (T × ℕ)). e ∷ xs) (take_while-drop p es))
    | inr h ↦ rw h refl
  ]

  -- A confirmation moves values from pending to durable; the last value accepted stays the last.
  pub confirm-last : (l : Ledger T) (end : ℕ) → last (confirm l end) ≡ last l
  unfolding confirm last
  confirm-last l end =
      let landed : List (T × ℕ) = take_while (below end) l.pending in
      sym (on_top-append l.durable landed (drop (length landed) l.pending))
      ∙ ap (on_top l.durable) (take_while-drop (below end) l.pending)

  -- What a crash leaves: nothing pending, and the last value that is durable.
  settle-on_top :
      (l : Ledger T) (end : ℕ)
      → settle l end
        ≡ record { durable = on_top l.durable (keep_if (below end) l.pending); pending = [] }
  unfolding settle confirm
  settle-on_top l end = rw (take_while-keep_if end l.pending) (λ i. record {
    durable = on_top l.durable (keep_if (below end) l.pending);
    pending = drop-length (keep_if (below end) l.pending) i;
  })

  keep_if-append :
      (p : T × ℕ → Bool) (xs ys : List (T × ℕ))
      → keep_if p (xs ++ ys) ≡ keep_if p xs ++ keep_if p ys
  keep_if-append p [] ys = refl
  keep_if-append p (x ∷ xs) ys = elim (Bool-cases (p x)) [
    | inl h ↦ rw h (ap (λ (zs : List (T × ℕ)). x ∷ zs) (keep_if-append p xs ys))
    | inr h ↦ rw h (keep_if-append p xs ys)
  ]

  -- What is kept of the pending values and one more.
  kept_more :
      (l : Ledger T) (value : T) (base_offset end : ℕ)
      → on_top l.durable (keep_if (below end) (l.pending ++ ((value, base_offset) ∷ []))) ≡ (
          if ltb base_offset end
          then some value
          else on_top l.durable (keep_if (below end) l.pending))
  kept_more l value base_offset end =
      ap (on_top l.durable) (keep_if-append (below end) l.pending ((value, base_offset) ∷ []))
      ∙ on_top-append l.durable (keep_if (below end) l.pending)
          (keep_if (below end) ((value, base_offset) ∷ []))
      ∙ newest (on_top l.durable (keep_if (below end) l.pending))
    where
      newest :
          (d : Option T)
          → on_top d (keep_if (below end) ((value, base_offset) ∷ []))
            ≡ (if ltb base_offset end then some value else d)
      newest d = elim (Bool-cases (ltb base_offset end)) [
        | inl h ↦ rw h (unfold last_of in refl)
        | inr h ↦ rw h (unfold last_of in refl)
      ]

  -- A crash takes back the value that was accepted last exactly if its append did not begin below the
  -- durable end: else it is the durable value. Nothing stays pending.
  pub settle-accept :
      (l : Ledger T) (value : T) (base_offset end : ℕ)
      → (last (settle (accept l value (some base_offset)) end)
          ≡ (if ltb base_offset end then some value else last (settle l end)))
        × ((settle (accept l value (some base_offset)) end).pending ≡ [])
  unfolding last accept
  settle-accept l value base_offset end =
      rw
        (
          settle-on_top (record l { pending = l.pending ++ ((value, base_offset) ∷ []) }) end,
          settle-on_top l end,
        )
        (unfold last_of in kept_more l value base_offset end, refl)
