-- ===== src/Server/Producers/Ledger.antt =====
-- picomq/pico-server/src/producers.rs: `Ledger`, the values accepted in order and not yet all
-- durable.
pub mod Settled
use picomq.Prelude.{
  ℕ, ◌≡◌, Bool, true, false, not, Option, none, some, List, [], ◌∷◌, ◌++◌, nat_ord, Ord, ltb,
  length, if◌then◌else◌, keep_if, take_while, drop, map_or, map_option,
}

pub record Ledger {ℓ} (T : Type ℓ) : Type ℓ where
  pub durable : Option T
  pub pending : List (T × ℕ)

module _ {ℓ} {T : Type ℓ} where
  unfoldable pub last_of : List (T × ℕ) → Option (T × ℕ)
  last_of [] = none
  last_of (e ∷ []) = some e
  last_of (e ∷ f ∷ es) = last_of (f ∷ es)

  abbrev pub value_of : T × ℕ → T
  value_of e = e.0

  -- `Option::or`
  abbrev pub or_value : Option T → Option T → Option T
  or_value (some a) o = some a
  or_value none o = o

  unfoldable pub last : Ledger T → Option T
  unfolding last_of
  last l = or_value (map_option value_of (last_of l.pending)) l.durable

  -- Without an offset the value is durable at once.
  unfoldable pub accept : Ledger T → T → Option ℕ → Ledger T
  accept l value (some base_offset) = record l {
    pending = l.pending ++ ((value, base_offset) ∷ []);
  }
  accept l value none = record l { durable = some value }

  abbrev pub below : ℕ → T × ℕ → Bool
  below durable_end e = ltb e.1 durable_end

  unfoldable pub confirm : Ledger T → ℕ → Ledger T
  unfolding last_of
  confirm l durable_end =
      let landed = take_while (below durable_end) l.pending in
      record {
        durable = or_value (map_option value_of (last_of landed)) l.durable;
        pending = drop (length landed) l.pending;
      }

  unfoldable pub settle : Ledger T → ℕ → Ledger T
  unfolding confirm
  settle l durable_end =
      confirm (record l { pending = keep_if (below durable_end) l.pending }) durable_end

module _ {ℓ} {T : Type ℓ} ⦃o : Ord T⦄ where
  -- `None` is below every value.
  abbrev pub raised : Option T → T → T
  raised none floor = floor
  raised (some d) floor = if ltb d floor then floor else d

  unfoldable pub raise : Ledger T → T → Ledger T
  raise l floor =
      let top : T = raised l.durable floor in
      record { durable = some top; pending = keep_if (λ (e : T × ℕ). ltb top e.0) l.pending }
