-- ===== src/Server/Producers/State/Expiry.antt =====
-- picomq/pico-server/src/producers.rs: `expire`, the replay of a batch header and the id lease.
use picomq.Prelude.{
  ℕ, zero, suc, ◌-◌, Bool, not, Option, none, some, List, [], ◌∷◌, nat_ord, int_ord, bytes_ord,
  ◌==◌, ltb, leb, ℤ, pos, if◌then◌else◌, any, for_each, add_u64, as_i64, as_u64, sub_u64, Text,
}
use picomq.OrdMap.{
  OrdMap, get, remove, iter, len, contains_key, insert, remove_all, retain, scan, keys_of,
}
use picomq.Server.Producers.State.{
  Session, Tracked, http, Producers, NumericProducer, last_touched, record_numeric, batch_end,
}

-- A block of producer ids that the metadata leader gave out.
pub record IdLease : Type 0 where
  pub next : ℕ
  pub remaining : ℕ

abbrev pub id_block : ℕ
id_block = 256

unfoldable pub take_id : IdLease → Option ℤ × IdLease
take_id l =
    if l.remaining == 0
    then (none, l)
    else (some (as_i64 l.next), record { next = add_u64 l.next 1; remaining = l.remaining - 1 })

unfoldable pub refill_ids : IdLease → ℕ → IdLease
refill_ids l first = record { next = first; remaining = id_block }

abbrev pub expiry_ms : ℤ
expiry_ms = pos 86400000

abbrev pub max_tracked : ℕ
max_tracked = 1024

abbrev pub idle_ms : ℤ → Tracked → ℤ
idle_ms now_ms t = as_i64 (sub_u64 (as_u64 now_ms) (as_u64 (last_touched t)))

abbrev pub is_fresh : ℤ → ℤ × Tracked → Bool
is_fresh now_ms e = leb (idle_ms now_ms e.1) expiry_ms

-- `min_by_key`: the first of the entries touched longest ago.
unfoldable pub stalest_of : ℤ × Tracked → List (ℤ × Tracked) → ℤ × Tracked
unfolding last_touched
stalest_of best [] = best
stalest_of best (e ∷ es) =
    stalest_of (if ltb (last_touched e.1) (last_touched best.1) then e else best) es

abbrev pub drop_stalest : List (ℤ × Tracked) → OrdMap ℤ Tracked → OrdMap ℤ Tracked
drop_stalest [] tracked = tracked
drop_stalest (e ∷ es) tracked = remove (stalest_of e es).0 tracked

-- `while self.tracked.len() > MAX_TRACKED`; the fuel is the number of entries.
unfoldable pub shrink : ℕ → OrdMap ℤ Tracked → OrdMap ℤ Tracked
unfolding stalest_of
shrink zero tracked = tracked
shrink (suc fuel) tracked =
    let rest = shrink fuel (drop_stalest (iter tracked) tracked) in
    if ltb max_tracked (len tracked) then rest else tracked

abbrev pub retained : ℤ → OrdMap ℤ Tracked → OrdMap ℤ Tracked
retained now_ms tracked = retain (is_fresh now_ms) tracked

unfoldable pub expire_tracked : ℤ → OrdMap ℤ Tracked → OrdMap ℤ Tracked
unfolding shrink last_touched
expire_tracked now_ms tracked = shrink (len (retained now_ms tracked)) (retained now_ms tracked)

abbrev pub orphaned : OrdMap ℤ Tracked → Text × Session → Bool
orphaned tracked e = not (contains_key e.1.id tracked)

-- The tracked producers that stay, and the HTTP producers whose sessions went with the others.
unfoldable pub expire : Producers → ℤ → List Text × Producers
unfolding expire_tracked
expire s now_ms =
    let tracked = expire_tracked now_ms s.tracked in
    let expired = keys_of (scan (orphaned tracked) s.sessions) in
    (expired, record s { tracked = tracked; sessions = remove_all expired s.sessions })

-- One header of a batch in the log.
abbrev pub sequence_in_log : Option ℕ → ℤ → ℕ
sequence_in_log (some last) first_seq = add_u64 last 1
sequence_in_log none first_seq = as_u64 first_seq

abbrev pub is_session : ℤ → Text × Session → Bool
is_session id e = e.1.id == id

unfoldable pub fold_producer : Producers → NumericProducer → ℕ → ℕ → ℤ → Option Tracked → Producers
unfolding record_numeric
fold_producer s p record_count base_offset now_ms (some (http h)) = record s {
  tracked =
      insert p.id
        (http (record {
          last_seq = some (sequence_in_log h.last_seq p.first_seq);
          last_touched_ms = now_ms;
        }))
        s.tracked;
}
fold_producer s p record_count base_offset now_ms entry =
    if any (is_session p.id) (iter s.sessions)
    then record s {
      tracked =
          insert p.id
            (http (record { last_seq = some (as_u64 p.first_seq); last_touched_ms = now_ms }))
            s.tracked;
    }
    else record_numeric s (some (p, batch_end p.first_seq record_count)) base_offset now_ms

-- The fields of `record::BatchHeader` that `fold` reads.
pub record Header : Type 0 where
  pub base_offset : ℕ
  pub record_count : ℕ
  pub producer : Option NumericProducer

abbrev pub fold_header : ℤ → Producers → Header → Producers
fold_header now_ms s h = elim h.producer [
  | none ↦ s
  | some p ↦ fold_producer s p h.record_count h.base_offset now_ms (get p.id s.tracked)
]

-- `headers` is what `record::batch_headers` reads from the payload, `none` on an error.
unfoldable pub fold : Producers → Option (List Header) → ℤ → Producers
unfolding fold_producer
fold s none now_ms = s
fold s (some headers) now_ms = for_each (fold_header now_ms) s headers
