-- ===== src/Server/Producers/Kafka.antt =====
-- picomq/pico-server/src/producers.rs: the sequence window of a Kafka producer and the decision on a
-- batch.
use Prim.Native.Nat.{suc}
use picomq.Prelude.{
  ℕ, ◌-◌, ◌%◌, Bool, ◌&&◌, Option, none, some, List, [], ◌∷◌, ◌++◌, nat_ord, int_ord, ◌==◌, ltb, ℤ,
  pos, negsuc, length, if◌then◌else◌, drop, add_i64,
}

pub record Span : Type 0 where
  pub first_seq : ℤ
  pub last_seq : ℤ
  pub base_offset : ℕ

pub record Kafka : Type 0 where
  pub epoch : ℤ
  pub spans : List Span
  pub last_touched_ms : ℤ

-- `Kafka::default()`
abbrev pub new_kafka : Kafka
new_kafka = record { epoch = pos 0; spans = []; last_touched_ms = pos 0 }

abbrev pub span_window : ℕ
span_window = 5

abbrev pub slide : List Span → List Span
slide spans = if ltb span_window (length spans) then drop 1 spans else spans

unfoldable pub record_span : Kafka → ℤ → Span → ℤ → Kafka
record_span kafka epoch span now_ms =
    let kept : List Span = if epoch == kafka.epoch then kafka.spans else [] in
    record { epoch = epoch; spans = slide (kept ++ (span ∷ [])); last_touched_ms = now_ms }

-- `%` of an `i64` by a positive number takes the sign of the dividend.
abbrev pub rem_i64 : ℤ → ℕ → ℤ
rem_i64 (pos n) m = pos (n % m)
rem_i64 (negsuc n) m = if suc n % m == 0 then pos 0 else negsuc (suc n % m - 1)

-- Kafka sequences occupy `[0, i32::MAX]` and wrap to 0.
unfoldable pub next_seq : ℤ → ℕ → ℤ
next_seq seq increment = rem_i64 (add_i64 seq (pos increment)) 2147483648

pub data Decision : Type 0 where
  accepted : Decision
  duplicate : (base_offset : ℕ) → Decision
  out_of_order : (expected received : ℤ) → Decision
  fenced : (current_epoch : ℤ) → Decision

abbrev pub same_seqs : ℤ → ℤ → Span → Bool
same_seqs first_seq last_seq s = s.first_seq == first_seq && s.last_seq == last_seq

-- `iter().find`
unfoldable pub find_span : (Span → Bool) → List Span → Option Span
find_span p [] = none
find_span p (s ∷ ss) = let rest = find_span p ss in if p s then some s else rest

unfoldable pub last_span : List Span → Option Span
last_span [] = none
last_span (s ∷ []) = some s
last_span (s ∷ t ∷ ss) = last_span (t ∷ ss)

abbrev pub seq_after : Option Span → ℤ
seq_after none = pos 0
seq_after (some s) = next_seq s.last_seq 1

-- A producer's first batch at an epoch begins at 0.
abbrev pub from_zero : ℤ → Decision
from_zero first_seq = if first_seq == pos 0 then accepted else out_of_order (pos 0) first_seq

unfoldable pub in_epoch : Kafka → ℤ → ℤ → Decision
unfolding find_span last_span next_seq
in_epoch state first_seq last_seq = elim (find_span (same_seqs first_seq last_seq) state.spans) [
  | some span ↦ duplicate span.base_offset
  | none ↦
      let expected : ℤ = seq_after (last_span state.spans) in
      if first_seq == expected then accepted else out_of_order expected first_seq
]

unfoldable pub validate_numeric : Option Kafka → ℤ → ℤ → ℤ → Decision
unfolding in_epoch
validate_numeric none epoch first_seq last_seq = from_zero first_seq
validate_numeric (some state) epoch first_seq last_seq =
    if ltb epoch state.epoch
    then fenced state.epoch
    else if ltb state.epoch epoch
    then from_zero first_seq
    else in_epoch state first_seq last_seq
