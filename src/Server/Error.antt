-- ===== src/Server/Error.antt =====
-- picomq/pico-server/src/error.rs: the errors of the service. Their text is left out.
use picomq.Prelude.{ℕ, Bool, false, Option, none, some}

pub data ErrorKind : Type 0 where
  not_found conflict transferring closed bad_request invalid_name corrupt_batch fenced : ErrorKind
  sequence_gap match_failed durability timeout unavailable internal : ErrorKind

pub record ServiceError : Type 0 where
  pub kind : ErrorKind
  pub next_offset : Option ℕ
  pub closed : Bool
  pub producer_epoch : Option ℕ
  pub expected_seq : Option ℕ
  pub received_seq : Option ℕ

unfoldable pub of_kind : ErrorKind → ServiceError
of_kind k = record {
  kind = k;
  next_offset = none;
  closed = false;
  producer_epoch = none;
  expected_seq = none;
  received_seq = none;
}

unfoldable pub with_message : ErrorKind → Option ℕ → Bool → ServiceError
unfolding of_kind
with_message k next_offset was_closed = record (of_kind k) {
  next_offset = next_offset;
  closed = was_closed;
}

unfoldable pub fenced_at : ℕ → ServiceError
unfolding of_kind
fenced_at current_epoch = record (of_kind fenced) { producer_epoch = some current_epoch }

unfoldable pub gap_between : ℕ → ℕ → ServiceError
unfolding of_kind
gap_between expected received = record (of_kind sequence_gap) {
  expected_seq = some expected;
  received_seq = some received;
}
