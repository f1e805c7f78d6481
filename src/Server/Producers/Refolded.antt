-- ===== src/Server/Producers/Refolded.antt =====
-- picomq/pico-server/src/producers.rs: the replay of a batch that was recorded when it was appended.
use picomq.Prelude.{
  ℕ, ◌+◌, ◌<◌, ◌≡◌, refl, true, some, [], ◌∷◌, int_ord, nat_ord, bytes_ord, ◌==◌, leb, ℤ, Text,
  arith, eq_self,
}
use picomq.OrdMap.{get, get-insert}
use picomq.Server.Producers.State.{
  Producers, Tracked, http, Session, NumericProducer, duplicate, decide, http_seq, record_http,
}
use picomq.Server.Producers.State.Expiry.{Header, fold, fold_producer}
use picomq.Server.Producers.State.Serving.{decide-in_session, fold_producer-sessions}
use picomq.Server.Producers.Steps.{request}

fold_recorded :
    (s : Producers) (session : Session) (seq : ℕ) (now_ms again_ms : ℤ) (q : NumericProducer)
    (record_count base_offset : ℕ)
    → q.id ≡ session.id
    → seq + 1 < 18446744073709551616
    → http_seq (
        get session.id
          (fold
            (record_http s session seq now_ms)
            (some (
              record { base_offset = base_offset; record_count = record_count; producer = some q }
              ∷ []))
            again_ms).tracked)
      ≡ some (seq + 1)
unfolding fold record_http fold_producer
fold_recorded s session seq now_ms again_ms q record_count base_offset same fits =
    let recorded : Tracked = http (record { last_seq = some seq; last_touched_ms = now_ms }) in
    let own : (session.id == session.id) ≡ true = eq_self session.id in
    let there : get session.id (record_http s session seq now_ms).tracked ≡ some recorded =
      rw (get-insert session.id session.id recorded s.tracked, own) refl in
    rw (same, there) (rw (get-insert session.id session.id _ _, own) (ground arith))

fold_recorded-sessions :
    (s : Producers) (producer_id : Text) (session : Session) (seq : ℕ) (now_ms again_ms : ℤ)
    (q : NumericProducer) (record_count base_offset : ℕ)
    → get producer_id s.sessions ≡ some session
    → get producer_id
        (fold
          (record_http s session seq now_ms)
          (some (
            record { base_offset = base_offset; record_count = record_count; producer = some q }
            ∷ []))
          again_ms).sessions
      ≡ some session
unfolding fold
fold_recorded-sessions s producer_id session seq now_ms again_ms q record_count base_offset there =
    let before : Producers = record_http s session seq now_ms in
    let kept : before.sessions ≡ s.sessions = unfold record_http in refl in
    rw
      (
        fold_producer-sessions before q record_count base_offset again_ms (get q.id before.tracked),
        kept,
      )
      there

-- An append of an HTTP session with the sequence `seq` was recorded, and then a header of its batch is
-- replayed: it counts once more. The next sequence, which the session has not sent yet, is answered as a
-- duplicate, for a producer that is in the session and `seq` below 2^64 - 1.
pub decide-fold :
    (s : Producers) (producer_id : Text) (session : Session) (seq : ℕ) (now_ms again_ms : ℤ)
    (q : NumericProducer) (record_count base_offset : ℕ)
    → get producer_id s.sessions ≡ some session
    → q.id ≡ session.id
    → seq + 1 < 18446744073709551616
    → decide
        (fold
          (record_http s session seq now_ms)
          (some (
            record { base_offset = base_offset; record_count = record_count; producer = some q }
            ∷ []))
          again_ms)
        (request producer_id session (seq + 1))
      ≡ duplicate (seq + 1)
decide-fold s producer_id session seq now_ms again_ms q record_count base_offset there same fits =
    let header : Header = record {
      base_offset = base_offset;
      record_count = record_count;
      producer = some q;
    } in
    let t : Producers = fold (record_http s session seq now_ms) (some (header ∷ [])) again_ms in
    let kept : get producer_id t.sessions ≡ some session =
      fold_recorded-sessions s producer_id session seq now_ms again_ms q record_count base_offset
        there in
    let last = fold_recorded s session seq now_ms again_ms q record_count base_offset same fits in
    let small : leb (seq + 1) (seq + 1) ≡ true = ground arith in
    rw (decide-in_session t producer_id session (seq + 1) kept, last, small) refl
