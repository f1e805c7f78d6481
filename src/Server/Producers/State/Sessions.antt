-- ===== src/Server/Producers/State/Sessions.antt =====
-- picomq/pico-server/src/producers.rs: the appends of an HTTP session are accepted one after the other.
use Prim.Native.Nat.{suc}
use picomq.Prelude.{
  ℕ, ◌+◌, ◌<◌, ◌≡◌, refl, sym, ◌∙◌, Bool, true, false, not, ◌&&◌, ◌||◌, none, some, List, [], ◌∷◌,
  ◌++◌, nat_ord, int_ord, bytes_ord, ◌==◌, ℤ, arith, Bool-cases, inl, inr, if◌then◌else◌, length,
  length-append_lists, range_from, Text, eq_self, eq_comm, eq_of_test, ap, zero,
}
use picomq.OrdMap.{get, get-insert, contains_key}
use picomq.Server.Producers.State.{
  Producers, http, Session, accepted, decide, in_session, http_seq, expected_after, establish,
  record_http, record_numeric, forget, answer, admit_numeric, batch_end, known_kafka, note_appended,
}
use picomq.Server.Producers.Kafka
use picomq.Server.Producers.Kafka.{validate_numeric}
use picomq.Server.Producers.State.Expiry.{expire, fold_header}
use picomq.Server.Producers.Steps.{Step, Run, request}
use picomq.Server.Producers.Landing.{apart_from, get-record_numeric}
use picomq.Server.Producers.Kept.{
  zero_more, get-establish, get-record_http, note_appended-tracked, note_appended-sessions,
}
use picomq.Server.Producers.State.Serving.{
  header_apart, is_accepted, decide-in_session, accepted-expected, Serving, Serving-frame,
  answer-Serving, fold_header-Serving, expire-Serving,
}

-- The step leaves the session to its own appends: its id is not that of a Kafka producer or of another
-- session, its producer does not go to another session, expiry does not drop it, and no batch of it is
-- replayed.
abbrev pub apart_step : {s t : Producers} → Text → Session → Step s t → Bool
apart_step producer_id session (Step.numeric s q record_count base_offset now_ms last_seq e) =
    not (q.id == session.id)
apart_step producer_id session (Step.asked s q record_count now_ms) = header_apart session.id q
apart_step producer_id session (Step.established s other_id other now_ms) =
    not (other_id == producer_id)
    && not (other.id == session.id)
    && apart_from session.id (get other_id s.sessions)
apart_step producer_id session (Step.served s other_id other seq now_ms there e) =
    (other_id == producer_id) || not (other.id == session.id)
apart_step producer_id session (Step.expired s now_ms) =
    contains_key producer_id (expire s now_ms).1.sessions
apart_step producer_id session (Step.noted s base_offset next_offset) = true
apart_step producer_id session (Step.replayed s header now_ms) =
    header_apart session.id header.producer

unfoldable pub apart : {s t : Producers} → Text → Session → Run s t → Bool
apart producer_id session Run.done = true
apart producer_id session (Run.more r step) =
    apart producer_id session r && apart_step producer_id session step

-- The sequences of the session's appends that were accepted, in their order.
abbrev pub taken_step : {s t : Producers} → Text → Step s t → List ℕ
taken_step producer_id (Step.served s other_id other seq now_ms there e) =
    if other_id == producer_id then seq ∷ [] else []
taken_step producer_id _ = []

unfoldable pub taken : {s t : Producers} → Text → Run s t → List ℕ
taken producer_id Run.done = []
taken producer_id (Run.more r step) = taken producer_id r ++ taken_step producer_id step

establish-there :
    (s : Producers) (producer_id : Text) (session : Session) (now_ms : ℤ)
    → (get producer_id (establish s producer_id session now_ms).sessions ≡ some session)
      × (http_seq (get session.id (establish s producer_id session now_ms).tracked) ≡ none)
unfolding establish
establish-there s producer_id session now_ms = (
  rw (get-insert producer_id producer_id session s.sessions, eq_self producer_id) refl,
  rw
      (
        get-insert session.id session.id
            (http (record { last_seq = none; last_touched_ms = now_ms }))
            (forget (get producer_id s.sessions) s.tracked),
        eq_self session.id,
      )
      refl,
)

get-record_http_own :
    (s : Producers) (session : Session) (seq : ℕ) (now_ms : ℤ)
    → http_seq (get session.id (record_http s session seq now_ms).tracked) ≡ some seq
unfolding record_http
get-record_http_own s session seq now_ms =
    let own : (session.id == session.id) ≡ true = eq_self session.id in
    rw
      (
        get-insert session.id session.id
            (http (record { last_seq = some seq; last_touched_ms = now_ms })) s.tracked,
        own,
      )
      refl

-- What a step takes of the session begins at the sequence that is expected, and the next one is
-- expected after it.
record Takes (t : Producers) (producer_id : Text) (session : Session) (n : ℕ) (seqs : List ℕ)
    : Type 0 where
  range : seqs ≡ range_from n (length seqs)
  serving : Serving t producer_id session (n + length seqs)

Takes-none :
    (t : Producers) (producer_id : Text) (session : Session) (n : ℕ)
    → Serving t producer_id session n
    → Takes t producer_id session n []
Takes-none t producer_id session n h = record { range = refl; serving = rw (zero_more n) at h }

served-Takes :
    (s : Producers) (producer_id : Text) (session : Session) (n seq : ℕ) (now_ms : ℤ)
    → decide s (request producer_id session seq) ≡ accepted session.epoch seq
    → n + 1 < 18446744073709551616
    → Serving s producer_id session n
    → Takes (record_http s session seq now_ms) producer_id session n (seq ∷ [])
served-Takes s producer_id session n seq now_ms e fits h =
    let decided = decide-in_session s producer_id session seq h.there in
    let yes : is_accepted
          (in_session (request producer_id session seq) (http_seq (get session.id s.tracked)))
        ≡ true =
      rw (sym decided ∙ e) refl in
    let now : seq ≡ n =
      accepted-expected (request producer_id session seq) (http_seq (get session.id s.tracked)) yes
      ∙ h.next in
    let after : expected_after
          (http_seq (get session.id (record_http s session seq now_ms).tracked))
        ≡ n + 1 =
      rw (get-record_http_own s session seq now_ms, now) (ground arith) in
    record {
      range = rw now refl;
      serving = record { there = unfold record_http in h.there; next = after };
    }

Step-Takes :
    {s t : Producers} (producer_id : Text) (session : Session) (n : ℕ) (step : Step s t)
    → apart_step producer_id session step ≡ true
    → n + length (taken_step producer_id step) < 18446744073709551616
    → Serving s producer_id session n
    → Takes t producer_id session n (taken_step producer_id step)
unfolding admit_numeric
Step-Takes producer_id session n (Step.numeric s q record_count base_offset now_ms last_seq e) u
      fits h =
    let other : (session.id == q.id) ≡ false = rw (eq_comm session.id q.id) (ground arith) in
    Takes-none (record_numeric s (some (q, last_seq)) base_offset now_ms) producer_id session n (
      Serving-frame s (record_numeric s (some (q, last_seq)) base_offset now_ms) producer_id session
        n (unfold record_numeric in refl)
        (rw (get-record_numeric s q last_seq now_ms base_offset session.id, other) refl) h)
Step-Takes producer_id session n (Step.asked s none record_count now_ms) u fits h =
    Takes-none s producer_id session n h
Step-Takes producer_id session n (Step.asked s (some q) record_count now_ms) u fits h =
    let last_seq : ℤ = batch_end q.first_seq record_count in
    let d : Kafka.Decision =
      validate_numeric (known_kafka (get q.id s.tracked)) q.epoch q.first_seq last_seq in
    Takes-none (answer s q last_seq now_ms d).1 producer_id session n
      (answer-Serving s producer_id session n q last_seq now_ms d (ground arith) h)
Step-Takes producer_id session n (Step.established s other_id other now_ms) u fits h =
    let apart_id : (producer_id == other_id) ≡ false =
      rw (eq_comm producer_id other_id) (ground arith) in
    Takes-none (establish s other_id other now_ms) producer_id session n (
      Serving-frame s (establish s other_id other now_ms) producer_id session n
        (unfold establish in rw (get-insert producer_id other_id other s.sessions, apart_id) refl)
        (get-establish session.id s other_id other now_ms (ground arith)) h)
Step-Takes producer_id session n (Step.served s other_id other seq now_ms there e) u fits h =
    elim (Bool-cases (other_id == producer_id)) [
      | inl c ↦
          let same_id : other_id ≡ producer_id = eq_of_test other_id producer_id c in
          let same : other ≡ session = cc (rw same_id at there, h.there) in
          let decided : decide s (request producer_id session seq) ≡ accepted session.epoch seq =
            rw (same_id, same) at e in
          let one : n + 1 < 18446744073709551616 = rw c at fits in
          rw (c, same) (served-Takes s producer_id session n seq now_ms decided one h)
      | inr c ↦ rw c (
          Takes-none (record_http s other seq now_ms) producer_id session n (
            Serving-frame s (record_http s other seq now_ms) producer_id session n
              (unfold record_http in refl)
              (get-record_http session.id s other seq now_ms (ground arith)) h))
    ]
Step-Takes producer_id session n (Step.expired s now_ms) u fits h =
    Takes-none (expire s now_ms).1 producer_id session n
      (expire-Serving s producer_id session n now_ms u h)
Step-Takes producer_id session n (Step.noted s base_offset next_offset) u fits h =
    Takes-none (note_appended s base_offset next_offset) producer_id session n (
      Serving-frame s (note_appended s base_offset next_offset) producer_id session n
        (ap (get producer_id) (note_appended-sessions s base_offset next_offset))
        (rw (note_appended-tracked s base_offset next_offset) refl) h)
Step-Takes producer_id session n (Step.replayed s header now_ms) u fits h =
    Takes-none (fold_header now_ms s header) producer_id session n (
      fold_header-Serving s producer_id session n header.record_count header.base_offset now_ms
        header.producer u h)

range_from-append :
    (n m a b : ℕ) → m ≡ n + a → range_from n a ++ range_from m b ≡ range_from n (a + b)
range_from-append n m zero b h =
    let same : m ≡ n = omega arith in let less : 0 + b ≡ b = omega arith in rw (same, less) refl
range_from-append n m (suc a) b h =
    let count : suc a + b ≡ suc (a + b) = omega arith in
    rw count (ap (λ (xs : List ℕ). n ∷ xs) (range_from-append (suc n) m a b (omega arith)))

Run-Takes :
    {s t : Producers} (producer_id : Text) (session : Session) (n : ℕ) (r : Run s t)
    → apart producer_id session r ≡ true
    → n + length (taken producer_id r) < 18446744073709551616
    → Serving s producer_id session n
    → Takes t producer_id session n (taken producer_id r)
unfolding apart taken
Run-Takes producer_id session n Run.done u fits h = Takes-none _ producer_id session n h
Run-Takes producer_id session n (Run.more r step) u fits h =
    let xs : List ℕ = taken producer_id r in
    let ys : List ℕ = taken_step producer_id step in
    let count : length (xs ++ ys) ≡ length xs + length ys = length-append_lists xs ys in
    let before = Run-Takes producer_id session n r (ground arith) (omega (arith, count)) h in
    let now =
      Step-Takes producer_id session (n + length xs) step (ground arith) (omega (arith, count))
        before.serving in
    let joined : xs ++ ys ≡ range_from n (length xs) ++ range_from (n + length xs) (length ys) =
      λ i. before.range i ++ now.range i in
    let sum : n + length xs + length ys ≡ n + (length xs + length ys) = omega arith in
    record {
      range = rw count (joined ∙ range_from-append n (n + length xs) (length xs) (length ys) refl);
      serving = rw count (rw sum at now.serving);
    }

-- After an HTTP session was established the owner takes any steps, appends and replays of other
-- producers and expiries among them, in which no Kafka producer or other session has the session's id,
-- its producer goes to no other session, no expiry drops it, and no batch of it is replayed. The
-- session's appends that are accepted, fewer than 2^64, have the sequences 0, 1, 2, ... in this order.
pub serve-establish :
    (s t : Producers) (producer_id : Text) (session : Session) (now_ms : ℤ)
    (r : Run (establish s producer_id session now_ms) t)
    → apart producer_id session r ≡ true
    → length (taken producer_id r) < 18446744073709551616
    → taken producer_id r ≡ range_from 0 (length (taken producer_id r))
serve-establish s t producer_id session now_ms r u fits =
    let (there, none_yet) = establish-there s producer_id session now_ms in
    (Run-Takes producer_id session 0 r u (omega arith)
      (record { there = there; next = rw none_yet refl })).range
