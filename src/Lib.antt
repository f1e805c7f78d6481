-- ===== src/Lib.antt =====
-- PicoMQ: a verification library of the broker's metadata, authorization and producer fencing.
--
-- PicoMQ keeps streams on object storage. All nodes share one replicated state, which
-- picomq/pico-metadata changes by a log of commands: every node applies the same commands in the
-- same order with a pure function, and reads the result. What fences a dead node, who may write a
-- stream, which object ids are in use and what may be deleted are all decided there. A command goes
-- into the log as bytes, which each node decodes. In front of the streams stand the authorizer of
-- picomq/pico-auth, which decides whether a request may reach a name, and the owner of a stream in
-- picomq/pico-server, which recognizes the appends that a producer sends again.
--
-- The files and the code:
--   Prelude      shared names; orders with laws, signed and wrapping machine integers, lists, texts,
--                quantifiers and Boolean equality.
--   OrdMap       `im::OrdMap`, `BTreeMap` and `HashMap` as sorted entries, with the laws of each
--                operation.
--   Wire         a reader of bytes that may fail, words of 16, 32 and 64 bits in either byte order,
--                UTF-8, and `Reads`: rules for the round trip of a writer and its reader.
--   Engine       the types of the engine crate `s3stream` that the state stores. The engine is not
--                in the repository; none of its functions is used but `==` on its enums, and
--                `NOOP_OBJECT_ID` is the parameter `noop_object_id`.
--   Metadata.Error, Command, State, Query, Apply
--                picomq/pico-metadata/src/error.rs, command.rs, state.rs, query.rs, apply.rs. Each
--                function of the source has its name here. A part of a function that has a name of
--                its own here (a branch, a loop body) is beside it.
--   Metadata.Codec
--                picomq/pico-metadata/src/codec.rs: Primitives, Requests, Body, Whole for the code;
--                Fields, RequestsBack, Bodies, RoundTrip for its round trips.
--   Metadata.Kept
--                an invariant by its parts: it is kept by every command where each primitive write
--                keeps it under what the code has checked before (Kept/Apply). Rows and Rest are
--                shorter forms for invariants of streams and nodes, and of all else.
--   Metadata.Log, Lineage, Fencing, Registration
--                logs, what a row may become along one, and what that means for fencing.
--   Metadata.Indexed, Leases, Committed, KvBytes, SetIndex, Reachable
--                the invariants of the tables and their indexes.
--   Metadata.LeastLoaded, Transfer, KvEffects, Retries, SpanOrder
--                what single commands do, and do when they are sent again; the order of spans.
--   Metadata.Tests
--                a small log and a batch, at which the theorems are applied.
--   Auth.Error, Name, Operation, Scope, Narrow, Record, Authorizer
--                picomq/pico-auth/src/error.rs, scope.rs, narrow.rs, record.rs (Record and
--                Record.Decode), authorizer.rs, token.rs, and
--                picomq/pico-common/src/name.rs. Same has the tests `==`
--                that Rust derives.
--   Auth.Narrow.Names, Sound, Chain
--                what containment of scopes means for requests, along any chain of issues.
--   Auth.Prefix, Auth.Record.RoundTrip, Auth.Authorizer.Sound, Issued
--                prefixed names, the bytes of records, what the authorizer lets in, and the token
--                that was issued.
--   Server.Error, Codec
--                picomq/pico-server/src/error.rs and codec.rs.
--   Server.Producers.Kafka, Ledger, State, State.Expiry, Rows, StreamRow
--                picomq/pico-server/src/producers.rs: the windows of Kafka producers, the ledger of
--                what a crash may take back, sessions and admission, expiry, rows as bytes, the
--                stream sequence and the load by a new owner.
--   Server.Producers.Steps
--                what the owner of a stream does with them, as steps: the calls that
--                picomq/pico-server/src/service.rs makes, replays and expiry among them, in any order.
--   Server.Producers.Sequence, Window, Retried, Landing, Kept, Once, Expired, Reachable, Refolded,
--   Ledger.Settled, State.Serving, State.Sessions, Rows.Back, StreamRow.Handover
--                the proofs about them.
--
-- Choices of the model:
--   * `u64` counters and sums wrap modulo 2^64, as in a release build. A log (Metadata.Log) asks
--     of each command that the counter it advances does not pass the end of its type: the next
--     stream, object and producer ids stay below 2^64, and a node's epoch is an `i64` with a
--     successor. Sums of bytes may wrap.
--   * `apply` works on a clone, so what a failed command has written is never seen: an operation
--     returns the next state or an error. Formatted messages are left out of the errors.
--   * A string is the list of its UTF-8 bytes, and a reader of a string checks that they are UTF-8.
--     A `BTreeSet` is the ordered list of its elements.
--   * Loops over lists are structural. The loop of `expire` that drops the stalest producer runs on
--     fuel, as much as there are entries; each round drops one.
--   * A query that looks up a key that must be there returns an option, `none` where the code
--     would panic. `row.object.offset_ranges[0]` on an empty list is likewise no row.
--   * Base64 and SHA-256 (`Crypto`; `IsBase64` is what RFC 4648 says), the answer of the token store (`fetched`), and the headers
--     that `record::batch_headers` finds in the replayed bytes are arguments. A lock that is held for
--     one operation makes that operation one step.
--
-- Not modelled: the snapshots of the state; manager.rs, sink.rs, view.rs and lifecycle.rs of
-- pico-metadata, the store of tokens in pico-auth, and the reads around `fold` in producers.rs,
-- which are asynchronous; the drawing of secrets; JSON forms; groups, topics and record
-- framing of pico-server; and the other crates, which serve protocols on top of these.

pub mod Prelude
pub mod OrdMap
pub mod Wire
pub mod Engine
pub mod Metadata
pub mod Auth
pub mod Server
