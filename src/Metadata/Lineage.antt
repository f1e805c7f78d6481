-- ===== src/Metadata/Lineage.antt =====
-- How the states of one log relate: what a row of a stream or of a node may become.
use native.Mathlib.Nat.{le_refl, le_trans, le_of_lt}
use mathlib.Core.Path.{subst}
use picomq.Prelude.{
  ℕ, ◌+◌, ◌<◌, ◌≤◌, ◌≡◌, refl, sym, ◌∙◌, true, false, inl, inr, Option, none, some, arith, nat_ord,
  int_ord, ◌==◌, eq_of_test, map_option, ltb, ℤ, u64_mod, add_u64, Bool-cases,
}
use picomq.OrdMap.{get, insert, get-insert}
use picomq.Metadata.State.{StreamRow, NodeRow, MetadataState, put_stream, remove_stream}
use picomq.Metadata.State.Tables.{
  put_row, put_stream-SameTables, remove_stream-SameTables, get-put_stream, get-remove_stream,
}
use picomq.Metadata.Apply.Streams.{created, fresh_stream}
use picomq.Metadata.Kept.{Kept, HasIds, RowSucceeds, NodeSucceeds}
use picomq.Metadata.Kept.Frame.{Same, bare}
use picomq.Metadata.Kept.Ids.{
  bare-injective, put_stream-HasIds, remove_stream-HasIds, Same-HasIds, next-grows,
}
use picomq.Metadata.Kept.Rows.{Kept_of_RowsKept}

-- A stream row may be deleted for good; one that is there succeeds an earlier one.
abbrev pub StreamLater : Option StreamRow → Option StreamRow → Type 0
StreamLater old none = Unit
StreamLater none (some new) = ⊥
StreamLater (some old) (some new) = RowSucceeds old new

-- A node row is never removed.
abbrev pub NodeLater : Option NodeRow → Option NodeRow → Type 0
NodeLater old (some new) = NodeSucceeds old new
NodeLater none none = Unit
NodeLater (some old) none = ⊥

-- `s` is a state of the log that `s₀` came from, at or after `s₀`.
pub record Lineage (s₀ s : MetadataState) : Type 0 where
  pub ids : HasIds s
  pub next_grows : s₀.next_stream_id ≤ s.next_stream_id
  pub streams : (i : ℕ) → i < s₀.next_stream_id → StreamLater (get i s₀.streams) (get i s.streams)
  pub nodes : (n : ℤ) → NodeLater (get n s₀.nodes) (get n s.nodes)

RowSucceeds-refl : (row : StreamRow) → RowSucceeds row row
RowSucceeds-refl row = record {
  same_id = refl;
  start_grows = le_refl _;
  epoch_grows = inr (refl, λ o. (o, refl));
}

ltb_trans : (a b c : ℤ) → ltb a b ≡ true → ltb b c ≡ true → ltb a c ≡ true
ltb_trans a b c h k = ground (arith, int_ord.lt_trans a b c)

pub RowSucceeds-trans : (a b c : StreamRow) → RowSucceeds a b → RowSucceeds b c → RowSucceeds a c
RowSucceeds-trans a b c h k = record {
  same_id = k.same_id ∙ h.same_id;
  start_grows = le_trans h.start_grows k.start_grows;
  epoch_grows = elim h.epoch_grows [
    | inl p ↦ elim k.epoch_grows [
      | inl q ↦ inl (ltb_trans a.epoch b.epoch c.epoch p q)
      | inr (e, _) ↦ inl (rw (sym e) p)
    ]
    | inr (e, f) ↦ elim k.epoch_grows [
      | inl q ↦ inl (rw e q)
      | inr (e', g) ↦
          inr (e ∙ e', λ o. let (o', n') = g o in let (o'', n'') = f o' in (o'', n' ∙ n''))
    ]
  ];
}

NodeSucceeds-trans :
    (o : Option NodeRow) (b c : NodeRow)
    → NodeSucceeds o b
    → NodeSucceeds (some b) c
    → NodeSucceeds o c
NodeSucceeds-trans none b c h k = tt
NodeSucceeds-trans (some a) b c h k = elim h [
  | inl p ↦ elim k [
    | inl q ↦ inl (ltb_trans a.epoch b.epoch c.epoch p q)
    | inr (e, _) ↦ inl (rw e p)
  ]
  | inr (e, f) ↦ elim k [ inl q ↦ inl (rw (sym e) q) | inr (e', g) ↦ inr (e' ∙ e, λ x. g (f x)) ]
]

NodeLater-succeeds :
    (o p : Option NodeRow) (new : NodeRow)
    → NodeLater o p
    → NodeSucceeds p new
    → NodeLater o (some new)
NodeLater-succeeds none p new h k = tt
NodeLater-succeeds (some a) (some b) new h k = NodeSucceeds-trans (some a) b new h k
NodeLater-succeeds (some a) none new h k = absurd h

pub Lineage-refl : (s : MetadataState) → HasIds s → Lineage s s
Lineage-refl s ids = record {
  ids = ids;
  next_grows = le_refl _;
  streams = λ i h. stream (get i s.streams);
  nodes = λ n. node (get n s.nodes);
}
  where
    stream : (o : Option StreamRow) → StreamLater o o
    stream none = tt
    stream (some row) = RowSucceeds-refl row

    node : (o : Option NodeRow) → NodeLater o o
    node none = tt
    node (some row) = inr (refl, λ f. f)

StreamLater-trans :
    (o : Option StreamRow) (b c : StreamRow)
    → StreamLater o (some b)
    → RowSucceeds b c
    → StreamLater o (some c)
StreamLater-trans none b c h k = h
StreamLater-trans (some a) b c h k = RowSucceeds-trans a b c h k

-- Neither relation looks at the byte count.
RowSucceeds-bare : (o a b : StreamRow) → bare b ≡ bare a → RowSucceeds o a → RowSucceeds o b
RowSucceeds-bare o a b e h =
    let k : RowSucceeds o (bare a) = record {
      same_id = h.same_id;
      start_grows = h.start_grows;
      epoch_grows = h.epoch_grows;
    } in
    let l = subst (RowSucceeds o) (sym e) k in
    record { same_id = l.same_id; start_grows = l.start_grows; epoch_grows = l.epoch_grows }

StreamLater-bare :
    (o a b : Option StreamRow)
    → map_option bare b ≡ map_option bare a
    → StreamLater o a
    → StreamLater o b
StreamLater-bare o a none e h = tt
StreamLater-bare o none (some b) e h = cc
StreamLater-bare none (some a) (some b) e h = h
StreamLater-bare (some o) (some a) (some b) e h = RowSucceeds-bare o a b (bare-injective b a e) h

below : (i n : ℕ) → i < n → (i == n) ≡ false
below i n h = ground arith

module _ (s₀ : MetadataState) where
  put-Lineage :
      (s : MetadataState) (old new : StreamRow)
      → get new.stream_id s.streams ≡ some old
      → RowSucceeds old new
      → Lineage s₀ s
      → Lineage s₀ (put_stream s new)
  put-Lineage s old new found r h =
      let f = put_stream-SameTables s new in
      record {
        ids = put_stream-HasIds s new (h.ids.fresh new.stream_id old found) h.ids;
        next_grows = rw f.next h.next_grows;
        nodes = λ n. rw f.nodes (h.nodes n);
        streams = λ i lt. elim (Bool-cases (i == new.stream_id)) [
          | inl e ↦
              let here : get i s.streams ≡ some old = rw (eq_of_test i new.stream_id e) found in
              rw (get-put_stream s new i, e)
                (StreamLater-trans (get i s₀.streams) old (put_row s new)
                  (subst (StreamLater (get i s₀.streams)) here (h.streams i lt))
                  (RowSucceeds-bare old new (put_row s new) refl r))
          | inr e ↦ rw (get-put_stream s new i, e) (h.streams i lt)
        ];
      }

  create-Lineage :
      (s : MetadataState) → s.next_stream_id + 1 < u64_mod → Lineage s₀ s → Lineage s₀ (created s)
  create-Lineage s fits h =
      let s' = record s { next_stream_id = add_u64 s.next_stream_id 1 } in
      let new = fresh_stream s.next_stream_id in
      let f = put_stream-SameTables s' new in
      let grows = next-grows s.next_stream_id fits in
      record {
        ids = put_stream-HasIds s' new grows (record {
          own = h.ids.own;
          fresh = λ i row e. le_trans (h.ids.fresh i row e) (le_of_lt grows);
        });
        next_grows = rw f.next (le_trans h.next_grows (le_of_lt grows));
        nodes = λ n. rw f.nodes (h.nodes n);
        streams = λ i lt.
            rw (get-put_stream s' new i, below i s.next_stream_id (le_trans lt h.next_grows))
              (h.streams i lt);
      }

  delete-Lineage : (s : MetadataState) (i : ℕ) → Lineage s₀ s → Lineage s₀ (remove_stream s i)
  delete-Lineage s j h =
      let f = remove_stream-SameTables s j in
      record {
        ids = remove_stream-HasIds s j h.ids;
        next_grows = rw f.next h.next_grows;
        nodes = λ n. rw f.nodes (h.nodes n);
        streams = λ i lt. elim (Bool-cases (i == j)) [
          | inl e ↦ rw (get-remove_stream s i j, e) tt
          | inr e ↦ rw (get-remove_stream s i j, e) (h.streams i lt)
        ];
      }

  nodes-Lineage :
      (s : MetadataState) (n : ℤ) (new : NodeRow)
      → NodeSucceeds (get n s.nodes) new
      → Lineage s₀ s
      → Lineage s₀ (record s { nodes = insert n new s.nodes })
  nodes-Lineage s n new r h = record {
    ids = record { own = h.ids.own; fresh = h.ids.fresh };
    next_grows = h.next_grows;
    streams = h.streams;
    nodes = λ j. elim (Bool-cases (j == n)) [
      | inl e ↦
          rw (get-insert j n new s.nodes, e, eq_of_test j n e)
            (NodeLater-succeeds (get n s₀.nodes) (get n s.nodes) new (h.nodes n) r)
      | inr e ↦ rw (get-insert j n new s.nodes, e) (h.nodes j)
    ];
  }

  Same-Lineage : (s t : MetadataState) → Same s t → Lineage s₀ s → Lineage s₀ t
  Same-Lineage s t f h = record {
    ids = Same-HasIds s t f h.ids;
    next_grows = rw f.next h.next_grows;
    streams = λ i lt. StreamLater-bare (get i s₀.streams) _ _ (f.rows i) (h.streams i lt);
    nodes = λ n. rw f.nodes (h.nodes n);
  }

  pub Lineage-Kept : Kept (Lineage s₀)
  Lineage-Kept = Kept_of_RowsKept (record {
    ids = λ s h. h.ids;
    put = put-Lineage;
    create = create-Lineage;
    delete = delete-Lineage;
    nodes = nodes-Lineage;
    same = Same-Lineage;
  })
