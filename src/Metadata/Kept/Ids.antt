-- ===== src/Metadata/Kept/Ids.antt =====
-- The ids of the stream rows stay right under each write of the streams.
use picomq.Prelude.{
  ℕ, ◌+◌, ◌<◌, ◌≡◌, refl, sym, ◌∙◌, ap, Option, none, some, arith, nat_ord, int_ord, map_option,
  u64_mod, add_u64,
}
use picomq.OrdMap.{get}
use picomq.Metadata.State.{StreamRow, MetadataState, put_stream, remove_stream}
use picomq.Metadata.State.Tables.{
  put_stream-SameTables, remove_stream-SameTables, get-put_stream, get-remove_stream,
}
use picomq.Metadata.Kept.{HasIds}
use picomq.Metadata.Kept.Frame.{Same, bare}

pub bare-injective : (a b : StreamRow) → some (bare a) ≡ some (bare b) → bare a ≡ bare b
bare-injective a b p = cc

-- The row before a change of byte counts.
row_before :
    (o : Option StreamRow) (b : StreamRow)
    → some (bare b) ≡ map_option bare o
    → (a : StreamRow) × (o ≡ some a) × (bare b ≡ bare a)
row_before none b e = cc
row_before (some a) b e = (a, refl, bare-injective b a e)

-- The tables of a state as `HasIds` reads them after a row is put.
pub put_stream-HasIds :
    (s : MetadataState) (new : StreamRow)
    → new.stream_id < s.next_stream_id
    → HasIds s
    → HasIds (put_stream s new)
put_stream-HasIds s new lt h = record {
  own = λ i row e.
      ground (arith, h.own i row, get-put_stream s new i, nat_ord.eq_of_cmp i new.stream_id);
  fresh = λ i row e.
      rw (put_stream-SameTables s new).next
        (ground (arith, h.fresh i row, get-put_stream s new i, nat_ord.eq_of_cmp i new.stream_id));
}

pub remove_stream-HasIds : (s : MetadataState) (i : ℕ) → HasIds s → HasIds (remove_stream s i)
remove_stream-HasIds s j h = record {
  own = λ i row e. ground (arith, h.own i row, get-remove_stream s i j);
  fresh = λ i row e.
      rw (remove_stream-SameTables s j).next
        (ground (arith, h.fresh i row, get-remove_stream s i j));
}

pub Same-HasIds : (s t : MetadataState) → Same s t → HasIds s → HasIds t
Same-HasIds s t f h = record {
  own = λ i row e.
      let (old, found, same) =
        row_before (get i s.streams) row (sym (ap (map_option bare) e) ∙ f.rows i) in
      ap (λ (r : StreamRow). r.stream_id) same ∙ h.own i old found;
  fresh = λ i row e.
      let (old, found, same) =
        row_before (get i s.streams) row (sym (ap (map_option bare) e) ∙ f.rows i) in
      rw f.next (h.fresh i old found);
}

pub next-grows : (n : ℕ) → n + 1 < u64_mod → n < add_u64 n 1
next-grows n h = omega arith
