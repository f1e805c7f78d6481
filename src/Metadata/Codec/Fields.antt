-- ===== src/Metadata/Codec/Fields.antt =====
-- picomq/pico-metadata/src/codec.rs: the primitives and the requests are read back.
use picomq.Prelude.{
  ℕ, ◌%◌, ◌<◌, ◌≡◌, refl, true, List, [], ◌∷◌, ℤ, length, All, Text, Bytes, as_u64, arith,
  bytes_ord,
}
use picomq.OrdMap.{OrdMap, iter}
use picomq.OrdMap.Refill.{refill, refill-iter}
use picomq.Wire.{
  Reader, le_value, bytes_mod, le_value-le, as_u32, as_i32-as_u32, as_i64-as_u64, as_u32-lt,
  as_u64-lt, IsI32, IsI64, is_utf8, u32_mod, many,
}
use picomq.Wire.Reads.{
  Reads, join, Reads-bind, Reads-map, Reads-last, Reads-pure, Reads-many, Reads-chunk,
  Reads-reject_if, Reads-le, Reads-eq,
}
use picomq.Metadata.Command.{Proposer}
use picomq.Metadata.Codec.Primitives.{
  CodecError, corrupt, put_u32, put_u64, put_i32, put_i64, put_len, put_str, put_blob, put_pair,
  put_str_map, put_proposer, get_u8, get_u32, get_i32, get_u64, get_i64, get_str, get_blob,
  get_pair, get_str_map, get_proposer,
}
use picomq.Metadata.Codec.Requests.{put_ids, get_ids}

abbrev pub IsU32 : ℕ → Type 0
IsU32 n = n < 4294967296

abbrev pub IsU64 : ℕ → Type 0
IsU64 n = n < 18446744073709551616

pub get_u8-Reads : (v : ℕ) → Reads get_u8 (v ∷ []) v
unfolding get_u8
get_u8-Reads v =
    Reads-eq (Reads-map _ (Reads-chunk corrupt (v ∷ []))) (unfold le_value in omega arith)

u32_fits : (v : ℕ) → IsU32 v → v < bytes_mod 4
unfolding bytes_mod
u32_fits v h = omega arith

u64_fits : (v : ℕ) → IsU64 v → v < bytes_mod 8
unfolding bytes_mod
u64_fits v h = omega arith

pub get_u32-Reads : (v : ℕ) → IsU32 v → Reads get_u32 (put_u32 v) v
unfolding get_u32
get_u32-Reads v h = Reads-eq (Reads-map _ (Reads-le corrupt 4 v)) (le_value-le 4 v (u32_fits v h))

pub get_u64-Reads : (v : ℕ) → IsU64 v → Reads get_u64 (put_u64 v) v
unfolding get_u64
get_u64-Reads v h = Reads-eq (Reads-map _ (Reads-le corrupt 8 v)) (le_value-le 8 v (u64_fits v h))

pub get_i32-Reads : (z : ℤ) → IsI32 z → Reads get_i32 (put_i32 z) z
unfolding get_i32
get_i32-Reads z h =
    Reads-eq (Reads-map _ (Reads-le corrupt 4 (as_u32 z)))
      (rw (le_value-le 4 (as_u32 z) (as_u32-lt z)) (as_i32-as_u32 z h))

pub get_i64-Reads : (z : ℤ) → IsI64 z → Reads get_i64 (put_i64 z) z
unfolding get_i64
get_i64-Reads z h =
    Reads-eq (Reads-map _ (Reads-le corrupt 8 (as_u64 z)))
      (rw (le_value-le 8 (as_u64 z) (as_u64-lt z)) (as_i64-as_u64 z h))

-- A length is written as it is where a `u32` holds it.
pub get_len-Reads {ℓ} :
    {A : Type ℓ} (xs : List A) → IsU32 (length xs) → Reads get_u32 (put_len xs) (length xs)
get_len-Reads xs h =
    let e : length xs % u32_mod ≡ length xs = omega arith in rw e (get_u32-Reads (length xs) h)

abbrev pub IsBlob : Bytes → Type 0
IsBlob s = IsU32 (length s)

abbrev pub IsStr : Text → Type 0
IsStr s = IsU32 (length s) × (is_utf8 s ≡ true)

pub get_blob-Reads : (s : Bytes) → IsBlob s → Reads get_blob (put_blob s) s
unfolding get_blob put_blob
get_blob-Reads s fits = Reads-bind _ (get_len-Reads s fits) (Reads-chunk corrupt s)

pub get_str-Reads : (s : Text) → IsStr s → Reads get_str (put_str s) s
unfolding get_str put_str
get_str-Reads s (fits, valid) = Reads-bind _ (get_len-Reads s fits) (
    Reads-last _ (Reads-chunk corrupt s)
      (Reads-last _ (Reads-reject_if corrupt (rw valid refl)) (Reads-pure s)))

get_pair-Reads : (e : Text × Text) → IsStr e.0 × IsStr e.1 → Reads get_pair (put_pair e) e
unfolding get_pair
get_pair-Reads e h = Reads-bind _ (get_str-Reads e.0 h.0) (Reads-map _ (get_str-Reads e.1 h.1))

-- What every element of a list allows, a loop reads.
pub All-Reads {ℓ κ} :
    {A : Type ℓ} {P : A → Type κ} (p : Reader CodecError A) (f : A → Bytes)
    → ((x : A) → P x → Reads p (f x) x)
    → (xs : List A) → All P xs
    → Reads (many (length xs) p) (join f xs) xs
All-Reads {P} p f k xs h = Reads-many p f xs (each xs h)
  where
    each : (ys : List _) → All P ys → All (λ y. Reads p (f y) y) ys
    each [] t = tt
    each (y ∷ ys) (t, ts) = (k y t, each ys ts)

abbrev pub IsStrMap : OrdMap Text Text → Type 0
IsStrMap m = IsU32 (length (iter m)) × All (λ (e : Text × Text). IsStr e.0 × IsStr e.1) (iter m)

pub get_str_map-Reads : (m : OrdMap Text Text) → IsStrMap m → Reads get_str_map (put_str_map m) m
unfolding get_str_map put_str_map
get_str_map-Reads m (fits, texts) =
    Reads-eq
      (Reads-bind _ (get_len-Reads (iter m) fits)
        (Reads-map refill (All-Reads get_pair put_pair get_pair-Reads (iter m) texts)))
      (refill-iter m)

abbrev pub IsProposer : Proposer → Type 0
IsProposer p = IsI32 p.node_id × IsI64 p.node_epoch

pub get_proposer-Reads : (p : Proposer) → IsProposer p → Reads get_proposer (put_proposer p) p
unfolding get_proposer put_proposer
get_proposer-Reads p h =
    Reads-bind _ (get_i32-Reads p.node_id h.0) (Reads-map _ (get_i64-Reads p.node_epoch h.1))

abbrev pub AreIds : List ℕ → Type 0
AreIds ids = IsU32 (length ids) × All IsU64 ids

pub get_ids-Reads : (ids : List ℕ) → AreIds ids → Reads get_ids (put_ids ids) ids
unfolding get_ids
get_ids-Reads ids (fits, each) =
    Reads-bind _ (get_len-Reads ids fits) (All-Reads get_u64 put_u64 get_u64-Reads ids each)
