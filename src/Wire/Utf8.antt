-- ===== src/Wire/Utf8.antt =====
-- `str::from_utf8`: the well-formed sequences of one to four bytes, by Unicode's table 3-7.
use picomq.Prelude.{
  ℕ, Bool, true, false, ◌&&◌, Option, none, some, List, [], ◌∷◌, ltb, leb, nat_ord, if◌then◌else◌,
  Bytes,
}

abbrev Range : Type 0
Range = ℕ × ℕ

abbrev tail_byte : Range
tail_byte = (128, 191)

-- What must follow a first byte.
unfoldable following : ℕ → Option (List Range)
following b =
    if ltb b 128
    then some []
    else if ltb b 194
    then none
    else if ltb b 224
    then some (tail_byte ∷ [])
    else if ltb b 225
    then some ((160, 191) ∷ tail_byte ∷ [])
    else if ltb b 237
    then some (tail_byte ∷ tail_byte ∷ [])
    else if ltb b 238
    then some ((128, 159) ∷ tail_byte ∷ [])
    else if ltb b 240
    then some (tail_byte ∷ tail_byte ∷ [])
    else if ltb b 241
    then some ((144, 191) ∷ tail_byte ∷ tail_byte ∷ [])
    else if ltb b 244
    then some (tail_byte ∷ tail_byte ∷ tail_byte ∷ [])
    else if ltb b 245
    then some ((128, 143) ∷ tail_byte ∷ tail_byte ∷ [])
    else none

unfoldable utf8_from : List Range → Bytes → Bool
unfolding following
utf8_from [] [] = true
utf8_from (r ∷ rs) [] = false
utf8_from [] (b ∷ bs) = elim (following b) [ none ↦ false | some rs ↦ utf8_from rs bs ]
utf8_from (r ∷ rs) (b ∷ bs) = leb r.0 b && leb b r.1 && utf8_from rs bs

unfoldable pub is_utf8 : Bytes → Bool
unfolding utf8_from
is_utf8 bs = utf8_from [] bs
