-- ===== src/Prelude/Trim.antt =====
-- `str::trim` on UTF-8 bytes: the White_Space characters of Unicode are dropped at both ends.
use Prim.Native.Nat.{ℕ, zero, suc}
use mathlib.Core.Path.{◌≡◌, refl}
use mathlib.Core.Bool.{Bool, true, ◌&&◌, ◌||◌}
use native.Mathlib.Omega.{arith}
use mathlib.Core.List.{[], ◌∷◌, ◌++◌, reverse, reverse-cons, reverse-append, reverse-reverse}
use picomq.Prelude.Tests.{if◌then◌else◌}
use picomq.Prelude.Order.{◌==◌, leb, ltb, nat_ord}
use picomq.Prelude.Lists.{all_of}
use picomq.Prelude.Texts.{Text}

abbrev blank1 : ℕ → Bool
blank1 a = (leb 9 a && leb a 13) || a == 32

abbrev blank2 : ℕ → ℕ → Bool
blank2 a b = a == 194 && (b == 133 || b == 160)

abbrev blank3 : ℕ → ℕ → ℕ → Bool
blank3 a b c =
    (a == 225 && b == 154 && c == 128)
    || (a == 226 && b == 128 && ((leb 128 c && leb c 138) || c == 168 || c == 169 || c == 175))
    || (a == 226 && b == 129 && c == 159)
    || (a == 227 && b == 128 && c == 128)

-- The bytes of a white-space character in front, 0 if there is none.
abbrev blank_length : Text → ℕ
blank_length [] = 0
blank_length (a ∷ []) = if blank1 a then 1 else 0
blank_length (a ∷ b ∷ []) = if blank1 a then 1 else if blank2 a b then 2 else 0
blank_length (a ∷ b ∷ c ∷ _) =
    if blank1 a then 1 else if blank2 a b then 2 else if blank3 a b c then 3 else 0

-- The same behind, on the reversed bytes.
abbrev blank_length_back : Text → ℕ
blank_length_back [] = 0
blank_length_back (a ∷ []) = if blank1 a then 1 else 0
blank_length_back (b ∷ a ∷ []) = if blank1 b then 1 else if blank2 a b then 2 else 0
blank_length_back (c ∷ b ∷ a ∷ _) =
    if blank1 c then 1 else if blank2 b c then 2 else if blank3 a b c then 3 else 0

-- `skip` bytes of the current character are still to be dropped.
unfoldable drop_blanks : (Text → ℕ) → ℕ → Text → Text
drop_blanks size skip [] = []
drop_blanks size (suc skip) (c ∷ cs) = drop_blanks size skip cs
drop_blanks size zero (c ∷ cs) = elim (size (c ∷ cs)) [
  | zero ↦ c ∷ cs
  | suc n ↦ drop_blanks size n cs
]

unfoldable pub trim : Text → Text
unfolding drop_blanks
trim s = reverse (drop_blanks blank_length_back 0 (reverse (drop_blanks blank_length 0 s)))

-- Visible ASCII.
abbrev pub is_plain : ℕ → Bool
is_plain c = ltb 32 c && ltb c 127

abbrev pub plain_front : Text → Bool
plain_front [] = true
plain_front (c ∷ _) = is_plain c

blank_length-plain_front : (s : Text) → plain_front s ≡ true → blank_length s ≡ 0
blank_length-plain_front [] h = refl
blank_length-plain_front (a ∷ []) h = ground arith
blank_length-plain_front (a ∷ b ∷ []) h = ground arith
blank_length-plain_front (a ∷ b ∷ c ∷ s) h = ground arith

blank_length_back-plain_front : (s : Text) → plain_front s ≡ true → blank_length_back s ≡ 0
blank_length_back-plain_front [] h = refl
blank_length_back-plain_front (a ∷ []) h = ground arith
blank_length_back-plain_front (a ∷ b ∷ []) h = ground arith
blank_length_back-plain_front (a ∷ b ∷ c ∷ s) h = ground arith

drop_blanks_none : (size : Text → ℕ) (s : Text) → size s ≡ 0 → drop_blanks size 0 s ≡ s
unfolding drop_blanks
drop_blanks_none size [] h = refl
drop_blanks_none size (c ∷ s) h = rw (h, drop_blanks) refl

-- Text with visible ASCII at both ends stays.
pub trim-plain_front :
    (s : Text) → plain_front s ≡ true → plain_front (reverse s) ≡ true → trim s ≡ s
unfolding trim
trim-plain_front s h k =
    rw
      (
        drop_blanks_none blank_length s (blank_length-plain_front s h),
        drop_blanks_none blank_length_back (reverse s)
            (blank_length_back-plain_front (reverse s) k),
      )
      (reverse-reverse s)

all_of-append :
    (p : ℕ → Bool) (s t : Text) → all_of p s ≡ true → all_of p t ≡ true → all_of p (s ++ t) ≡ true
all_of-append p [] t h k = k
all_of-append p (c ∷ s) t h k = ground (arith, all_of-append p s t)

all_of-reverse : (p : ℕ → Bool) (s : Text) → all_of p s ≡ true → all_of p (reverse s) ≡ true
all_of-reverse p [] h = refl
all_of-reverse p (c ∷ s) h =
    rw (reverse-cons c s)
      (all_of-append p (reverse s) (c ∷ []) (all_of-reverse p s (ground arith)) (ground arith))

plain_front-append :
    (r t : Text) (c : ℕ)
    → all_of is_plain r ≡ true
    → is_plain c ≡ true
    → plain_front ((r ++ (c ∷ [])) ++ t) ≡ true
plain_front-append [] t c h k = k
plain_front-append (d ∷ r) t c h k = ground arith

-- Visible ASCII behind is in front of the reversed text.
pub plain_front-reverse :
    (s : Text) (c : ℕ) (t : Text)
    → all_of is_plain (c ∷ t) ≡ true
    → plain_front (reverse (s ++ (c ∷ t))) ≡ true
plain_front-reverse s c t h =
    rw (reverse-append s (c ∷ t), reverse-cons c t)
      (plain_front-append (reverse t) (reverse s) c (all_of-reverse is_plain t (ground arith))
        (ground arith))
