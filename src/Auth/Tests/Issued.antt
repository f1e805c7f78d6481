-- ===== src/Auth/Tests/Issued.antt =====
-- A token that is issued and sent, with letters for half bytes in place of base64.
use picomq.Prelude.{
  ℕ, ◌+◌, ◌*◌, ◌-◌, ◌/◌, ◌%◌, ◌≤◌, ◌≡◌, refl, ap, true, false, Option, none, some, [], ◌∷◌, ◌++◌,
  length, all_of, map_option, Text, Bytes, arith, pos, drop, bytes_ord,
}
use picomq.OrdMap.{empty}
use picomq.Wire.{is_utf8}
use picomq.Auth.Error.{ok}
use picomq.Auth.Operation.{pico}
use picomq.Auth.Scope.{is_expired, allows_audience}
use picomq.Auth.Authorizer.{Crypto, authenticate, issue, render, space, ◌>>=◌, from_secret}
use picomq.Auth.Authorizer.Issued.{IsBase64, is_byte, is_base64, authenticate-issue}
use picomq.Auth.Tests.{stored, secret, store}

abbrev letters : Bytes → Text
letters [] = []
letters (x ∷ xs) = (65 + x / 16) ∷ ((65 + x % 16) ∷ letters xs)

abbrev of_letters : Text → Option Bytes
of_letters [] = some []
of_letters (a ∷ []) = none
of_letters (a ∷ b ∷ s) = map_option (λ (xs : Bytes). ((a - 65) * 16 + (b - 65)) ∷ xs) (of_letters s)

abbrev lettered : Crypto
lettered = record { encode64 = letters; decode64 = of_letters; sha256 = λ b. drop 19 b }

of_letters-letters : (b : Bytes) → of_letters (letters b) ≡ some b
of_letters-letters [] = refl
of_letters-letters (x ∷ xs) =
    let digits : ((65 + x / 16) - 65) * 16 + ((65 + x % 16) - 65) ≡ x = omega arith in
    rw (of_letters-letters xs) (ap (λ (n : ℕ). some (n ∷ xs)) digits)

all_of-letters : (b : Bytes) → all_of is_byte b ≡ true → all_of is_base64 (letters b) ≡ true
all_of-letters [] h = refl
all_of-letters (x ∷ xs) h = ground (arith, all_of-letters xs)

length-letters : (b : Bytes) → length b ≤ length (letters b)
length-letters [] = omega arith
length-letters (x ∷ xs) = ground (arith, length-letters xs)

lettered-IsBase64 : IsBase64 lettered
lettered-IsBase64 = record {
  back = λ b h. of_letters-letters b;
  alphabet = all_of-letters;
  longer = length-letters;
}

-- "t"
abbrev t_id : Text
t_id = 116 ∷ []

-- "BEARER"
abbrev scheme : Text
scheme = 66 ∷ 69 ∷ 65 ∷ 82 ∷ 69 ∷ 82 ∷ []

issued : issue lettered t_id secret ≡ ok (record { id = t_id; secret = secret }, secret)
unfolding issue ◌>>=◌ from_secret
issued = refl

t_utf8 : is_utf8 t_id ≡ true
unfolding is_utf8
t_utf8 = refl

stored_live : is_expired stored.scope (pos 9) ≡ false
unfolding is_expired
stored_live = refl

stored_listens : allows_audience stored.scope pico ≡ true
unfolding allows_audience
stored_listens = refl

authenticate-issue_example :
    (authenticate lettered
      (scheme ++ (space ∷ render lettered (record { id = t_id; secret = secret })))
      store
      pico
      (pos 9)
      empty).0
    ≡ ok stored
authenticate-issue_example =
    authenticate-issue lettered lettered-IsBase64 t_id secret scheme
      (record { id = t_id; secret = secret }) secret store pico (pos 9) empty stored issued refl
      t_utf8 refl refl refl refl refl refl stored_live stored_listens
