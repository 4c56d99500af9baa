-- ===== src/Session/Cookies.antt =====
-- What the session's cookie carries of a token.
use photo_server.Base.{◌≡◌, refl, true, false, [], ◌∷◌, ◌++◌, length, Text, arith}
use photo_server.Session.Tokens.{all_in_alphabet, valid_token}
use photo_server.Session.Tokens.Random.{valid_token_break}
use photo_server.Session.{cookie_value}

-- A token of the alphabet is a cookie's value as it stands.
pub cookie_value_plain : (s : Text) → all_in_alphabet s ≡ true → cookie_value s ≡ s
unfolding cookie_value
cookie_value_plain [] h = refl
cookie_value_plain (c ∷ s) h = ground (arith, cookie_value_plain s)

-- A line break behind a text of the alphabet is lost on the way into the cookie.
cookie_value_break : (s : Text) → all_in_alphabet s ≡ true → cookie_value (s ++ 10 ∷ []) ≡ s
unfolding cookie_value
cookie_value_break [] h = refl
cookie_value_break (c ∷ s) h = ground (arith, cookie_value_break s)

short : (s : Text) → length s ≡ 42 → valid_token s ≡ false
unfolding valid_token
short s n = ground arith

-- A token of 42 characters of the alphabet and a line break is well formed, but what its cookie
-- carries is not.
pub break_forgotten :
    (s : Text)
    → length s ≡ 42
    → all_in_alphabet s ≡ true
    → (valid_token (s ++ 10 ∷ []) ≡ true) × (valid_token (cookie_value (s ++ 10 ∷ [])) ≡ false)
break_forgotten s n h = ((valid_token_break s n h).0, rw (cookie_value_break s h) (short s n))
