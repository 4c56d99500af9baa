-- ===== src/Session/Tokens.antt =====
-- Session tokens: 32 random bytes in unpadded base64url, and the check of a presented one.
-- `DecodeString` skips line breaks and, without padding, refuses only a foreign character or a
-- last group of one.
pub mod Random
use photo_server.Base.{
  ℕ, ◌+◌, ◌-◌, ◌*◌, ◌/◌, ◌%◌, Bool, true, not, ◌&&◌, ◌||◌, List, [], ◌∷◌, Text, length, keep, ◌==◌,
  ltb, leb, if◌then◌else◌,
}

abbrev pub token_bytes : ℕ
token_bytes = 32

-- `EncodedLen` of the unpadded encoding.
abbrev pub encoded_len : ℕ → ℕ
encoded_len n = n / 3 * 4 + (n % 3 * 8 + 5) / 6

unfoldable pub digit : ℕ → ℕ
digit v =
    if ltb v 26
    then b'A' + v
    else if ltb v 52
    then b'a' + (v - 26)
    else if ltb v 62
    then b'0' + (v - 52)
    else if v == 62
    then b'-'
    else b'_'

unfoldable pub encode : List ℕ → Text
unfolding digit
encode [] = []
encode (a ∷ []) = digit (a / 4) ∷ digit (a % 4 * 16) ∷ []
encode (a ∷ b ∷ []) = digit (a / 4) ∷ digit (a % 4 * 16 + b / 16) ∷ digit (b % 16 * 4) ∷ []
encode (a ∷ b ∷ c ∷ rest) =
    digit (a / 4)
    ∷ digit (a % 4 * 16 + b / 16)
    ∷ digit (b % 16 * 4 + c / 64)
    ∷ digit (c % 64)
    ∷ encode rest

abbrev pub in_alphabet : ℕ → Bool
in_alphabet c =
    (leb b'A' c && leb c b'Z')
    || (leb b'a' c && leb c b'z')
    || (leb b'0' c && leb c b'9')
    || (c == b'-')
    || (c == b'_')

abbrev pub is_break : ℕ → Bool
is_break c = (c == 10) || (c == 13)

abbrev pub all_in_alphabet : Text → Bool
all_in_alphabet [] = true
all_in_alphabet (c ∷ s) = in_alphabet c && all_in_alphabet s

unfoldable pub decodes : Text → Bool
decodes s =
    let characters = keep (λ c. not (is_break c)) s in
    all_in_alphabet characters && not (length characters % 4 == 1)

unfoldable pub valid_token : Text → Bool
unfolding decodes
valid_token s = (length s == encoded_len token_bytes) && decodes s

-- `NewToken`, of the bytes that the random source gave.
unfoldable pub new_token : List ℕ → Text
unfolding encode
new_token random = encode random
