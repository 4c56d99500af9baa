-- ===== src/Session/Tokens/Random.antt =====
-- Issued tokens and the check of tokens fit.
use photo_server.Base.{
  ℕ, ◌+◌, ◌*◌, ◌/◌, ◌%◌, ◌≡◌, ◌<◌, refl, true, false, not, List, [], ◌∷◌, ◌++◌, Text, length,
  length-append, keep, All, arith,
}
use photo_server.Session.Tokens.{
  digit, encode, in_alphabet, is_break, all_in_alphabet, valid_token, new_token, encoded_len,
}

digit-in_alphabet : (v : ℕ) → v < 64 → (in_alphabet (digit v) ≡ true) × (is_break (digit v) ≡ false)
unfolding digit
digit-in_alphabet v h = ground arith

-- A text of alphabet characters alone, which the decoder reads whole.
abbrev IsPlain : Text → Type 0
IsPlain s = (all_in_alphabet s ≡ true) × (keep (λ c. not (is_break c)) s ≡ s)

IsPlain-cons : (v : ℕ) (s : Text) → v < 64 → IsPlain s → IsPlain (digit v ∷ s)
IsPlain-cons v s h p = ground (arith, digit-in_alphabet v h)

abbrev pub IsByte : ℕ → Type 0
IsByte b = b < 256

encode-IsPlain : (bs : List ℕ) → All IsByte bs → IsPlain (encode bs)
unfolding encode
encode-IsPlain [] h = (refl, refl)
encode-IsPlain (a ∷ []) h =
    IsPlain-cons (a / 4) _ (omega arith) (IsPlain-cons (a % 4 * 16) _ (omega arith) (refl, refl))
encode-IsPlain (a ∷ b ∷ []) h = IsPlain-cons (a / 4) _ (omega arith) (
    IsPlain-cons (a % 4 * 16 + b / 16) _ (omega arith)
      (IsPlain-cons (b % 16 * 4) _ (omega arith) (refl, refl)))
encode-IsPlain (a ∷ b ∷ c ∷ rest) h = IsPlain-cons (a / 4) _ (omega arith) (
    IsPlain-cons (a % 4 * 16 + b / 16) _ (omega arith) (
      IsPlain-cons (b % 16 * 4 + c / 64) _ (omega arith)
        (IsPlain-cons (c % 64) _ (omega arith) (encode-IsPlain rest h.1.1.1))))

length-encode : (bs : List ℕ) → length (encode bs) ≡ encoded_len (length bs)
unfolding encode
length-encode [] = omega arith
length-encode (a ∷ []) = omega arith
length-encode (a ∷ b ∷ []) = omega arith
length-encode (a ∷ b ∷ c ∷ rest) = omega (arith, length-encode rest)

valid_token_of_IsPlain : (s : Text) → IsPlain s → length s ≡ 43 → valid_token s ≡ true
unfolding valid_token
valid_token_of_IsPlain s p n = rw (p.1, p.0, n)

-- Whatever 32 bytes the random source gives, the token made of them passes the check that a
-- presented token has to pass.
pub valid_token-new_token :
    (random : List ℕ)
    → length random ≡ 32
    → All IsByte random
    → valid_token (new_token random) ≡ true
unfolding new_token
valid_token-new_token random n h =
    valid_token_of_IsPlain (encode random) (encode-IsPlain random h)
      (omega (arith, length-encode random))

keep-break :
    (s : Text)
    → all_in_alphabet s ≡ true
    → (keep (λ c. not (is_break c)) (s ++ 10 ∷ []) ≡ s) × (all_in_alphabet (s ++ 10 ∷ []) ≡ false)
keep-break [] h = (refl, refl)
keep-break (c ∷ s) h = ground (arith, keep-break s)

-- The check lets line breaks through: any 42 characters of the alphabet with one behind them pass,
-- though the whole is no text of the alphabet.
pub valid_token_break :
    (s : Text)
    → length s ≡ 42
    → all_in_alphabet s ≡ true
    → (valid_token (s ++ 10 ∷ []) ≡ true) × (all_in_alphabet (s ++ 10 ∷ []) ≡ false)
unfolding valid_token
valid_token_break s n h = ground (arith, keep-break s h, length-append s (10 ∷ []))
