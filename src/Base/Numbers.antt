-- ===== src/Base/Numbers.antt =====
-- Signed integers and `strconv.Atoi` (`ParseInt` in base 10, at 64 bits).
use Prim.Native.Nat.{ℕ, zero, suc, ◌+◌, ◌-◌, ◌*◌, ◌^◌}
use mathlib.Core.Bool.{Bool, ◌&&◌}
use mathlib.Core.Option.{Option, none, some}
use mathlib.Core.List.{[], ◌∷◌}
use photo_server.Base.Tests.{◌==◌, ltb, leb, if◌then◌else◌}
use photo_server.Base.Strings.{Text}

-- `negsuc n` is -(n + 1).
pub data ℤ : Type 0 where
  pos : ℕ → ℤ
  negsuc : ℕ → ℤ

abbrev pub is_digit : ℕ → Bool
is_digit c = leb b'0' c && leb c b'9'

unfoldable pub decimal : ℕ → Text → Option ℕ
decimal acc [] = some acc
decimal acc (c ∷ cs) = if is_digit c then decimal (acc * 10 + (c - b'0')) cs else none

unfoldable pub unsigned : Text → Option ℕ
unfolding decimal
unsigned [] = none
unsigned (c ∷ cs) = decimal 0 (c ∷ cs)

abbrev pub to_pos : Option ℕ → Option ℤ
to_pos none = none
to_pos (some n) = if ltb n (2 ^ 63) then some (pos n) else none

abbrev pub to_neg : Option ℕ → Option ℤ
to_neg none = none
to_neg (some zero) = some (pos 0)
to_neg (some (suc n)) = if ltb n (2 ^ 63) then some (negsuc n) else none

unfoldable pub atoi : Text → Option ℤ
unfolding unsigned
atoi [] = none
atoi (c ∷ cs) =
    if c == b'-'
    then to_neg (unsigned cs)
    else if c == b'+'
    then to_pos (unsigned cs)
    else to_pos (unsigned (c ∷ cs))

-- A parse that succeeds with a number above 0.
abbrev pub positive : Option ℤ → Option ℕ
positive (some (pos (suc n))) = some (suc n)
positive _ = none
