-- ===== src/Exif/Slices.antt =====
-- Byte slices as Go indexes them. A slice expression that Go would panic on is `panic`; the capacity
-- of a slice is taken to be its length, so that a panic here is met no later than in Go.
pub mod Safe
use photo_server.Base.{
  ℕ, zero, suc, ◌+◌, ◌-◌, ◌*◌, ◌^◌, [], ◌∷◌, Text, length, take, drop, leb, if◌then◌else◌, ◌&&◌,
}

-- What a piece of code that indexes slices comes to.
pub data Run {ℓ} (A : Type ℓ) : Type ℓ where
  done : A → Run A
  panic : Run A

infixl 5 ◌>>=◌
abbrev pub ◌>>=◌ {ℓ κ} : {A : Type ℓ} {B : Type κ} → Run A → (A → Run B) → Run B
done a >>= f = f a
panic >>= f = panic

-- `b[i]`
unfoldable pub index : Text → ℕ → Run ℕ
index [] i = panic
index (c ∷ b) zero = done c
index (c ∷ b) (suc i) = index b i

-- `b[lo:hi]`, for a slice whose capacity is its length.
unfoldable pub slice : Text → ℕ → ℕ → Run Text
slice b lo hi = if leb lo hi && leb hi (length b) then done (take (hi - lo) (drop lo b)) else panic

pub data ByteOrder : Type 0 where
  little big : ByteOrder

-- `binary.ByteOrder` reads the first bytes and panics on a shorter slice.
unfoldable pub uint16 : ByteOrder → Text → Run ℕ
uint16 little (a ∷ b ∷ r) = done (a + b * 256)
uint16 big (a ∷ b ∷ r) = done (a * 256 + b)
uint16 _ [] = panic
uint16 _ (a ∷ []) = panic

unfoldable pub uint32 : ByteOrder → Text → Run ℕ
uint32 little (a ∷ b ∷ c ∷ d ∷ r) = done (a + b * 2 ^ 8 + c * 2 ^ 16 + d * 2 ^ 24)
uint32 big (a ∷ b ∷ c ∷ d ∷ r) = done (a * 2 ^ 24 + b * 2 ^ 16 + c * 2 ^ 8 + d)
uint32 _ [] = panic
uint32 _ (a ∷ []) = panic
uint32 _ (a ∷ b ∷ []) = panic
uint32 _ (a ∷ b ∷ c ∷ []) = panic
