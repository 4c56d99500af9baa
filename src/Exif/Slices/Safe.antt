-- ===== src/Exif/Slices/Safe.antt =====
-- Runs that end without a panic, and what the slice operations need for that.
use photo_server.Base.{
  ℕ, zero, suc, ◌-◌, ◌≡◌, ◌≤◌, ◌<◌, refl, Bool, true, false, Text, [], ◌∷◌, length, drop,
  length-take, length-drop, arith, leb, ◌&&◌, if◌then◌else◌,
}
use photo_server.Exif.Slices.{
  Run, done, ◌>>=◌, index, slice, ByteOrder, little, big, uint16, uint32,
}

-- The run ends without a panic, with a value that has the property.
pub data Yields {A : Type 0} (P : A → Type 0) : Run A → Type 0 where
  yields : (a : A) → P a → Yields P (done a)

abbrev pub Any : {A : Type 0} → A → Type 0
Any a = Unit {0}

pub Yields-bind :
    {A B : Type 0} (P : A → Type 0) (Q : B → Type 0) (m : Run A) (f : A → Run B)
    → Yields P m
    → ((a : A) → P a → Yields Q (f a))
    → Yields Q (m >>= f)
Yields-bind P Q m f (yields a p) k = k a p

pub Yields-if :
    {A : Type 0} (P : A → Type 0) (b : Bool) (x y : Run A)
    → (b ≡ true → Yields P x)
    → (b ≡ false → Yields P y)
    → Yields P (if b then x else y)
Yields-if P true x y h k = h refl
Yields-if P false x y h k = k refl

pub index-Yields : (b : Text) (i : ℕ) → i < length b → Yields (Any {A = ℕ}) (index b i)
unfolding index
index-Yields [] i h = absurd (omega arith)
index-Yields (c ∷ b) zero h = yields _ tt
index-Yields (c ∷ b) (suc i) h = index-Yields b i (omega arith)

-- The slice has the length that its bounds say.
abbrev pub HasLength : ℕ → Text → Type 0
HasLength n s = length s ≡ n

pub slice-Yields :
    (b : Text) (lo hi : ℕ) → lo ≤ hi → hi ≤ length b → Yields (HasLength (hi - lo)) (slice b lo hi)
unfolding slice
slice-Yields b lo hi h k =
    Yields-if (HasLength (hi - lo)) (leb lo hi && leb hi (length b)) _ _
      (λ _. yields _ (omega (arith, length-take (hi - lo) (drop lo b), length-drop lo b)))
      (λ e. absurd (ground arith))

pub uint16-Yields : (bo : ByteOrder) (s : Text) → 2 ≤ length s → Yields (Any {A = ℕ}) (uint16 bo s)
unfolding uint16
uint16-Yields little (a ∷ b ∷ r) h = yields _ tt
uint16-Yields big (a ∷ b ∷ r) h = yields _ tt
uint16-Yields _ [] h = absurd (omega arith)
uint16-Yields _ (a ∷ []) h = absurd (omega arith)

pub uint32-Yields : (bo : ByteOrder) (s : Text) → 4 ≤ length s → Yields (Any {A = ℕ}) (uint32 bo s)
unfolding uint32
uint32-Yields little (a ∷ b ∷ c ∷ d ∷ r) h = yields _ tt
uint32-Yields big (a ∷ b ∷ c ∷ d ∷ r) h = yields _ tt
uint32-Yields _ [] h = absurd (omega arith)
uint32-Yields _ (a ∷ []) h = absurd (omega arith)
uint32-Yields _ (a ∷ b ∷ []) h = absurd (omega arith)
uint32-Yields _ (a ∷ b ∷ c ∷ []) h = absurd (omega arith)
