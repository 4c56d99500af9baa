-- ===== src/Base/Outcome.antt =====
-- Go's `(value, error)`: a value or an error, and a stateful step that returns one.
pub data Result {ℓ} (A : Type ℓ) : Type ℓ where
  ok : A → Result A
  err : Result A

-- A call that may change a state of type `S`: what it leaves behind is kept on an error too.
abbrev pub Call : Type 0 → Type 0 → Type 0
Call S A = S → Result A × S
