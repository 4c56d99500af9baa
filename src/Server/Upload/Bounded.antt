-- ===== src/Server/Upload/Bounded.antt =====
-- The cap on an upload's size.
use photo_server.Base.{
  ℕ, zero, suc, ◌-◌, ◌^◌, ◌<◌, ◌≤◌, ◌≡◌, refl, ap, sym, ◌∙◌, true, false, not, ◌&&◌, ◌||◌, [], ◌∷◌,
  ◌++◌, Text, is_empty, length, take, drop, length-take, length-drop, take-append-drop, take_all,
  ltb, leb, ◌==◌, if◌then◌else◌, arith, inl, inr, Bool-cases,
}
use photo_server.Server.Upload.Reading.{Reader, Copied, room, before, remaining_of, copy, limited}

take-split :
    (k left : ℕ) (xs : Text)
    → k ≤ left
    → take left xs ≡ take k xs ++ take (left - length (take k xs)) (drop k xs)
take-split zero left xs h = ap (λ n. take n xs) (omega arith)
take-split (suc k) zero xs h = absurd (omega arith)
take-split (suc k) (suc left) [] h = sym (take_all (suc left - 0) [] (omega arith))
take-split (suc k) (suc left) (x ∷ xs) h =
    ap (◌∷◌ x)
      (take-split k left xs (omega arith) ∙ ap (λ n. take k xs ++ take n (drop k xs)) (omega arith))

nonempty : (xs : Text) → is_empty xs ≡ false → 0 < length xs
nonempty [] h = absurd (ground arith)
nonempty (x ∷ xs) h = omega arith

empty : (xs : Text) → is_empty xs ≡ true → xs ≡ []
empty [] h = refl
empty (x ∷ xs) h = absurd (ground arith)

room-bounds : (r : Reader) (n left : ℕ) → 0 < left → (0 < room r n left) × (room r n left ≤ left)
room-bounds r n left h = ground arith

-- What is copied of `rest`, with `left` bytes to go.
abbrev pub outcome : Reader → ℕ → Text → Copied
outcome r left rest =
    if ltb (length rest) left
    then record { taken = rest; failed = r.breaks; exceeded = false }
    else if (length rest == left) && not (is_empty rest) && r.eager
    then record { taken = rest; failed = r.breaks; exceeded = false }
    else record { taken = take left rest; failed = true; exceeded = true }

before-outcome :
    (r : Reader) (left k : ℕ) (rest : Text)
    → 0 < k
    → k ≤ left
    → (is_empty (drop k rest) && r.eager) ≡ false
    → before (take k rest) (outcome r (left - length (take k rest)) (drop k rest))
      ≡ outcome r left rest
before-outcome r left k rest pos le h = ground (
  arith,
  take-split k left rest le,
  take-append-drop k rest,
  length-take k rest,
  length-drop k rest,
  nonempty (drop k rest),
  empty (drop k rest),
  nonempty rest,
)

copy-full :
    (r : Reader) (n left : ℕ) (rest : Text)
    → (left == 0) ≡ true
    → copy r (suc n) left rest ≡ outcome r left rest
unfolding copy
copy-full r n left [] z = ground arith
copy-full r n left (c ∷ rest) z = ground arith

ended :
    (r : Reader) (k left : ℕ) (rest : Text)
    → is_empty rest ≡ false
    → 0 < k
    → k ≤ left
    → (is_empty (drop k rest) && r.eager) ≡ true
    → record { taken = take k rest; failed = r.breaks; exceeded = false } ≡ outcome r left rest
ended r k left rest f pos le all =
    ground (arith, take_all k rest, length-drop k rest, empty (drop k rest))

copy-goes_on :
    (r : Reader) (n left : ℕ) (rest : Text)
    → (left == 0) ≡ false
    → is_empty rest ≡ false
    → (is_empty (drop (room r n left) rest) && r.eager) ≡ false
    → copy r (suc n) left rest
      ≡ before
          (take (room r n left) rest)
          (copy r n (left - length (take (room r n left) rest)) (drop (room r n left) rest))
unfolding copy
copy-goes_on r n left rest p f more = rw (p, f, more) refl

copy-ends :
    (r : Reader) (n left : ℕ) (rest : Text)
    → (left == 0) ≡ false
    → is_empty rest ≡ false
    → (is_empty (drop (room r n left) rest) && r.eager) ≡ true
    → copy r (suc n) left rest
      ≡ record { taken = take (room r n left) rest; failed = r.breaks; exceeded = false }
unfolding copy
copy-ends r n left rest p f all = rw (p, f, all) refl

copy-empty :
    (r : Reader) (n left : ℕ) (rest : Text)
    → (left == 0) ≡ false
    → is_empty rest ≡ true
    → copy r (suc n) left rest ≡ outcome r left rest
unfolding copy
copy-empty r n left [] p e = ground arith
copy-empty r n left (c ∷ rest) p e = absurd (ground arith)

copy_lem :
    (r : Reader) (n left : ℕ) (rest : Text)
    → length rest < n
    → copy r n left rest ≡ outcome r left rest
copy_lem r zero left rest h = absurd (omega arith)
copy_lem r (suc n) left rest h = elim (Bool-cases (left == 0)) [
  | inl z ↦ copy-full r n left rest z
  | inr p ↦ elim (Bool-cases (is_empty rest)) [
    | inl e ↦ copy-empty r n left rest p e
    | inr f ↦
        let k = room r n left in
        let (pos, le) = room-bounds r n left (ground arith) in
        elim (Bool-cases (is_empty (drop k rest) && r.eager)) [
          | inl all ↦ copy-ends r n left rest p f all ∙ ended r k left rest f pos le all
          | inr more ↦
              copy-goes_on r n left rest p f more
              ∙ ap (before (take k rest))
                  (copy_lem r n _ (drop k rest) (ground (arith, length-drop k rest, nonempty rest)))
              ∙ before-outcome r left k rest pos le more
        ]
  ]
]

pub limited-outcome : (r : Reader) (left : ℕ) → limited r left ≡ outcome r left r.content
unfolding limited
limited-outcome r left = copy_lem r (suc (length r.content)) left r.content (omega arith)

pub remaining_of_bound : (max : ℕ) → remaining_of max ≤ suc max
unfolding remaining_of
remaining_of_bound max = ground arith

remaining_of_lem :
    (max : ℕ) → max < 2 ^ 63 → remaining_of max ≡ (if suc max == 2 ^ 63 then 0 else suc max)
unfolding remaining_of
remaining_of_lem max h = ground arith

-- How the copying of an upload ends under a cap `max` of 63 bits, however its bytes arrive: a body of
-- at most `max` bytes is copied whole, and fails only if it breaks off; a longer one fails with
-- `exceeded` set after the first `max + 1` bytes. Only a body of exactly `max + 1` bytes whose last
-- read announces the end is still let through. Under the greatest `max` of 63 bits the sum `max + 1`
-- is negative, and every body, an empty one too, fails at once with `exceeded` set.
pub limited_lem :
    (r : Reader) (max : ℕ)
    → max < 2 ^ 63
    → limited r (remaining_of max) ≡ (
        if suc max == 2 ^ 63
        then record { taken = []; failed = true; exceeded = true }
        else if leb (length r.content) max || ((length r.content == suc max) && r.eager)
        then record { taken = r.content; failed = r.breaks; exceeded = false }
        else record { taken = take (suc max) r.content; failed = true; exceeded = true })
limited_lem r max h =
    limited-outcome r (remaining_of max) ∙ ground (arith, remaining_of_lem max h, empty r.content)
