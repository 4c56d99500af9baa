-- ===== src/Store/Wf/Hearts.antt =====
-- The hearts' part of the invariant, under the statements on the table `hearts`.
use photo_server.Base.{
  subst, ℕ, ◌+◌, ◌≤◌, ◌≡◌, refl, sym, Bool, true, false, not, List, [], ◌∷◌, All, any, keep, count,
  text_eq_iff, Text, ◌==◌, arith, if◌then◌else◌,
}
use photo_server.Store.Schema.{PhotoRow, HeartRow}
use photo_server.Store.Hearts.{heart_of}
use photo_server.Store.Wf.{UniqueHearts, on_photo, has_photo}
use photo_server.Store.Wf.Rows.{any-keep_none}

pub UniqueHearts-keep :
    (p : HeartRow → Bool) (hs : List HeartRow) → UniqueHearts hs → UniqueHearts (keep p hs)
UniqueHearts-keep p [] u = tt
UniqueHearts-keep p (h ∷ hs) u =
    ground
      (arith, UniqueHearts-keep p hs u.1, any-keep_none p (heart_of h.photo_id h.session_id) hs u.0)

-- Hearts taken from one photo are missing from its count, and from no other's.
pub count-keep-heart_of :
    (k id : ℕ) (s : Text) (hs : List HeartRow)
    → count (on_photo k) (keep (λ h. not (heart_of id s h)) hs)
        + (if k == id then count (heart_of id s) hs else 0)
      ≡ count (on_photo k) hs
count-keep-heart_of k id s [] = ground arith
count-keep-heart_of k id s (h ∷ hs) = ground (arith, count-keep-heart_of k id s hs)

pub count_of_any-false {ℓ} :
    {A : Type ℓ} (p : A → Bool) (xs : List A) → any p xs ≡ false → count p xs ≡ 0
count_of_any-false p [] h = refl
count_of_any-false p (x ∷ xs) h = ground (arith, count_of_any-false p xs)

pub any_of_count_zero {ℓ} :
    {A : Type ℓ} (p : A → Bool) (xs : List A) → count p xs ≡ 0 → any p xs ≡ false
any_of_count_zero p [] h = refl
any_of_count_zero p (x ∷ xs) h = ground (arith, any_of_count_zero p xs)

heart_of_same :
    (id : ℕ) (s : Text) (h : HeartRow) (hs : List HeartRow)
    → heart_of id s h ≡ true
    → any (heart_of h.photo_id h.session_id) hs ≡ false
    → any (heart_of id s) hs ≡ false
heart_of_same id s h hs e u =
    let same : s ≡ h.session_id = sym ((text_eq_iff h.session_id s).0 (ground arith)) in
    let same_id : id ≡ h.photo_id = ground arith in rw (same, same_id) u

-- The primary key: at most one heart for a photo and a session.
pub count-heart_of-le :
    (id : ℕ) (s : Text) (hs : List HeartRow) → UniqueHearts hs → count (heart_of id s) hs ≤ 1
count-heart_of-le id s [] u = omega arith
count-heart_of-le id s (h ∷ hs) u = ground (
  arith,
  count-heart_of-le id s hs u.1,
  λ (e : heart_of id s h ≡ true).
      count_of_any-false (heart_of id s) hs (heart_of_same id s h hs e u.0),
)

-- No heart is on a photo that is not there.
pub count_of_absent :
    (rows : List PhotoRow) (id : ℕ) (hs : List HeartRow)
    → has_photo rows id ≡ false
    → All (λ h. has_photo rows h.photo_id ≡ true) hs
    → count (on_photo id) hs ≡ 0
count_of_absent rows id [] h a = refl
count_of_absent rows id (x ∷ hs) h a = ground (
  arith,
  count_of_absent rows id hs h a.1,
  λ (e : x.photo_id ≡ id). subst (λ k. has_photo rows k ≡ true) e a.0,
)

-- A deletion by photo id leaves the count of a photo that is not deleted.
pub count-keep_other :
    (gone : ℕ → Bool) (id : ℕ) (hs : List HeartRow)
    → gone id ≡ false
    → count (on_photo id) (keep (λ h. not (gone h.photo_id)) hs) ≡ count (on_photo id) hs
count-keep_other gone id [] e = refl
count-keep_other gone id (h ∷ hs) e = ground (
  arith,
  count-keep_other gone id hs e,
  λ (q : h.photo_id ≡ id). subst (λ k. gone k ≡ false) (sym q) e,
)
