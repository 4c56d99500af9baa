-- ===== src/Store/Wf/Rows.antt =====
-- The photos' part of the invariant, under the updates and deletions of rows.
use photo_server.Base.{
  ℕ, ◌≤◌, ◌≡◌, refl, ◌∙◌, Bool, true, false, not, ◌&&◌, List, [], ◌∷◌, map, All, any, keep, Text,
  ◌==◌, arith,
}
use photo_server.Store.Schema.{PhotoRow}
use photo_server.Store.Photos.{has_hash}
use photo_server.Store.Wf.{Below, UniqueHashes, has_photo}

-- An update of rows that leaves the keys alone.
module _ (f : PhotoRow → PhotoRow) (same_id : (r : PhotoRow) → (f r).id ≡ r.id)
    (same_hash : (r : PhotoRow) → (f r).content_hash ≡ r.content_hash) where
  pub Below-map : (n : ℕ) (rows : List PhotoRow) → Below n rows → Below n (map f rows)
  Below-map n [] h = h
  Below-map n (r ∷ rows) h = rw (same_id r) (h.0, Below-map r.id rows h.1)

  pub has_photo-map :
      (rows : List PhotoRow) (id : ℕ) → has_photo (map f rows) id ≡ has_photo rows id
  has_photo-map [] id = refl
  has_photo-map (r ∷ rows) id = rw (same_id r, has_photo-map rows id)

  any-has_hash-map :
      (rows : List PhotoRow) (hash : Text)
      → any (has_hash hash) (map f rows) ≡ any (has_hash hash) rows
  any-has_hash-map [] hash = refl
  any-has_hash-map (r ∷ rows) hash = rw (same_hash r, any-has_hash-map rows hash)

  pub UniqueHashes-map : (rows : List PhotoRow) → UniqueHashes rows → UniqueHashes (map f rows)
  UniqueHashes-map [] h = tt
  UniqueHashes-map (r ∷ rows) h =
      rw (same_hash r) (any-has_hash-map rows r.content_hash ∙ h.0, UniqueHashes-map rows h.1)

pub Below-mono : (m n : ℕ) (rows : List PhotoRow) → m ≤ n → Below m rows → Below n rows
Below-mono m n [] h b = omega arith
Below-mono m n (r ∷ rows) h b = (omega arith, b.1)

pub Below-keep :
    (p : PhotoRow → Bool) (n : ℕ) (rows : List PhotoRow) → Below n rows → Below n (keep p rows)
Below-keep p n [] h = h
Below-keep p n (r ∷ rows) h =
    ground (arith, Below-keep p r.id rows h.1, Below-mono r.id n (keep p rows))

pub any-keep_none {ℓ} :
    {A : Type ℓ} (p q : A → Bool) (xs : List A) → any q xs ≡ false → any q (keep p xs) ≡ false
any-keep_none p q [] h = refl
any-keep_none p q (x ∷ xs) h = ground (arith, any-keep_none p q xs)

pub UniqueHashes-keep :
    (p : PhotoRow → Bool) (rows : List PhotoRow) → UniqueHashes rows → UniqueHashes (keep p rows)
UniqueHashes-keep p [] h = tt
UniqueHashes-keep p (r ∷ rows) h =
    ground (arith, UniqueHashes-keep p rows h.1, any-keep_none p (has_hash r.content_hash) rows h.0)

-- An id at or above the bound is not there.
pub has_photo_above :
    (n id : ℕ) (rows : List PhotoRow) → Below n rows → n ≤ id → has_photo rows id ≡ false
has_photo_above n id [] b h = refl
has_photo_above n id (r ∷ rows) b h = ground (arith, has_photo_above r.id id rows b.1)

abbrev pub deletes : Text → List PhotoRow → ℕ → Bool
deletes hash rows id = any (λ r. has_hash hash r && (r.id == id)) rows

deletes_absent :
    (hash : Text) (rows : List PhotoRow) (id : ℕ)
    → has_photo rows id ≡ false
    → deletes hash rows id ≡ false
deletes_absent hash [] id h = refl
deletes_absent hash (r ∷ rows) id h = ground (arith, deletes_absent hash rows id)

All-deletes_cons :
    (hash : Text) (x : PhotoRow) (rows rest : List PhotoRow)
    → Below x.id rows
    → All (λ r. has_hash hash r ≡ false → deletes hash rest r.id ≡ false) rows
    → All (λ r. has_hash hash r ≡ false → deletes hash (x ∷ rest) r.id ≡ false) rows
All-deletes_cons hash x [] rest b h = tt
All-deletes_cons hash x (r ∷ rows) rest b h = (
  λ e. ground (arith, h.0 e),
  All-deletes_cons hash x rows rest (Below-mono r.id x.id rows (omega arith) b.1) h.1,
)

-- No row that stays shares its id with a row that goes.
pub All-deletes :
    (hash : Text) (n : ℕ) (rows : List PhotoRow)
    → Below n rows
    → All (λ r. has_hash hash r ≡ false → deletes hash rows r.id ≡ false) rows
All-deletes hash n [] b = tt
All-deletes hash n (x ∷ rows) b = (
  λ e.
      ground
        (arith, deletes_absent hash rows x.id (has_photo_above x.id x.id rows b.1 (omega arith))),
  All-deletes_cons hash x rows rows b.1 (All-deletes hash x.id rows b.1),
)

-- A photo that is not deleted stays.
pub has_photo-keep :
    (hash : Text) (rows : List PhotoRow) (id : ℕ)
    → has_photo rows id ≡ true
    → deletes hash rows id ≡ false
    → has_photo (keep (λ r. not (has_hash hash r)) rows) id ≡ true
has_photo-keep hash [] id h e = h
has_photo-keep hash (r ∷ rows) id h e = ground (arith, has_photo-keep hash rows id)
