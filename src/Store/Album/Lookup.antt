-- ===== src/Store/Album/Lookup.antt =====
-- Rows by their hashes, where no hash and no id comes twice.
use photo_server.Base.{
  ℕ, ◌≡◌, refl, List, [], ◌∷◌, map, find, text_eq, text_eq_iff, Text, ◌==◌, arith, Option, none,
  some, if◌then◌else◌,
}
use photo_server.Store.Schema.{PhotoRow}
use photo_server.Store.Photos.{has_hash, is_visible, find_visible}
use photo_server.Store.Photos.Content.{find_of_any-false}
use photo_server.Store.Hearts.Toggling.{find-Below}
use photo_server.Store.Wf.{Below, UniqueHashes}

abbrev pub map_row : (PhotoRow → PhotoRow) → Option PhotoRow → Option PhotoRow
map_row f none = none
map_row f (some r) = some (f r)

-- An update that leaves the hashes alone.
pub find-map :
    (f : PhotoRow → PhotoRow) (same_hash : (r : PhotoRow) → (f r).content_hash ≡ r.content_hash)
    (k : Text) (rows : List PhotoRow)
    → find (has_hash k) (map f rows) ≡ map_row f (find (has_hash k) rows)
find-map f same_hash k [] = refl
find-map f same_hash k (r ∷ rows) = ground (arith, same_hash r, find-map f same_hash k rows)

abbrev pub if_visible : Option PhotoRow → Option PhotoRow
if_visible none = none
if_visible (some r) = if is_visible r then some r else none

pub find_visible-find :
    (hash : Text) (rows : List PhotoRow)
    → UniqueHashes rows
    → find_visible hash rows ≡ if_visible (find (has_hash hash) rows)
unfolding find_visible
find_visible-find hash [] u = refl
find_visible-find hash (r ∷ rows) u = ground (
  arith,
  find_visible-find hash rows u.1,
  find_of_any-false hash rows,
  text_eq_iff r.content_hash hash,
)

pub find-hash :
    (hash : Text) (rows : List PhotoRow) (r : PhotoRow)
    → find (has_hash hash) rows ≡ some r
    → r.content_hash ≡ hash
find-hash hash [] r e = absurd (cc)
find-hash hash (x ∷ rows) r e =
    ground (arith, text_eq_iff x.content_hash hash, find-hash hash rows r)

-- Two rows that are found have the same id exactly where they have the same hash.
pub same_id-same_hash :
    (hash k : Text) (n : ℕ) (rows : List PhotoRow) (p r : PhotoRow)
    → Below n rows
    → find (has_hash hash) rows ≡ some p
    → find (has_hash k) rows ≡ some r
    → (r.id == p.id) ≡ text_eq hash k
same_id-same_hash hash k n [] p r b e q = absurd (cc)
same_id-same_hash hash k n (x ∷ rows) p r b e q = ground (
  arith,
  same_id-same_hash hash k x.id rows p r b.1,
  find-Below (has_hash hash) x.id rows p b.1,
  find-Below (has_hash k) x.id rows r b.1,
  text_eq_iff x.content_hash hash,
  text_eq_iff x.content_hash k,
  text_eq_iff hash k,
)
