-- ===== src/Store/Photos/Moderation.antt =====
-- What hiding a photo takes away, and what showing it again gives back.
use photo_server.Base.{
  zero, ℕ, suc, ◌≡◌, Bool, true, false, ◌&&◌, List, [], ◌∷◌, map, keep, find, take, All, text_eq,
  text_eq_iff, text_eq_refl, Text, arith, Option, none, some, if◌then◌else◌, ok, err, Result,
}
use photo_server.Store.Schema.{PhotoRow, HeartRow, Db, no_faults}
use photo_server.Store.Photos.{has_hash, is_visible, find_visible, set_hidden, photo_meta}
use photo_server.Store.Hearts.{toggle_heart, photo_heart_state}
use photo_server.Store.Feeds.{
  PhotoListItem, select, newest, most_loved, to_item, gallery_photos, session_photos, top_photos,
}
use photo_server.Store.Feeds.Order.{All-order_by}

abbrev pub shown : Option PhotoRow → Option PhotoRow
shown none = none
shown (some r) = some (record r { hidden_at = none })

abbrev pub hide : Text → Option ℕ → PhotoRow → PhotoRow
hide hash at r = if has_hash hash r then record r { hidden_at = at } else r

abbrev seen : Text → PhotoRow → Bool
seen k r = has_hash k r && is_visible r

find-hide :
    (hash k : Text) (now : ℕ) (rows : List PhotoRow)
    → find (seen k) (map (hide hash (some now)) rows)
      ≡ (if text_eq hash k then none else find (seen k) rows)
find-hide hash k now [] = ground arith
find-hide hash k now (r ∷ rows) = ground (
  arith,
  text_eq_iff r.content_hash hash,
  text_eq_iff r.content_hash k,
  text_eq_iff hash k,
  find-hide hash k now rows,
)

find-show :
    (hash k : Text) (rows : List PhotoRow)
    → find (seen k) (map (hide hash none) rows)
      ≡ (if text_eq hash k then shown (find (has_hash hash) rows) else find (seen k) rows)
find-show hash k [] = ground arith
find-show hash k (r ∷ rows) = ground (
  arith,
  text_eq_iff r.content_hash hash,
  text_eq_iff r.content_hash k,
  text_eq_iff hash k,
  find-show hash k rows,
)

-- With no failing statement, hiding a hash takes it and no other from the photos that can be
-- looked up, and showing it makes visible whatever is stored under the hash, its data unchanged.
pub find_visible-set_hidden :
    (hash : Text) (hidden : Bool) (now : ℕ) (db : Db) (k : Text)
    → find_visible k (set_hidden no_faults hash hidden now db).1.photos ≡ (
        if text_eq hash k
        then (if hidden then none else shown (find (has_hash hash) db.photos))
        else find_visible k db.photos)
unfolding find_visible set_hidden
find_visible-set_hidden hash true now db k = find-hide hash k now db.photos
find_visible-set_hidden hash false now db k = find-show hash k db.photos

-- Feeds: no row that a list shows has the hash, once it is hidden.
abbrev pub Lacks : Text → PhotoListItem → Type 0
Lacks hash i = text_eq i.hash hash ≡ false

All-take {ℓ κ} : {A : Type ℓ} (P : A → Type κ) (n : ℕ) (xs : List A) → All P xs → All P (take n xs)
All-take P zero xs a = tt
All-take P (suc n) [] a = tt
All-take P (suc n) (x ∷ xs) a = (a.0, All-take P n xs a.1)

keep-Lacks :
    (hash : Text) (now : ℕ) (where_ : PhotoRow → Bool) (rows : List PhotoRow)
    → ((r : PhotoRow) → where_ r ≡ true → is_visible r ≡ true)
    → All (λ r. has_hash hash r ≡ false) (keep where_ (map (hide hash (some now)) rows))
keep-Lacks hash now where_ [] v = tt
keep-Lacks hash now where_ (r ∷ rows) v =
    ground (arith, v (hide hash (some now) r), keep-Lacks hash now where_ rows v)

items-Lacks :
    (hash : Text) (hearts : List HeartRow) (viewer : Text) (rows : List PhotoRow)
    → All (λ r. has_hash hash r ≡ false) rows
    → All (Lacks hash) (map (to_item hearts viewer) rows)
items-Lacks hash hearts viewer [] a = tt
items-Lacks hash hearts viewer (r ∷ rows) a = (a.0, items-Lacks hash hearts viewer rows a.1)

select-Lacks :
    (hash : Text) (now : ℕ) (hearts : List HeartRow) (viewer : Text) (where_ : PhotoRow → Bool)
    (before : PhotoRow → PhotoRow → Bool) (limit : ℕ) (rows : List PhotoRow)
    → ((r : PhotoRow) → where_ r ≡ true → is_visible r ≡ true)
    → All
        (Lacks hash)
        (map (to_item hearts viewer) (select where_ before limit (map (hide hash (some now)) rows)))
unfolding select
select-Lacks hash now hearts viewer where_ before limit rows v =
    items-Lacks hash hearts viewer _
      (All-take _ limit _ (All-order_by before _ _ (keep-Lacks hash now where_ rows v)))

abbrev pub listed : Result (List PhotoListItem) × Db → List PhotoListItem
listed (ok items, db) = items
listed (err, db) = []

-- After a photo is hidden, and with no failing statement, none of the three feeds shows a tile of
-- its hash, whoever asks and whichever page or limit is asked for.
pub feeds_lack_hidden :
    (hash : Text) (now : ℕ) (db : Db) (viewer : Text) (before limit : ℕ)
    → All (Lacks hash) (
        listed
          (gallery_photos no_faults viewer before limit (set_hidden no_faults hash true now db).1))
      × All
          (Lacks hash)
          (listed (session_photos no_faults viewer limit (set_hidden no_faults hash true now db).1))
      × All
          (Lacks hash)
          (listed (top_photos no_faults viewer limit (set_hidden no_faults hash true now db).1))
unfolding set_hidden gallery_photos session_photos top_photos
feeds_lack_hidden hash now db viewer before limit = (
  select-Lacks hash now db.hearts viewer _ newest limit db.photos (λ r h. ground arith),
  select-Lacks hash now db.hearts viewer _ newest limit db.photos (λ r h. ground arith),
  select-Lacks hash now db.hearts viewer _ most_loved limit db.photos (λ r h. ground arith),
)

-- What a hidden photo answers, with no failing statement: no data for its pages, no heart to show,
-- and no toggle.
pub hidden_answers :
    (hash : Text) (now later : ℕ) (db : Db) (viewer : Text)
    → ((photo_meta no_faults hash (set_hidden no_faults hash true now db).1).0 ≡ ok none)
      × ((photo_heart_state no_faults hash viewer (set_hidden no_faults hash true now db).1).0
          ≡ ok (record { count = 0; hearted = false }))
      × (toggle_heart no_faults hash viewer later (set_hidden no_faults hash true now db).1
          ≡ (ok none, (set_hidden no_faults hash true now db).1))
unfolding photo_meta photo_heart_state toggle_heart
hidden_answers hash now later db viewer =
    let gone = find_visible-set_hidden hash true now db hash in
    ground (arith, gone, text_eq_refl hash)
