-- ===== src/Store/Feeds.antt =====
-- internal/store/photos.go and hearts.go: the lists of photos and the counters.
pub mod Order
pub mod Paging
pub mod Newest
use photo_server.Base.{
  ℕ, Bool, true, false, not, ◌&&◌, ◌||◌, Option, none, some, List, [], ◌∷◌, map, Text, text_eq, any,
  keep, take, count, Call, ◌==◌, ltb, if◌then◌else◌,
}
use photo_server.Store.Schema.{
  PhotoRow, HeartRow, Db, Faults, feed_select, admin_select, counts_select, loved_select, query,
}
use photo_server.Store.Photos.{is_visible}
use photo_server.Store.Hearts.{heart_of}

pub record PhotoListItem : Type 0 where
  pub id : ℕ
  pub hash : Text
  pub mime : Text
  pub display_name : Text
  pub uploaded_at : ℕ
  pub heart_count : ℕ
  pub hearted : Bool

-- ORDER BY: `before x y` says that x stands before y.
unfoldable pub insert_by {ℓ} : {A : Type ℓ} → (A → A → Bool) → A → List A → List A
insert_by before x [] = x ∷ []
insert_by before x (y ∷ ys) = if before y x then y ∷ insert_by before x ys else x ∷ y ∷ ys

unfoldable pub order_by {ℓ} : {A : Type ℓ} → (A → A → Bool) → List A → List A
unfolding insert_by
order_by before [] = []
order_by before (x ∷ xs) = insert_by before x (order_by before xs)

-- ORDER BY id DESC
abbrev pub newest : PhotoRow → PhotoRow → Bool
newest r s = ltb s.id r.id

-- ORDER BY heart_count DESC, id DESC
abbrev pub most_loved : PhotoRow → PhotoRow → Bool
most_loved r s =
    ltb s.heart_count r.heart_count || ((s.heart_count == r.heart_count) && ltb s.id r.id)

-- `photoSelect` and `scanPhotoList`: the LEFT JOIN finds at most one heart of the viewer.
abbrev pub to_item : List HeartRow → Text → PhotoRow → PhotoListItem
to_item hearts viewer r = record {
  id = r.id;
  hash = r.content_hash;
  mime = r.mime;
  display_name = r.display_name;
  uploaded_at = r.uploaded_at;
  heart_count = r.heart_count;
  hearted = any (heart_of r.id viewer) hearts;
}

-- SELECT ... WHERE ... ORDER BY ... LIMIT
unfoldable pub select :
    (PhotoRow → Bool) → (PhotoRow → PhotoRow → Bool) → ℕ → List PhotoRow → List PhotoRow
unfolding order_by
select where_ before limit rows = take limit (order_by before (keep where_ rows))

abbrev pub uploaded_by : Text → PhotoRow → Bool
uploaded_by session r = elim r.uploader_session_id [ none ↦ false | some id ↦ text_eq id session ]

unfoldable pub session_photos : Faults → Text → ℕ → Call Db (List PhotoListItem)
unfolding select
session_photos faults session limit = query (faults feed_select) λ db.
    map (to_item db.hearts session)
      (select (λ r. uploaded_by session r && is_visible r) newest limit db.photos)

-- `before = 0` asks for the first page.
abbrev pub on_page : ℕ → PhotoRow → Bool
on_page before r = is_visible r && (not (ltb 0 before) || ltb r.id before)

unfoldable pub gallery_photos : Faults → Text → ℕ → ℕ → Call Db (List PhotoListItem)
unfolding select
gallery_photos faults viewer before limit =
    query (faults feed_select)
      λ db. map (to_item db.hearts viewer) (select (on_page before) newest limit db.photos)

abbrev pub is_loved : PhotoRow → Bool
is_loved r = is_visible r && ltb 0 r.heart_count

unfoldable pub top_photos : Faults → Text → ℕ → Call Db (List PhotoListItem)
unfolding select
top_photos faults viewer limit =
    query (faults feed_select)
      λ db. map (to_item db.hearts viewer) (select is_loved most_loved limit db.photos)

unfoldable pub loved_count : Faults → Call Db ℕ
loved_count faults = query (faults loved_select) λ db. count is_loved db.photos

-- The visible and the hidden photos.
unfoldable pub photo_counts : Faults → Call Db (ℕ × ℕ)
photo_counts faults =
    query (faults counts_select)
      λ db. (count is_visible db.photos, count (λ r. not (is_visible r)) db.photos)

pub record AdminPhotoRow : Type 0 where
  pub hash : Text
  pub mime : Text
  pub display_name : Text
  pub original_filename : Text
  pub uploaded_at : ℕ
  pub hidden_at : Option ℕ

abbrev pub to_admin_row : PhotoRow → AdminPhotoRow
to_admin_row r = record {
  hash = r.content_hash;
  mime = r.mime;
  display_name = r.display_name;
  original_filename = r.original_filename;
  uploaded_at = r.uploaded_at;
  hidden_at = r.hidden_at;
}

unfoldable pub admin_photos : Faults → ℕ → Call Db (List AdminPhotoRow)
unfolding select
admin_photos faults limit =
    query (faults admin_select) λ db. map to_admin_row (select (λ _. true) newest limit db.photos)
