-- ===== src/Store/Photos.antt =====
-- internal/store/photos.go: the methods that write photos and those that look one up.
pub mod Content
pub mod Moderation
use photo_server.Base.{
  ℕ, suc, Bool, true, false, not, ◌&&◌, Option, none, some, List, ◌∷◌, map, Text, text_eq, is_empty,
  is_none, find, any, keep, Call, ◌==◌, if◌then◌else◌,
}
use photo_server.Store.Schema.{
  SessionRow, PhotoRow, Db, Faults, photo_insert, photo_select_id, photo_update_hidden,
  photo_select_mime, photo_delete, photo_meta_select, photo_hash_select, photo_taken_select,
  photo_all_select, exec, query, return, fail, ◌>>=◌,
}

-- `taken_at = none` is the zero time, and an empty session id is no uploader.
pub record Photo : Type 0 where
  pub content_hash : Text
  pub mime : Text
  pub original_filename : Text
  pub uploader_session_id : Text
  pub display_name : Text
  pub taken_at : Option ℕ
  pub uploaded_at : ℕ
  pub width : ℕ
  pub height : ℕ

abbrev pub has_hash : Text → PhotoRow → Bool
has_hash hash r = text_eq r.content_hash hash

abbrev pub is_visible : PhotoRow → Bool
is_visible r = is_none r.hidden_at

-- The column `uploader_session_id` of a new row.
abbrev pub session_or_null : Text → Option Text
session_or_null id = if is_empty id then none else some id

-- REFERENCES sessions(id), for a column that may be NULL.
abbrev pub references : List SessionRow → Option Text → Bool
references rows none = true
references rows (some id) = any (λ s. text_eq s.id id) rows

abbrev pub new_row : ℕ → Photo → PhotoRow
new_row id p = record {
  id = id;
  content_hash = p.content_hash;
  mime = p.mime;
  original_filename = p.original_filename;
  uploader_session_id = session_or_null p.uploader_session_id;
  display_name = p.display_name;
  taken_at = p.taken_at;
  uploaded_at = p.uploaded_at;
  width = p.width;
  height = p.height;
  hidden_at = none;
  heart_count = 0;
}

-- INSERT ... ON CONFLICT(content_hash) DO NOTHING, with the number of rows affected.
unfoldable pub insert_row : Photo → Db → Option (ℕ × Db)
insert_row p db =
    if any (has_hash p.content_hash) db.photos
    then some (0, db)
    else if references db.sessions (session_or_null p.uploader_session_id)
    then some
        (1, record db { photos = new_row (suc db.last_id) p ∷ db.photos; last_id = suc db.last_id })
    else none

abbrev pub existing_id : Option PhotoRow → Call Db (ℕ × Bool)
existing_id none = fail
existing_id (some r) = return (r.id, true)

-- The photo's id, and whether it was there already.
unfoldable pub insert_photo : Faults → Photo → Call Db (ℕ × Bool)
unfolding insert_row
insert_photo faults p = do
  n ← exec (faults photo_insert) (insert_row p)
  if n == 1 then (λ db. return (db.last_id, false) db) else do
    found ← query (faults photo_select_id) (λ db. find (has_hash p.content_hash) db.photos)
    existing_id found

-- `hidden_at` becomes the time `now`, or NULL.
unfoldable pub set_hidden : Faults → Text → Bool → ℕ → Call Db (Unit {0})
set_hidden faults hash hidden now = exec (faults photo_update_hidden) λ db. some (
  tt,
  record db {
    photos =
        map
          (λ r.
            if has_hash hash r
            then record r { hidden_at = if hidden then some now else none }
            else r)
          db.photos;
  },
)

-- DELETE FROM photos; ON DELETE CASCADE takes the hearts of the deleted rows along.
unfoldable pub delete_rows : Text → Db → Db
delete_rows hash db = record db {
  photos = keep (λ r. not (has_hash hash r)) db.photos;
  hearts = keep (λ h. not (any (λ r. has_hash hash r && (r.id == h.photo_id)) db.photos)) db.hearts;
}

abbrev pub delete_found : Faults → Text → Option PhotoRow → Call Db (Option Text)
unfolding delete_rows
delete_found faults hash none = return none
delete_found faults hash (some r) = do
  exec (faults photo_delete) (λ db. some (tt, delete_rows hash db)) >>= λ _. return (some r.mime)

-- The deleted photo's mime; `none` is the result `ok = false`.
unfoldable pub delete_photo : Faults → Text → Call Db (Option Text)
unfolding delete_rows delete_found
delete_photo faults hash = do
  found ← query (faults photo_select_mime) (λ db. find (has_hash hash) db.photos)
  delete_found faults hash found

pub record PhotoRef : Type 0 where
  pub hash : Text
  pub mime : Text

pub record PhotoMeta : Type 0 where
  pub hash : Text
  pub mime : Text
  pub original_filename : Text
  pub display_name : Text

unfoldable pub all_photos : Faults → Call Db (List PhotoRef)
all_photos faults =
    query (faults photo_all_select)
      λ db. map (λ r. record { hash = r.content_hash; mime = r.mime }) db.photos

unfoldable pub find_visible : Text → List PhotoRow → Option PhotoRow
find_visible hash = find λ r. has_hash hash r && is_visible r

abbrev pub to_meta : Text → Option PhotoRow → Option PhotoMeta
to_meta hash none = none
to_meta hash (some r) = some (record {
  hash = hash;
  mime = r.mime;
  original_filename = r.original_filename;
  display_name = r.display_name;
})

unfoldable pub photo_meta : Faults → Text → Call Db (Option PhotoMeta)
unfolding find_visible
photo_meta faults hash =
    query (faults photo_meta_select) λ db. to_meta hash (find_visible hash db.photos)

abbrev pub to_ref : Text → Option PhotoRow → Option PhotoRef
to_ref hash none = none
to_ref hash (some r) = some (record { hash = hash; mime = r.mime })

-- Any row of that hash, hidden or not.
unfoldable pub photo_by_hash : Faults → Text → Call Db (Option PhotoRef)
photo_by_hash faults hash =
    query (faults photo_hash_select) λ db. to_ref hash (find (has_hash hash) db.photos)

abbrev pub taken_of : Option PhotoRow → Call Db (Option ℕ)
taken_of none = fail
taken_of (some r) = return r.taken_at

unfoldable pub photo_taken_at : Faults → ℕ → Call Db (Option ℕ)
photo_taken_at faults id = do
  found ← query (faults photo_taken_select) (λ db. find (λ r. r.id == id) db.photos)
  taken_of found
