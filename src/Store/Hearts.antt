-- ===== src/Store/Hearts.antt =====
-- internal/store/hearts.go: the hearts, and the count that each photo's row keeps of its own.
pub mod Toggling
use photo_server.Base.{
  ℕ, suc, ◌-◌, Bool, true, false, not, ◌&&◌, ◌||◌, Option, none, some, List, ◌∷◌, map, Text,
  text_eq, find, any, keep, count, Call, ◌==◌, ltb, if◌then◌else◌,
}
use photo_server.Store.Schema.{
  PhotoRow, HeartRow, Db, Faults, heart_begin, heart_select_photo, heart_delete, heart_decrement,
  heart_insert, heart_increment, heart_select_count, heart_commit, heart_state_select, exec, query,
  return, fail, transaction, ◌>>=◌,
}
use photo_server.Store.Photos.{find_visible}

abbrev pub heart_of : ℕ → Text → HeartRow → Bool
heart_of photo_id session_id h = (h.photo_id == photo_id) && text_eq h.session_id session_id

-- UPDATE photos SET heart_count = ... WHERE id = ?
unfoldable pub update_count : (ℕ → ℕ) → ℕ → List PhotoRow → List PhotoRow
update_count f id = map λ r. if r.id == id then record r { heart_count = f r.heart_count } else r

-- DELETE FROM hearts, with the number of rows affected.
unfoldable pub delete_heart : ℕ → Text → Db → Option (ℕ × Db)
delete_heart photo_id session_id db = some (
  count (heart_of photo_id session_id) db.hearts,
  record db { hearts = keep (λ h. not (heart_of photo_id session_id h)) db.hearts },
)

-- INSERT INTO hearts, under the primary key and the two references.
unfoldable pub insert_heart : ℕ → Text → ℕ → Db → Option (Unit {0} × Db)
insert_heart photo_id session_id now db =
    if any (heart_of photo_id session_id) db.hearts
      || not (any (λ r. r.id == photo_id) db.photos)
      || not (any (λ s. text_eq s.id session_id) db.sessions)
    then none
    else some (
      tt,
      record db {
        hearts =
            record { photo_id = photo_id; session_id = session_id; created_at = now } ∷ db.hearts;
      },
    )

unfoldable pub add_to_count : (ℕ → ℕ) → ℕ → Db → Option (Unit {0} × Db)
unfolding update_count
add_to_count f id db = some (tt, record db { photos = update_count f id db.photos })

-- The two branches of the toggle; the result is `hearted`. A row of `hearts` that is taken away
-- was counted, so the subtraction does not stop at 0 in a database the program wrote.
unfoldable pub flip_heart : Faults → ℕ → Text → ℕ → ℕ → Call Db Bool
unfolding insert_heart add_to_count
flip_heart faults photo_id session_id now removed =
    if ltb 0 removed
    then (do
      exec (faults heart_decrement) (add_to_count (λ c. c - 1) photo_id) >>= λ _. return false)
    else (do
      exec (faults heart_insert) (insert_heart photo_id session_id now) >>= λ _.
          exec (faults heart_increment) (add_to_count suc photo_id) >>= λ _. return true)

pub record Toggled : Type 0 where
  pub count : ℕ
  pub hearted : Bool

abbrev pub count_of : Option PhotoRow → Call Db ℕ
count_of none = fail
count_of (some r) = return r.heart_count

abbrev pub toggle_found : Faults → Text → ℕ → Option PhotoRow → Call Db (Option Toggled)
unfolding delete_heart flip_heart
toggle_found faults session_id now none = return none
toggle_found faults session_id now (some p) = do
  removed ← exec (faults heart_delete) (delete_heart p.id session_id)
  hearted ← flip_heart faults p.id session_id now removed
  found ← query (faults heart_select_count) (λ db. find (λ r. r.id == p.id) db.photos)
  count ← count_of found
  query (faults heart_commit) (λ db. some (record { count = count; hearted = hearted }))

-- `none` is the result `ok = false`.
unfoldable pub toggle_heart : Faults → Text → Text → ℕ → Call Db (Option Toggled)
unfolding find_visible toggle_found
toggle_heart faults hash session_id now = transaction (do
  query (faults heart_begin) (λ _. tt) >>= λ _.
      (query (faults heart_select_photo) (λ db. find_visible hash db.photos)
        >>= toggle_found faults session_id now))

abbrev pub state_of : Text → List HeartRow → Option PhotoRow → Toggled
state_of viewer hearts none = record { count = 0; hearted = false }
state_of viewer hearts (some r) = record {
  count = r.heart_count;
  hearted = any (heart_of r.id viewer) hearts;
}

-- A hidden or missing photo has no heart to show.
unfoldable pub photo_heart_state : Faults → Text → Text → Call Db Toggled
unfolding find_visible
photo_heart_state faults hash viewer =
    query (faults heart_state_select) λ db. state_of viewer db.hearts (find_visible hash db.photos)
