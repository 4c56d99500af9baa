-- ===== src/Store/Album/Faulty.antt =====
-- A call in which statements may fail does all of its work on the album or none.
use photo_server.Base.{
  ℕ, ◌≡◌, refl, ap, ◌∙◌, sym, ◌⊎◌, inl, inr, Bool, true, Bool-cases, Option-cases, some, Text, find,
  arith,
}
use photo_server.Store.Schema.{PhotoRow, Db, Faults, session_upsert, photo_update_hidden}
use photo_server.Store.Sessions.{upsert_session}
use photo_server.Store.Photos.{
  Photo, has_hash, is_visible, find_visible, insert_photo, set_hidden, delete_photo,
}
use photo_server.Store.Hearts.{heart_of, toggle_heart}
use photo_server.Store.Hearts.Toggling.{count_of_any-false}
use photo_server.Store.Wf.{Wf}
use photo_server.Store.Wf.Hearts.{any_of_count_zero}
use photo_server.Store.Wf.Toggle.{Ends, toggle_none, toggle_some}
use photo_server.Store.Wf.Steps.{insert_photo-Inserts, delete_photo-cases}
use photo_server.Store.Wf.History.{Operation, upserts, inserts, hides, deletes, toggles, step}
use photo_server.Store.Album.{view, perform}
use photo_server.Store.Album.Lookup.{find_visible-find}
use photo_server.Store.Album.Changes.{view-upsert, view-hide, view-delete, view-insert}
use photo_server.Store.Album.Loves.{find_of_visible, view-unhearted, view-hearted}

abbrev pub Performs : Operation → Db → Db → Type 0
Performs op db end = (end ≡ db) ⊎ (view end ≡ perform op (view db))

upsert_session-Performs :
    (faults : Faults) (id name : Text) (now : ℕ) (db : Db)
    → Performs (upserts id name now) db (upsert_session faults id name now db).1
unfolding upsert_session
upsert_session-Performs faults id name now db = elim (Bool-cases (faults session_upsert)) [
  | inl e ↦ inl (rw e refl)
  | inr e ↦ inr (rw e (view-upsert id name now db))
]

insert_photo-Performs :
    (faults : Faults) (p : Photo) (db : Db)
    → Wf db
    → Performs (inserts p) db (insert_photo faults p db).1
insert_photo-Performs faults p db w = elim (insert_photo-Inserts faults p db) [
  | inl e ↦ inl e
  | inr (fresh, known, e) ↦ inr (ap view e ∙ view-insert p db w fresh known)
]

set_hidden-Performs :
    (faults : Faults) (hash : Text) (hidden : Bool) (now : ℕ) (db : Db)
    → Performs (hides hash hidden now) db (set_hidden faults hash hidden now db).1
unfolding set_hidden
set_hidden-Performs faults hash hidden now db = elim (Bool-cases (faults photo_update_hidden)) [
  | inl e ↦ inl (rw e refl)
  | inr e ↦ inr (rw e (view-hide hash hidden now db))
]

delete_photo-Performs :
    (faults : Faults) (hash : Text) (db : Db)
    → Wf db
    → Performs (deletes hash) db (delete_photo faults hash db).1
delete_photo-Performs faults hash db w = elim (delete_photo-cases faults hash db) [
  | inl e ↦ inl e
  | inr e ↦ inr (ap view e ∙ view-delete hash db w)
]

Ends-Performs :
    (hash session : Text) (now : ℕ) (db : Db) (p : PhotoRow) (end : Db)
    → Wf db
    → find (has_hash hash) db.photos ≡ some p
    → is_visible p ≡ true
    → Ends db p session now end
    → Performs (toggles hash session now) db end
Ends-Performs hash session now db p end w there shown (inl e) = inl e
Ends-Performs hash session now db p end w there shown (inr (inl (some_removed, e))) = inr (
    ap view e
    ∙ view-unhearted hash session db p w there now shown
        (ground (arith, count_of_any-false (heart_of p.id session) db.hearts)))
Ends-Performs hash session now db p end w there shown (inr (inr (none_removed, photo, known, e))) =
    inr (
      ap view e
      ∙ view-hearted hash session db p w there now shown
          (any_of_count_zero (heart_of p.id session) db.hearts none_removed) known)

toggle_heart-Performs :
    (faults : Faults) (hash session : Text) (now : ℕ) (db : Db)
    → Wf db
    → Performs (toggles hash session now) db (toggle_heart faults hash session now db).1
toggle_heart-Performs faults hash session now db w =
    elim (Option-cases (find_visible hash db.photos)) [
      | inl e ↦ inl (toggle_none faults hash session now db e)
      | inr (p, e) ↦
          let (there, shown) =
            find_of_visible hash db.photos p
              (sym (find_visible-find hash db.photos w.hashes) ∙ e) in
          Ends-Performs hash session now db p _ w there shown
            (toggle_some faults hash session now db p e)
    ]

pub step-Performs :
    (db : Db) (faults : Faults) (op : Operation) → Wf db → Performs op db (step db (faults, op))
unfolding step
step-Performs db faults (upserts id name now) w = upsert_session-Performs faults id name now db
step-Performs db faults (inserts p) w = insert_photo-Performs faults p db w
step-Performs db faults (hides hash hidden now) w = set_hidden-Performs faults hash hidden now db
step-Performs db faults (deletes hash) w = delete_photo-Performs faults hash db w
step-Performs db faults (toggles hash session now) w =
    toggle_heart-Performs faults hash session now db w
