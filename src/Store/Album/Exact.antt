-- ===== src/Store/Album/Exact.antt =====
-- A call in which no statement fails does on the album what it is for.
use photo_server.Base.{
  ℕ, suc, ◌≡◌, refl, ap, ◌∙◌, sym, inl, inr, true, false, ◌||◌, Bool-cases, Option-cases, Option,
  none, some, ◌∷◌, Text, text_eq_iff, is_empty, find, any, arith,
}
use photo_server.Store.Schema.{PhotoRow, Db, no_faults}
use photo_server.Store.Sessions.{find_session, upsert_session}
use photo_server.Store.Photos.{
  Photo, has_hash, is_visible, references, session_or_null, new_row, find_visible, insert_photo,
  set_hidden, delete_rows, delete_photo,
}
use photo_server.Store.Photos.Content.{find_of_any-true}
use photo_server.Store.Hearts.{heart_of, toggle_heart}
use photo_server.Store.Hearts.Toggling.{count_of_any-false, toggle_heart_off, toggle_heart_on}
use photo_server.Store.Wf.{Wf, has_session}
use photo_server.Store.Wf.Toggle.{toggle_none}
use photo_server.Store.Wf.History.{Operation, upserts, inserts, hides, deletes, toggles, step}
use photo_server.Store.Album.{
  Entry, Album, to_entry, entry_of, loved_by, view, set, is_some, name_of, toggle_entry, perform,
}
use photo_server.Store.Album.Lookup.{find_visible-find, if_visible}
use photo_server.Store.Album.Changes.{
  Album-ext, is_some-name_of, known_uploader, view-upsert, view-hide, view-delete, view-insert,
}
use photo_server.Store.Album.Loves.{find_of_visible, view-unhearted, view-hearted}

set_same :
    {A : Type 0} (key : Text) (a : A) (f : Text → A) (k : Text) → f key ≡ a → f k ≡ set key a f k
set_same key a f k e = ground (arith, text_eq_iff key k)

-- Insertion.
insert_photo_there :
    (p : Photo) (db : Db)
    → any (has_hash p.content_hash) db.photos ≡ true
    → (insert_photo no_faults p db).1 ≡ db
unfolding insert_photo
insert_photo_there p db there = ground arith

insert_photo_unknown :
    (p : Photo) (db : Db)
    → references db.sessions (session_or_null p.uploader_session_id) ≡ false
    → (insert_photo no_faults p db).1 ≡ db
unfolding insert_photo
insert_photo_unknown p db unknown = ground arith

insert_photo_new :
    (p : Photo) (db : Db)
    → any (has_hash p.content_hash) db.photos ≡ false
    → references db.sessions (session_or_null p.uploader_session_id) ≡ true
    → (insert_photo no_faults p db).1
      ≡ record db { photos = new_row (suc db.last_id) p ∷ db.photos; last_id = suc db.last_id }
unfolding insert_photo
insert_photo_new p db fresh known = ground arith

view-there :
    (p : Photo) (db : Db)
    → any (has_hash p.content_hash) db.photos ≡ true
    → view db ≡ perform (inserts p) (view db)
unfolding perform
view-there p db there =
    let (r, found, same) = find_of_any-true p.content_hash db.photos there in
    elim (Bool-cases (
      is_empty p.uploader_session_id
      || is_some (name_of (find_session p.uploader_session_id db.sessions)))) [
        | inl known ↦ rw known (
            Album-ext (λ k. refl)
              (λ k. set_same p.content_hash _ (view db).photos k (rw found refl)) (λ k t. refl))
        | inr unknown ↦ rw unknown refl
      ]

insert_photo-exact :
    (p : Photo) (db : Db)
    → Wf db
    → view (insert_photo no_faults p db).1 ≡ perform (inserts p) (view db)
unfolding perform
insert_photo-exact p db w = elim (Bool-cases (any (has_hash p.content_hash) db.photos)) [
  | inl there ↦ ap view (insert_photo_there p db there) ∙ view-there p db there
  | inr fresh ↦ elim (Bool-cases (references db.sessions (session_or_null p.uploader_session_id))) [
    | inl known ↦ ap view (insert_photo_new p db fresh known) ∙ view-insert p db w fresh known
    | inr unknown ↦
        ap view (insert_photo_unknown p db unknown)
        ∙ rw (known_uploader p.uploader_session_id db.sessions, unknown) refl
  ]
]

-- Deletion.
delete_photo_found :
    (hash : Text) (db : Db) (p : PhotoRow)
    → find (has_hash hash) db.photos ≡ some p
    → (delete_photo no_faults hash db).1 ≡ delete_rows hash db
unfolding delete_photo
delete_photo_found hash db p e = ground arith

delete_photo_absent :
    (hash : Text) (db : Db)
    → find (has_hash hash) db.photos ≡ none
    → (delete_photo no_faults hash db).1 ≡ db
unfolding delete_photo
delete_photo_absent hash db e = ground arith

view-gone :
    (hash : Text) (db : Db)
    → find (has_hash hash) db.photos ≡ none
    → view db ≡ perform (deletes hash) (view db)
unfolding perform
view-gone hash db e =
    Album-ext (λ k. refl) (λ k. set_same hash none (view db).photos k (ap entry_of e))
      (λ k t.
        ap (λ f. f t)
          (set_same hash (λ s. false) (view db).loves k (λ i s. loved_by s db.hearts (e i))))

delete_photo-exact :
    (hash : Text) (db : Db)
    → Wf db
    → view (delete_photo no_faults hash db).1 ≡ perform (deletes hash) (view db)
delete_photo-exact hash db w = elim (Option-cases (find (has_hash hash) db.photos)) [
  | inl e ↦ ap view (delete_photo_absent hash db e) ∙ view-gone hash db e
  | inr (p, e) ↦ ap view (delete_photo_found hash db p e) ∙ view-delete hash db w
]

-- Toggling.
toggle_heart_unknown :
    (hash session : Text) (now : ℕ) (db : Db) (p : PhotoRow)
    → find_visible hash db.photos ≡ some p
    → has_session db.sessions session ≡ false
    → any (heart_of p.id session) db.hearts ≡ false
    → (toggle_heart no_faults hash session now db).1 ≡ db
unfolding toggle_heart
toggle_heart_unknown hash session now db p e unknown new =
    ground (arith, count_of_any-false (heart_of p.id session) db.hearts new)

toggle_entry_unseen :
    (hash session : Text) (a : Album) (found : Option PhotoRow)
    → if_visible found ≡ none
    → toggle_entry hash session a (entry_of found) ≡ a
toggle_entry_unseen hash session a none e = refl
toggle_entry_unseen hash session a (some r) e = elim (Bool-cases (is_visible r)) [
  | inl shown ↦ absurd (ground (arith, shown))
  | inr hidden ↦ rw hidden refl
]

toggle_entry_unknown :
    (hash session : Text) (a : Album) (e : Entry)
    → a.loves hash session ≡ false
    → is_some (a.names session) ≡ false
    → toggle_entry hash session a (some e) ≡ a
toggle_entry_unknown hash session a e new unknown = elim (Bool-cases e.hidden) [
  | inl h ↦ rw h refl
  | inr h ↦ rw (h, new, unknown) refl
]

view-unknown :
    (hash session : Text) (now : ℕ) (db : Db) (p : PhotoRow)
    → find (has_hash hash) db.photos ≡ some p
    → has_session db.sessions session ≡ false
    → any (heart_of p.id session) db.hearts ≡ false
    → perform (toggles hash session now) (view db) ≡ view db
unfolding perform
view-unknown hash session now db p there unknown new =
    ap (λ found. toggle_entry hash session (view db) (entry_of found)) there
    ∙ toggle_entry_unknown hash session (view db) (to_entry p)
        (ap (loved_by session db.hearts) there ∙ new)
        (is_some-name_of db.sessions session ∙ unknown)

toggle_heart-exact :
    (hash session : Text) (now : ℕ) (db : Db)
    → Wf db
    → view (toggle_heart no_faults hash session now db).1
      ≡ perform (toggles hash session now) (view db)
unfolding perform
toggle_heart-exact hash session now db w = elim (Option-cases (find_visible hash db.photos)) [
  | inl e ↦
      ap view (toggle_none no_faults hash session now db e)
      ∙ sym (
          toggle_entry_unseen hash session (view db) _
            (sym (find_visible-find hash db.photos w.hashes) ∙ e))
  | inr (p, e) ↦
      let (there, shown) =
        find_of_visible hash db.photos p (sym (find_visible-find hash db.photos w.hashes) ∙ e) in
      elim (Bool-cases (any (heart_of p.id session) db.hearts)) [
        | inl was ↦
            ap (λ r. view r.1) (toggle_heart_off hash session now db p w e was)
            ∙ view-unhearted hash session db p w there now shown was
        | inr new ↦ elim (Bool-cases (has_session db.sessions session)) [
          | inl known ↦
              ap (λ r. view r.1) (toggle_heart_on hash session now db p w e known new)
              ∙ view-hearted hash session db p w there now shown new known
          | inr unknown ↦
              ap view (toggle_heart_unknown hash session now db p e unknown new)
              ∙ sym (view-unknown hash session now db p there unknown new)
        ]
      ]
]

pub step_exact :
    (db : Db) (op : Operation) → Wf db → view (step db (no_faults, op)) ≡ perform op (view db)
unfolding step upsert_session set_hidden
step_exact db (upserts id name now) w = view-upsert id name now db
step_exact db (inserts p) w = insert_photo-exact p db w
step_exact db (hides hash hidden now) w = view-hide hash hidden now db
step_exact db (deletes hash) w = delete_photo-exact hash db w
step_exact db (toggles hash session now) w = toggle_heart-exact hash session now db w
