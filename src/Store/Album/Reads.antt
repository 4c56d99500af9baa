-- ===== src/Store/Album/Reads.antt =====
-- What the store answers, in terms of the album.
use photo_server.Base.{
  ◌≡◌, refl, ap, ◌∙◌, inl, inr, Bool, false, Bool-cases, Option, none, some, List, Text, Result, ok,
  err, find, if◌then◌else◌,
}
use photo_server.Store.Schema.{SessionRow, PhotoRow, HeartRow, Db, no_faults}
use photo_server.Store.Sessions.{get_session}
use photo_server.Store.Photos.{PhotoMeta, has_hash, is_visible, to_meta, photo_meta}
use photo_server.Store.Hearts.{Toggled, state_of, photo_heart_state}
use photo_server.Store.Wf.{Wf}
use photo_server.Store.Album.{Entry, name_of, entry_of, loved_by, view}
use photo_server.Store.Album.Lookup.{if_visible, find_visible-find}

-- A hidden photo looks like one that is not there.
abbrev pub meta_seen : Text → Option Entry → Option PhotoMeta
meta_seen hash none = none
meta_seen hash (some e) =
    if e.hidden
    then none
    else some (record {
      hash = hash;
      mime = e.mime;
      original_filename = e.original_filename;
      display_name = e.display_name;
    })

abbrev pub hearts_seen : Bool → Option Entry → Toggled
hearts_seen loved none = record { count = 0; hearted = false }
hearts_seen loved (some e) =
    if e.hidden
    then record { count = 0; hearted = false }
    else record { count = e.hearts; hearted = loved }

abbrev pub name_read : Result (Option SessionRow) → Option Text
name_read err = none
name_read (ok found) = name_of found

to_meta-seen :
    (hash : Text) (found : Option PhotoRow)
    → to_meta hash (if_visible found) ≡ meta_seen hash (entry_of found)
to_meta-seen hash none = refl
to_meta-seen hash (some r) = elim (Bool-cases (is_visible r)) [
  | inl shown ↦ rw shown refl
  | inr hidden ↦ rw hidden refl
]

state_of-seen :
    (viewer : Text) (hearts : List HeartRow) (found : Option PhotoRow)
    → state_of viewer hearts (if_visible found)
      ≡ hearts_seen (loved_by viewer hearts found) (entry_of found)
state_of-seen viewer hearts none = refl
state_of-seen viewer hearts (some r) = elim (Bool-cases (is_visible r)) [
  | inl shown ↦ rw shown refl
  | inr hidden ↦ rw hidden refl
]

-- With no failing statement, what a well-formed database answers about a photo, its hearts and a
-- session's name depends on the album alone, and a hidden photo is answered like one that is not there.
pub reads_view :
    (hash viewer : Text) (db : Db)
    → Wf db
    → ((photo_meta no_faults hash db).0 ≡ ok (meta_seen hash ((view db).photos hash)))
      × ((photo_heart_state no_faults hash viewer db).0
          ≡ ok (hearts_seen ((view db).loves hash viewer) ((view db).photos hash)))
      × (name_read (get_session no_faults viewer db).0 ≡ (view db).names viewer)
unfolding photo_meta photo_heart_state get_session
reads_view hash viewer db w =
    let seen = find_visible-find hash db.photos w.hashes in
    (
      ap (λ found. ok (to_meta hash found)) seen
          ∙ ap ok (to_meta-seen hash (find (has_hash hash) db.photos)),
      ap (λ found. ok (state_of viewer db.hearts found)) seen
          ∙ ap ok (state_of-seen viewer db.hearts (find (has_hash hash) db.photos)),
      refl,
    )
