-- ===== src/Store/Wf/Steps.antt =====
-- The other operations keep the invariant.
use photo_server.Base.{
  ℕ, suc, ◌≡◌, refl, ◌∙◌, sym, Bool, true, false, not, ◌||◌, List, [], ◌∷◌, map, All, any, keep,
  count, text_eq, text_eq_iff, subst, Text, arith, Option, none, some, if◌then◌else◌, ◌⊎◌, inl, inr,
  All-map_of, All-keep, Bool-cases,
}
use photo_server.Store.Schema.{
  SessionRow, PhotoRow, HeartRow, Db, Faults, session_upsert, photo_update_hidden,
}
use photo_server.Store.Sessions.{upsert_row, upsert_session}
use photo_server.Store.Photos.{
  Photo, has_hash, references, session_or_null, new_row, insert_photo, set_hidden, delete_rows,
  delete_photo,
}
use photo_server.Store.Wf.{Wf, UniqueSessions, on_photo, has_photo, has_session}
use photo_server.Store.Wf.Rows.{
  Below-map, Below-keep, has_photo-map, UniqueHashes-map, UniqueHashes-keep, has_photo_above,
  deletes, All-deletes, has_photo-keep,
}
use photo_server.Store.Wf.Hearts.{UniqueHearts-keep, count_of_absent, count-keep_other}

-- Upsert.
pub has_session-upsert_row :
    (id name : Text) (now : ℕ) (rows : List SessionRow) (k : Text)
    → has_session (upsert_row id name now rows) k ≡ (text_eq id k || has_session rows k)
unfolding upsert_row
has_session-upsert_row id name now [] k = refl
has_session-upsert_row id name now (s ∷ rows) k =
    ground (arith, text_eq_iff s.id id, has_session-upsert_row id name now rows k)

UniqueSessions-upsert_row :
    (id name : Text) (now : ℕ) (rows : List SessionRow)
    → UniqueSessions rows
    → UniqueSessions (upsert_row id name now rows)
unfolding upsert_row
UniqueSessions-upsert_row id name now [] u = (refl, tt)
UniqueSessions-upsert_row id name now (s ∷ rows) u = ground (
  arith,
  text_eq_iff s.id id,
  text_eq_iff id s.id,
  has_session-upsert_row id name now rows s.id,
  UniqueSessions-upsert_row id name now rows u.1,
)

references-upsert_row :
    (id name : Text) (now : ℕ) (rows : List SessionRow) (u : Option Text)
    → references rows u ≡ true
    → references (upsert_row id name now rows) u ≡ true
references-upsert_row id name now rows none h = refl
references-upsert_row id name now rows (some k) h =
    ground (arith, has_session-upsert_row id name now rows k)

pub upsert_session-Wf :
    (faults : Faults) (id name : Text) (now : ℕ) (db : Db)
    → Wf db
    → Wf (upsert_session faults id name now db).1
unfolding upsert_session
upsert_session-Wf faults id name now db w = elim (Bool-cases (faults session_upsert)) [
  | inl e ↦ rw e w
  | inr e ↦ rw e (record {
    ids = w.ids;
    hashes = w.hashes;
    sessions = UniqueSessions-upsert_row id name now db.sessions w.sessions;
    pairs = w.pairs;
    counted = w.counted;
    heart_photos = w.heart_photos;
    heart_sessions =
        All-map_of db.hearts
          (λ h e. ground (arith, has_session-upsert_row id name now db.sessions h.session_id))
          w.heart_sessions;
    uploaders =
        All-map_of db.photos
          (λ r e. references-upsert_row id name now db.sessions r.uploader_session_id e)
          w.uploaders;
  })
]

-- Insertion.
heart_photos-cons :
    (r : PhotoRow) (rows : List PhotoRow) (h : HeartRow)
    → has_photo rows h.photo_id ≡ true
    → has_photo (r ∷ rows) h.photo_id ≡ true
heart_photos-cons r rows h e = ground arith

inserted-Wf :
    (p : Photo) (db : Db)
    → Wf db
    → any (has_hash p.content_hash) db.photos ≡ false
    → references db.sessions (session_or_null p.uploader_session_id) ≡ true
    → Wf (record db { photos = new_row (suc db.last_id) p ∷ db.photos; last_id = suc db.last_id })
inserted-Wf p db w fresh known = record {
  ids = (omega arith, w.ids);
  hashes = (fresh, w.hashes);
  sessions = w.sessions;
  pairs = w.pairs;
  counted = (
    sym (
        count_of_absent db.photos (suc db.last_id) db.hearts
          (has_photo_above (suc db.last_id) (suc db.last_id) db.photos w.ids (omega arith))
          w.heart_photos),
    w.counted,
  );
  heart_photos =
      All-map_of db.hearts (heart_photos-cons (new_row (suc db.last_id) p) db.photos)
        w.heart_photos;
  heart_sessions = w.heart_sessions;
  uploaders = (known, w.uploaders);
}

abbrev pub Inserts : Photo → Db → Db → Type 0
Inserts p db end =
    (end ≡ db)
    ⊎ ((any (has_hash p.content_hash) db.photos ≡ false)
        × (references db.sessions (session_or_null p.uploader_session_id) ≡ true)
        × (end ≡ record db {
          photos = new_row (suc db.last_id) p ∷ db.photos;
          last_id = suc db.last_id;
        }))

pub insert_photo-Inserts :
    (faults : Faults) (p : Photo) (db : Db) → Inserts p db (insert_photo faults p db).1
unfolding insert_photo
insert_photo-Inserts faults p db = ground arith

pub insert_photo-Wf :
    (faults : Faults) (p : Photo) (db : Db) → Wf db → Wf (insert_photo faults p db).1
insert_photo-Wf faults p db w = elim (insert_photo-Inserts faults p db) [
  | inl e ↦ subst Wf (sym e) w
  | inr (fresh, known, e) ↦ subst Wf (sym e) (inserted-Wf p db w fresh known)
]

-- Hiding.
abbrev hide : Text → Option ℕ → PhotoRow → PhotoRow
hide hash at r = if has_hash hash r then record r { hidden_at = at } else r

counted-map :
    (hash : Text) (at : Option ℕ) (hearts : List HeartRow) (rows : List PhotoRow)
    → All (λ r. r.heart_count ≡ count (on_photo r.id) hearts) rows
    → All (λ r. r.heart_count ≡ count (on_photo r.id) hearts) (map (hide hash at) rows)
counted-map hash at hearts [] a = tt
counted-map hash at hearts (r ∷ rows) a = ground (arith, counted-map hash at hearts rows a.1)

uploaders-map :
    (hash : Text) (at : Option ℕ) (P : Option Text → Type 0) (rows : List PhotoRow)
    → All (λ r. P r.uploader_session_id) rows
    → All (λ r. P r.uploader_session_id) (map (hide hash at) rows)
uploaders-map hash at P [] a = tt
uploaders-map hash at P (r ∷ rows) a = ground (arith, uploaders-map hash at P rows a.1)

hidden-Wf :
    (hash : Text) (at : Option ℕ) (db : Db)
    → Wf db
    → Wf (record db { photos = map (hide hash at) db.photos })
hidden-Wf hash at db w = record {
  ids = Below-map _ same_id same_hash (suc db.last_id) db.photos w.ids;
  hashes = UniqueHashes-map _ same_id same_hash db.photos w.hashes;
  sessions = w.sessions;
  pairs = w.pairs;
  counted = counted-map hash at db.hearts db.photos w.counted;
  heart_photos =
      All-map_of db.hearts (λ h e. has_photo-map _ same_id same_hash db.photos h.photo_id ∙ e)
        w.heart_photos;
  heart_sessions = w.heart_sessions;
  uploaders = uploaders-map hash at (λ u. references db.sessions u ≡ true) db.photos w.uploaders;
}
  where
    same_id : (r : PhotoRow) → (hide hash at r).id ≡ r.id
    same_id r = ground arith

    same_hash : (r : PhotoRow) → (hide hash at r).content_hash ≡ r.content_hash
    same_hash r = ground arith

pub set_hidden-Wf :
    (faults : Faults) (hash : Text) (hidden : Bool) (now : ℕ) (db : Db)
    → Wf db
    → Wf (set_hidden faults hash hidden now db).1
unfolding set_hidden
set_hidden-Wf faults hash hidden now db w = elim (Bool-cases (faults photo_update_hidden)) [
  | inl e ↦ rw e w
  | inr e ↦ rw e (hidden-Wf hash (if hidden then some now else none) db w)
]

-- Deletion.
counted-keep :
    (hash : Text) (all : List PhotoRow) (hearts : List HeartRow) (rows : List PhotoRow)
    → All (λ r. has_hash hash r ≡ false → deletes hash all r.id ≡ false) rows
    → All (λ r. r.heart_count ≡ count (on_photo r.id) hearts) rows
    → All
        (λ r.
          r.heart_count
          ≡ count (on_photo r.id) (keep (λ h. not (deletes hash all h.photo_id)) hearts))
        (keep (λ r. not (has_hash hash r)) rows)
counted-keep hash all hearts [] d a = tt
counted-keep hash all hearts (r ∷ rows) d a = elim (Bool-cases (has_hash hash r)) [
  | inl e ↦ rw e (counted-keep hash all hearts rows d.1 a.1)
  | inr e ↦ rw e (
    a.0 ∙ sym (count-keep_other (deletes hash all) r.id hearts (d.0 e)),
    counted-keep hash all hearts rows d.1 a.1,
  )
]

heart_photos-keep :
    (hash : Text) (rows : List PhotoRow) (hearts : List HeartRow)
    → All (λ h. has_photo rows h.photo_id ≡ true) hearts
    → All
        (λ h. has_photo (keep (λ r. not (has_hash hash r)) rows) h.photo_id ≡ true)
        (keep (λ h. not (deletes hash rows h.photo_id)) hearts)
heart_photos-keep hash rows [] a = tt
heart_photos-keep hash rows (h ∷ hearts) a = elim (Bool-cases (deletes hash rows h.photo_id)) [
  | inl e ↦ rw e (heart_photos-keep hash rows hearts a.1)
  | inr e ↦ rw e (has_photo-keep hash rows h.photo_id a.0 e, heart_photos-keep hash rows hearts a.1)
]

deleted-Wf : (hash : Text) (db : Db) → Wf db → Wf (delete_rows hash db)
unfolding delete_rows
deleted-Wf hash db w = record {
  ids = Below-keep _ (suc db.last_id) db.photos w.ids;
  hashes = UniqueHashes-keep _ db.photos w.hashes;
  sessions = w.sessions;
  pairs = UniqueHearts-keep _ db.hearts w.pairs;
  counted =
      counted-keep hash db.photos db.hearts db.photos
        (All-deletes hash (suc db.last_id) db.photos w.ids) w.counted;
  heart_photos = heart_photos-keep hash db.photos db.hearts w.heart_photos;
  heart_sessions = All-keep _ _ db.hearts w.heart_sessions;
  uploaders = All-keep _ _ db.photos w.uploaders;
}

pub delete_photo-cases :
    (faults : Faults) (hash : Text) (db : Db)
    → ((delete_photo faults hash db).1 ≡ db)
      ⊎ ((delete_photo faults hash db).1 ≡ delete_rows hash db)
unfolding delete_photo
delete_photo-cases faults hash db = ground arith

pub delete_photo-Wf :
    (faults : Faults) (hash : Text) (db : Db) → Wf db → Wf (delete_photo faults hash db).1
delete_photo-Wf faults hash db w = elim (delete_photo-cases faults hash db) [
  | inl e ↦ subst Wf (sym e) w
  | inr e ↦ subst Wf (sym e) (deleted-Wf hash db w)
]
