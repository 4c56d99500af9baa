-- ===== src/Store/Photos/Content.antt =====
-- Photos as a map from content hashes: what insertions and deletions do to a lookup.
use photo_server.Base.{
  ℕ, suc, ◌≡◌, refl, ap, ◌∙◌, Bool, true, false, not, List, [], ◌∷◌, any, keep, find, text_eq,
  text_eq_iff, Text, ◌==◌, arith, Option, none, some, if◌then◌else◌, ok, Bool-cases, inl, inr,
}
use photo_server.Store.Schema.{PhotoRow, HeartRow, Db, no_faults}
use photo_server.Store.Hearts.{heart_of}
use photo_server.Store.Photos.{
  Photo, has_hash, references, session_or_null, new_row, insert_photo, delete_photo,
}
use photo_server.Store.Wf.{Wf, UniqueHashes}
use photo_server.Store.Wf.Rows.{deletes}

abbrev pub or_else {ℓ} : {A : Type ℓ} → Option A → A → A
or_else none a = a
or_else (some b) a = b

pub find_of_any-false :
    (hash : Text) (rows : List PhotoRow)
    → any (has_hash hash) rows ≡ false
    → find (has_hash hash) rows ≡ none
find_of_any-false hash [] h = refl
find_of_any-false hash (r ∷ rows) h = ground (arith, find_of_any-false hash rows)

pub find_of_any-true :
    (hash : Text) (rows : List PhotoRow)
    → any (has_hash hash) rows ≡ true
    → (r : PhotoRow) × (find (has_hash hash) rows ≡ some r) × (r.content_hash ≡ hash)
find_of_any-true hash [] h = absurd (cc)
find_of_any-true hash (r ∷ rows) h = elim (Bool-cases (text_eq r.content_hash hash)) [
  | inl e ↦ (r, rw e, (text_eq_iff r.content_hash hash).0 e)
  | inr e ↦ rw e (find_of_any-true hash rows (rw e at h))
]

-- With no failing statement and an uploader that is none or a known session, an insertion makes
-- the photo's hash findable, as the row that was there before or else as the new one, and leaves
-- every other hash's lookup as it was.
pub find-insert_photo :
    (p : Photo) (db : Db) (k : Text)
    → references db.sessions (session_or_null p.uploader_session_id) ≡ true
    → find (has_hash k) (insert_photo no_faults p db).1.photos ≡ (
        if text_eq p.content_hash k
        then some (or_else (find (has_hash p.content_hash) db.photos) (new_row (suc db.last_id) p))
        else find (has_hash k) db.photos)
unfolding insert_photo
find-insert_photo p db k known = ground (
  arith,
  find_of_any-false p.content_hash db.photos,
  find_of_any-true p.content_hash db.photos,
  text_eq_iff p.content_hash k,
)

pub deletes_none :
    (hash : Text) (rows : List PhotoRow) (k : ℕ)
    → any (has_hash hash) rows ≡ false
    → deletes hash rows k ≡ false
deletes_none hash [] k h = refl
deletes_none hash (r ∷ rows) k h = ground (arith, deletes_none hash rows k)

pub deletes-find :
    (hash : Text) (rows : List PhotoRow) (p : PhotoRow) (k : ℕ)
    → UniqueHashes rows
    → find (has_hash hash) rows ≡ some p
    → deletes hash rows k ≡ (p.id == k)
deletes-find hash [] p k u e = absurd (cc)
deletes-find hash (r ∷ rows) p k u e = ground (
  arith,
  deletes-find hash rows p k u.1,
  deletes_none hash rows k,
  text_eq_iff r.content_hash hash,
)

pub find-keep :
    (hash k : Text) (rows : List PhotoRow)
    → find (has_hash k) (keep (λ r. not (has_hash hash r)) rows)
      ≡ (if text_eq hash k then none else find (has_hash k) rows)
find-keep hash k [] = ground arith
find-keep hash k (r ∷ rows) = ground (
  arith,
  text_eq_iff r.content_hash hash,
  text_eq_iff r.content_hash k,
  text_eq_iff hash k,
  find-keep hash k rows,
)

pub any-keep_gone :
    (gone : ℕ → Bool) (k : ℕ) (t : Text) (hs : List HeartRow)
    → any (heart_of k t) (keep (λ h. not (gone h.photo_id)) hs)
      ≡ (if gone k then false else any (heart_of k t) hs)
any-keep_gone gone k t [] = ground arith
any-keep_gone gone k t (h ∷ hs) = ground (arith, any-keep_gone gone k t hs)

-- Deleting a stored photo, with no failing statement, answers with its mime, removes its hash and
-- no other from the lookups, and removes all its hearts and no heart of another photo.
pub delete_photo_lem :
    (hash : Text) (db : Db) (p : PhotoRow)
    → Wf db
    → find (has_hash hash) db.photos ≡ some p
    → ((delete_photo no_faults hash db).0 ≡ ok (some p.mime))
      × ((k : Text)
          → find (has_hash k) (delete_photo no_faults hash db).1.photos
            ≡ (if text_eq hash k then none else find (has_hash k) db.photos))
      × ((k : ℕ) (t : Text)
          → any (heart_of k t) (delete_photo no_faults hash db).1.hearts
            ≡ (if p.id == k then false else any (heart_of k t) db.hearts))
unfolding delete_photo
delete_photo_lem hash db p w e = (
  ground arith,
  (λ k. rw (e, delete_photo) (find-keep hash k db.photos)),
  (λ k t.
      rw (e, delete_photo)
        (any-keep_gone (deletes hash db.photos) k t db.hearts
          ∙ ap (λ b. if b then false else any (heart_of k t) db.hearts)
              (deletes-find hash db.photos p k w.hashes e))),
)
