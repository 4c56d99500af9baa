-- ===== src/Server/Upload/Accepting.antt =====
-- What becomes of one file of an upload, whatever became of the others.
use photo_server.Base.{
  ℕ, suc, any, find, ◌≢◌, Bool-cases, Option-cases, inl, ◌≤◌, ◌<◌, ◌^◌, length, inr, true, false,
  ◌≡◌, refl, ◌∙◌, Bool, Option, none, some, List, [], ◌∷◌, Text, Result, ok, err, take, arith,
}
use photo_server.Store.Schema.{PhotoRow, Db}
use photo_server.Store.Photos.{
  Photo, session_or_null, references, has_hash, insert_row, insert_photo,
}
use photo_server.Blobs as Blobs
use photo_server.Blobs.{Files, put_original}
use photo_server.Server.Upload.Reading.{Copied, limited, remaining_of}
use photo_server.Server.Upload.{
  Library, World, UploadResult, FilePart, Accepted, ImageType, detect_image, recorded, filed,
  photo_of, source_of, ext_of, mime_of, of_type, store_one_part,
}
use photo_server.Server.Upload.Bounded.{limited_lem}
use photo_server.Store.Schema as Schema

recorded-filename :
    (part : FilePart) (hash : Text) (kind : ImageType) (w : World) (x : Result (ℕ × Bool) × Db)
    → (recorded part hash kind w x).0.filename ≡ part.filename
recorded-filename part hash kind w (err, db) = refl
recorded-filename part hash kind w (ok (id, deduped), db) = refl

filed-filename :
    (lib : Library) (part : FilePart) (kind : ImageType) (session_id name : Text) (c : Copied)
    (w : World) (x : Result Blobs.Stored × Files)
    → (filed lib part kind session_id name c w x).0.filename ≡ part.filename
filed-filename lib part kind session_id name c w (err, fs) = refl
filed-filename lib part kind session_id name c w (ok s, fs) =
    recorded-filename part s.hash kind (record w { files = fs })
      (insert_photo part.db_faults (photo_of lib part kind session_id name s.hash fs) w.db)

of_type-filename :
    (lib : Library) (max : ℕ) (part : FilePart) (session_id name : Text) (w : World)
    (o : Option ImageType)
    → (of_type lib max part session_id name w o).0.filename ≡ part.filename
of_type-filename lib max part session_id name w none = refl
of_type-filename lib max part session_id name w (some kind) =
    filed-filename lib part kind session_id name (limited part.body (remaining_of max)) w (
      put_original lib.digest lib.to_lower part.blob_faults part.tmp_id
        (source_of (limited part.body (remaining_of max))) (ext_of kind) w.files)

pub store_one_part-filename :
    (lib : Library) (max : ℕ) (session_id name : Text) (part : FilePart) (w : World)
    → (store_one_part lib max session_id name part w).0.filename ≡ part.filename
unfolding store_one_part
store_one_part-filename lib max session_id name part w =
    of_type-filename lib max part session_id name w
      (detect_image lib (take 512 part.body.content) part.filename)

-- The uploader's session is there, if there is one.
abbrev pub has_session : Text → Db → Bool
has_session session_id db = references db.sessions (session_or_null session_id)

find-any :
    (hash : Text) (rows : List PhotoRow)
    → any (has_hash hash) rows ≡ true
    → find (has_hash hash) rows ≢ none
find-any hash [] h e = absurd (cc)
find-any hash (r ∷ rows) h e = ground (arith, find-any hash rows)

insert_photo-ok :
    (p : Photo) (db : Db)
    → has_session p.uploader_session_id db ≡ true
    → (x : ℕ × Bool) × ((insert_photo Schema.no_faults p db).0 ≡ ok x)
unfolding insert_photo insert_row
insert_photo-ok p db h = elim (Bool-cases (any (has_hash p.content_hash) db.photos)) [
  | inl old ↦ elim (Option-cases (find (has_hash p.content_hash) db.photos)) [
    | inl e ↦ absurd (find-any p.content_hash db.photos old e)
    | inr (r, e) ↦ ((r.id, true), rw (old, e) refl)
  ]
  | inr new ↦ ((suc db.last_id, false), rw (new, h) refl)
]

insert_photo-sessions :
    (faults : Schema.Faults) (p : Photo) (db : Db)
    → (insert_photo faults p db).1.sessions ≡ db.sessions
unfolding insert_photo insert_row
insert_photo-sessions faults p db = ground arith

put_original-ok :
    (digest to_lower : Text → Text) (id : ℕ) (content ext : Text) (fs : Files)
    → (put_original digest to_lower Blobs.no_faults id
        (record { content = content; breaks = false })
        ext
        fs).0
      ≡ ok (record { hash = digest content; size = length content })
unfolding put_original Blobs.place
put_original-ok digest to_lower id content ext fs = ground arith

recorded-ok :
    (f : FilePart) (hash : Text) (kind : ImageType) (w : World) (x : Result (ℕ × Bool) × Db)
    (id : ℕ) (deduped : Bool)
    → x.0 ≡ ok (id, deduped)
    → (recorded f hash kind w x).0.outcome
      ≡ inr (record { hash = hash; mime = mime_of kind; deduped = deduped; photo_id = id })
recorded-ok f hash kind w (err, db) id deduped e = absurd (cc)
recorded-ok f hash kind w (ok x, db) id deduped e = ground arith

recorded-sessions :
    (f : FilePart) (hash : Text) (kind : ImageType) (w : World) (x : Result (ℕ × Bool) × Db)
    → (recorded f hash kind w x).1.db.sessions ≡ x.1.sessions
recorded-sessions f hash kind w (err, db) = refl
recorded-sessions f hash kind w (ok x, db) = refl

filed-sessions :
    (lib : Library) (f : FilePart) (kind : ImageType) (session_id name : Text) (c : Copied)
    (w : World) (x : Result Blobs.Stored × Files)
    → (filed lib f kind session_id name c w x).1.db.sessions ≡ w.db.sessions
filed-sessions lib f kind session_id name c w (err, fs) = refl
filed-sessions lib f kind session_id name c w (ok s, fs) =
    recorded-sessions f s.hash kind (record w { files = fs })
      (insert_photo f.db_faults (photo_of lib f kind session_id name s.hash fs) w.db)
    ∙ insert_photo-sessions f.db_faults (photo_of lib f kind session_id name s.hash fs) w.db

of_type-sessions :
    (lib : Library) (max : ℕ) (f : FilePart) (session_id name : Text) (w : World)
    (o : Option ImageType)
    → (of_type lib max f session_id name w o).1.db.sessions ≡ w.db.sessions
of_type-sessions lib max f session_id name w none = refl
of_type-sessions lib max f session_id name w (some kind) =
    let c = limited f.body (remaining_of max) in
    filed-sessions lib f kind session_id name c w (
      put_original lib.digest lib.to_lower f.blob_faults f.tmp_id (source_of c) (ext_of kind)
        w.files)

abbrev pub IsAccepted : Library → FilePart → UploadResult → Type 0
IsAccepted lib f r = (a : Accepted) × (r.outcome ≡ inr a) × (a.hash ≡ lib.digest f.body.content)

module _ (lib : Library) (max : ℕ) where
  -- A recognised image within the cap that is read, filed and recorded without an error.
  abbrev pub IsGood : FilePart → Type 0
  IsGood f =
      ((kind : ImageType) × (detect_image lib (take 512 f.body.content) f.filename ≡ some kind))
      × (length f.body.content ≤ max)
      × (f.body.breaks ≡ false)
      × (f.blob_faults ≡ Blobs.no_faults)
      × (f.db_faults ≡ Schema.no_faults)

  whole_copied :
      (f : FilePart)
      → suc max < 2 ^ 63
      → length f.body.content ≤ max
      → f.body.breaks ≡ false
      → limited f.body (remaining_of max)
        ≡ record { taken = f.body.content; failed = false; exceeded = false }
  whole_copied f room le b = limited_lem f.body max (omega arith) ∙ ground arith

  module _ (session_id : Text) where
    stored-IsAccepted :
        (name : Text) (f : FilePart) (kind : ImageType) (c : Copied) (w : World)
        (x : Result Blobs.Stored × Files)
        → has_session session_id w.db ≡ true
        → f.db_faults ≡ Schema.no_faults
        → (x.0 ≡ ok (record { hash = lib.digest f.body.content; size = length f.body.content }))
        → IsAccepted lib f (filed lib f kind session_id name c w x).0
    stored-IsAccepted name f kind c w (err, fs) known no_db e = absurd (cc)
    stored-IsAccepted name f kind c w (ok s, fs) known no_db e =
        let p = photo_of lib f kind session_id name s.hash fs in
        let ((id, deduped), answer) = insert_photo-ok p w.db known in
        let row : Accepted = record {
          hash = s.hash;
          mime = mime_of kind;
          deduped = deduped;
          photo_id = id;
        } in
        (
          row,
          recorded-ok f s.hash kind (record w { files = fs }) _ id deduped (rw no_db answer),
          ground (arith, e),
        )

    pub good-IsAccepted :
        (name : Text) (f : FilePart) (w : World)
        → suc max < 2 ^ 63
        → has_session session_id w.db ≡ true
        → IsGood f
        → IsAccepted lib f (store_one_part lib max session_id name f w).0
    unfolding store_one_part
    good-IsAccepted name f w room known ((kind, d), le, b, no_blob, no_db) =
        rw (d, whole_copied f room le b)
          (stored-IsAccepted name f kind
            (record { taken = f.body.content; failed = false; exceeded = false }) w
            (put_original lib.digest lib.to_lower f.blob_faults f.tmp_id
              (record { content = f.body.content; breaks = false }) (ext_of kind) w.files)
            known no_db
            (rw no_blob (
              put_original-ok lib.digest lib.to_lower f.tmp_id f.body.content (ext_of kind)
                w.files)))

    pub store_one_part-sessions :
        (name : Text) (f : FilePart) (w : World)
        → (store_one_part lib max session_id name f w).1.db.sessions ≡ w.db.sessions
    unfolding store_one_part
    store_one_part-sessions name f w =
        of_type-sessions lib max f session_id name w
          (detect_image lib (take 512 f.body.content) f.filename)
