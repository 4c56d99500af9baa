-- ===== src/Server/Upload/Outcomes.antt =====
-- What an uploaded file leaves behind, and what a refused one does.
use photo_server.Base.{
  ℕ, suc, ◌≤◌, ◌<◌, ◌≡◌, inl, inr, refl, ap, ◌∙◌, Bool, true, false, Option, none, some, Text,
  text_eq_refl, find, length, take, Result, ok, err, arith, Option-cases,
}
use photo_server.Store.Schema.{PhotoRow, Db}
use photo_server.Store.Photos.{Photo, has_hash, insert_row, insert_photo}
use photo_server.Blobs.{Kind, blob, original, Files, has_file, norm_ext, path, put_original}
use photo_server.Blobs.Contents.{put_original_ok}
use photo_server.Server.Upload.Reading.{Reader, Copied, limited, remaining_of}
use photo_server.Server.Upload.Bounded.{limited-outcome, remaining_of_bound}
use photo_server.Server.Upload.{
  Library, World, too_large, Accepted, FilePart, ImageType, ext_of, mime_of, detect_image, filed,
  recorded, kept, of_type, source_of, photo_of, store_one_part,
}
use photo_server.Store.Schema as Schema
use photo_server.Blobs as Blobs

find-insert_photo_ok :
    (faults : Schema.Faults) (p : Photo) (db : Db) (id : ℕ) (deduped : Bool)
    → (insert_photo faults p db).0 ≡ ok (id, deduped)
    → (r : PhotoRow) × (find (has_hash p.content_hash) (insert_photo faults p db).1.photos ≡ some r)
      × (r.id ≡ id)
unfolding insert_photo insert_row
find-insert_photo_ok faults p db id deduped e =
    elim (Option-cases (find (has_hash p.content_hash) (insert_photo faults p db).1.photos)) [
      | inl f ↦ absurd (ground (arith, text_eq_refl p.content_hash))
      | inr (r, f) ↦ (r, f, ground (arith, text_eq_refl p.content_hash))
    ]

-- The body of a recognised image that is over the cap by more than a byte is refused as too large,
-- if the temporary file can be made and written, and the database, the queue and every blob stay
-- as they were.
pub store_one_part_too_large :
    (lib : Library) (max : ℕ) (session_id name : Text) (part : FilePart) (kind : ImageType)
    (w : World) (k : Kind) (shard file : Text)
    → detect_image lib (take 512 part.body.content) part.filename ≡ some kind
    → suc max < length part.body.content
    → part.blob_faults Blobs.creates ≡ false
    → part.blob_faults Blobs.copies ≡ false
    → let (result, after) = store_one_part lib max session_id name part w in
      (result.outcome ≡ inl too_large)
      × (after.db ≡ w.db)
      × (after.conv ≡ w.conv)
      × (after.files (blob k shard file) ≡ w.files (blob k shard file))
unfolding store_one_part put_original
store_one_part_too_large lib max session_id name part kind w k shard file d big c f =
    let e = limited-outcome part.body (remaining_of max) in
    rw (d, e) ground (arith, c, f, remaining_of_bound max)

-- What an accepted file has left behind: the original under the digest of the whole body, and the
-- row with the answered id under that hash.
abbrev pub Left : Library → ℕ → FilePart → World → ImageType → Accepted → Type 0
Left lib max part after kind a =
    (length part.body.content ≤ suc max)
    × (a.hash ≡ lib.digest part.body.content)
    × (has_file (path lib.to_lower original a.hash (norm_ext lib.to_lower (ext_of kind)))
          after.files
        ≡ true)
    × ((r : PhotoRow) × (find (has_hash a.hash) after.db.photos ≡ some r) × (r.id ≡ a.photo_id))

whole_body :
    (r : Reader) (max : ℕ)
    → (limited r (remaining_of max)).failed ≡ false
    → (length r.content ≤ suc max) × ((limited r (remaining_of max)).taken ≡ r.content)
whole_body r max h =
    let e = limited-outcome r (remaining_of max) in ground (arith, remaining_of_bound max)

put_original-source_fails :
    (digest to_lower : Text → Text) (faults : Blobs.Faults) (id : ℕ) (c : Copied) (ext : Text)
    (fs : Files) (s : Blobs.Stored)
    → (put_original digest to_lower faults id (source_of c) ext fs).0 ≡ ok s
    → c.failed ≡ false
unfolding put_original
put_original-source_fails digest to_lower faults id c ext fs s e = ground arith

pub recorded_lem :
    (part : FilePart) (hash : Text) (kind : ImageType) (w : World) (x : Result (ℕ × Bool) × Db)
    (a : Accepted)
    → (recorded part hash kind w x).0.outcome ≡ inr a
    → (a.hash ≡ hash)
      × (a.mime ≡ mime_of kind)
      × ((recorded part hash kind w x).1.files ≡ w.files)
      × ((recorded part hash kind w x).1.db ≡ x.1)
      × (x.0 ≡ ok (a.photo_id, a.deduped))
recorded_lem part hash kind w (err, db) a e = absurd (cc)
recorded_lem part hash kind w (ok (id, deduped), db) a e = ground arith

filed_lem :
    (lib : Library) (max : ℕ) (session_id name : Text) (part : FilePart) (kind : ImageType)
    (w : World) (x : Result Blobs.Stored × Files) (a : Accepted)
    → (filed lib part kind session_id name (limited part.body (remaining_of max)) w x).0.outcome
      ≡ inr a
    → let after =
        (filed lib part kind session_id name (limited part.body (remaining_of max)) w x).1 in
      (a.mime ≡ mime_of kind)
      × (after.files ≡ x.1)
      × ((s : Blobs.Stored) × (x.0 ≡ ok s) × (a.hash ≡ s.hash))
      × ((r : PhotoRow) × (find (has_hash a.hash) after.db.photos ≡ some r) × (r.id ≡ a.photo_id))
filed_lem lib max session_id name part kind w (err, fs) a e = absurd (cc)
filed_lem lib max session_id name part kind w (ok s, fs) a e =
    let p = photo_of lib part kind session_id name s.hash fs in
    let (hash, mime, files, db, answer) =
      recorded_lem part s.hash kind (record w { files = fs }) (insert_photo part.db_faults p w.db) a
        e in
    let (r, found, id) = find-insert_photo_ok part.db_faults p w.db a.photo_id a.deduped answer in
    (mime, files, (s, refl, hash), (r, rw (hash, db) found, id))

put_original-Left :
    (lib : Library) (max : ℕ) (session_id name : Text) (part : FilePart) (kind : ImageType)
    (w : World) (a : Accepted)
    → (kept lib max part kind session_id name w).0.outcome ≡ inr a
    → (a.mime ≡ mime_of kind)
      × Left lib max part (kept lib max part kind session_id name w).1 kind a
put_original-Left lib max session_id name part kind w a e =
    let c = limited part.body (remaining_of max) in
    let (mime, files, (s, stored, hash), row) =
      filed_lem lib max session_id name part kind w
        (put_original lib.digest lib.to_lower part.blob_faults part.tmp_id (source_of c)
          (ext_of kind) w.files)
        a e in
    let (named, size, there) =
      put_original_ok lib.digest lib.to_lower part.blob_faults part.tmp_id (source_of c)
        (ext_of kind) w.files s stored in
    let (fits, whole) = whole_body part.body max (
      put_original-source_fails lib.digest lib.to_lower part.blob_faults part.tmp_id c (ext_of kind)
        w.files s stored) in
    (mime, (fits, hash ∙ named ∙ ap lib.digest whole, rw (files, hash, named) there, row))

of_type-Left :
    (lib : Library) (max : ℕ) (session_id name : Text) (part : FilePart) (w : World) (a : Accepted)
    (o : Option ImageType)
    → (of_type lib max part session_id name w o).0.outcome ≡ inr a
    → (kind : ImageType) × (o ≡ some kind)
      × (a.mime ≡ mime_of kind)
      × Left lib max part (of_type lib max part session_id name w o).1 kind a
of_type-Left lib max session_id name part w a none e = absurd (cc)
of_type-Left lib max session_id name part w a (some kind) e =
    let (mime, left) = put_original-Left lib max session_id name part kind w a e in
    (kind, refl, mime, left)

-- A file that is answered as accepted was recognised as an image and had at most one byte more than
-- the cap; it is answered under the digest of its whole body, the original is in the blob store
-- under that hash, and the photo that the database has under that hash is the answered one.
pub store_one_part_accepted :
    (lib : Library) (max : ℕ) (session_id name : Text) (part : FilePart) (w : World) (a : Accepted)
    → (store_one_part lib max session_id name part w).0.outcome ≡ inr a
    → (kind : ImageType) × (detect_image lib (take 512 part.body.content) part.filename ≡ some kind)
      × (a.mime ≡ mime_of kind)
      × Left lib max part (store_one_part lib max session_id name part w).1 kind a
unfolding store_one_part
store_one_part_accepted lib max session_id name part w a e =
    of_type-Left lib max session_id name part w a
      (detect_image lib (take 512 part.body.content) part.filename) e
