-- ===== src/Server/Serve/Storing.antt =====
-- What an upload and the operator write.
use photo_server.Base.{
  ℕ, is_empty, ◌≡◌, refl, Bool, true, false, not, ◌&&◌, Option, none, some, List, [], ◌∷◌, Text,
  Result, ok, err, inl, inr, Bool-cases, take, if◌then◌else◌,
}
use photo_server.Store.Schema.{SessionRow, Db}
use photo_server.Store.Schema as Schema
use photo_server.Store.Photos.{Photo, insert_photo, set_hidden, delete_photo}
use photo_server.Store.Wf.History.{Operation, upserts, inserts, hides, deletes, step}
use photo_server.Store.Wf.Evolution.{Evolves, same, Evolves-trans, Evolves-call, Evolves-to}
use photo_server.Blobs as Blobs
use photo_server.Blobs.{Files, Stored, Kind, put_original}
use photo_server.Session.{Manager, Cookie, ensure}
use photo_server.Server.Http.{is_hex_sha256}
use photo_server.Server.Upload.{
  Library, World, FilePart, ImageType, ext_of, source_of, recorded, filed, photo_of, of_type,
  detect_image, store_one_part,
}
use photo_server.Server.Upload.Reading.{Copied, limited, remaining_of}
use photo_server.Server.Upload.Parts.{
  Part, field, file, malformed, Progress, on_field, add_result, walk, UploadRequest, keep_name,
  is_none_left, finished, start, upload_as, handle_upload,
}
use photo_server.Server.Admin.{
  Admission, refused, admitted, hidden_reply, admin_set_hidden, deleted_reply, handle_admin_delete,
}
use photo_server.Server.Serve.Writing.{ensure-Evolves, set_display_name-Evolves}

recorded-keeps :
    (part : FilePart) (hash : Text) (kind : ImageType) (w : World) (done : Result (ℕ × Bool) × Db)
    → (recorded part hash kind w done).1.db ≡ done.1
recorded-keeps part hash kind w (err, db) = refl
recorded-keeps part hash kind w (ok a, db) = refl

hidden_reply-keeps : (done : Result (Unit {0}) × Db) → (hidden_reply done).1 ≡ done.1
hidden_reply-keeps (ok u, db) = refl
hidden_reply-keeps (err, db) = refl

deleted_reply-keeps :
    (to_lower : Text → Text) (faults : Kind → Blobs.Faults) (hash : Text) (fs : Files)
    (done : Result (Option Text) × Db)
    → (deleted_reply to_lower faults hash fs done).2 ≡ done.1
deleted_reply-keeps to_lower faults hash fs (err, db) = refl
deleted_reply-keeps to_lower faults hash fs (ok none, db) = refl
deleted_reply-keeps to_lower faults hash fs (ok (some mime), db) = refl

module _ {allows : Operation → Bool}
    (may : (id name : Text) (now : ℕ) → allows (upserts id name now) ≡ true) where
  if_either :
      {a b c : Db} (t : Bool)
      → Evolves allows a b
      → Evolves allows a c
      → Evolves allows a (if t then b else c)
  if_either true e f = e
  if_either false e f = f

  pub keep_name-Evolves :
      (faults : Schema.Faults) (session_id : Text) (now : ℕ) (p : Progress) (db : Db)
      → Evolves allows db (keep_name faults session_id now p db)
  keep_name-Evolves faults session_id now p db =
      if_either (p.name_from_form && not (is_none_left p.results) && not (is_empty session_id))
        (set_display_name-Evolves may faults session_id p.display_name now db) same

module _ {allows : Operation → Bool}
    (may : (id name : Text) (now : ℕ) → allows (upserts id name now) ≡ true)
    (may_insert : (p : Photo) → allows (inserts p) ≡ true) where
  filed-Evolves :
      (lib : Library) (part : FilePart) (kind : ImageType) (session_id name : Text) (c : Copied)
      (w : World) (done : Result Stored × Files)
      → Evolves allows w.db (filed lib part kind session_id name c w done).1.db
  unfolding step
  filed-Evolves lib part kind session_id name c w (err, fs) = same
  filed-Evolves lib part kind session_id name c w (ok s, fs) =
      Evolves-to
        (Evolves-call part.db_faults (inserts (photo_of lib part kind session_id name s.hash fs))
          (may_insert _))
        (recorded-keeps part s.hash kind (record w { files = fs })
          (insert_photo part.db_faults (photo_of lib part kind session_id name s.hash fs) w.db))

  of_type-Evolves :
      (lib : Library) (max_body : ℕ) (part : FilePart) (session_id name : Text) (w : World)
      (kind : Option ImageType)
      → Evolves allows w.db (of_type lib max_body part session_id name w kind).1.db
  of_type-Evolves lib max_body part session_id name w none = same
  of_type-Evolves lib max_body part session_id name w (some kind) =
      let c = limited part.body (remaining_of max_body) in
      filed-Evolves lib part kind session_id name c w (
        put_original lib.digest lib.to_lower part.blob_faults part.tmp_id (source_of c)
          (ext_of kind) w.files)

  walk-Evolves :
      (lib : Library) (max_body : ℕ) (session_id : Text) (parts : List Part) (p : Progress)
      (w : World)
      → Evolves allows w.db (walk lib max_body session_id parts p w).1.db
  unfolding walk store_one_part
  walk-Evolves lib max_body session_id [] p w = same
  walk-Evolves lib max_body session_id (field name value ∷ parts) p w =
      walk-Evolves lib max_body session_id parts (on_field lib name value p) w
  walk-Evolves lib max_body session_id (file f ∷ parts) p w =
      let stored = store_one_part lib max_body session_id p.display_name f w in
      Evolves-trans
        (of_type-Evolves lib max_body f session_id p.display_name w
          (detect_image lib (take 512 f.body.content) f.filename))
        (walk-Evolves lib max_body session_id parts (add_result stored.0 p) stored.1)
  walk-Evolves lib max_body session_id (malformed ∷ parts) p w = same

  finished-Evolves :
      (faults : Schema.Faults) (session_id : Text) (now : ℕ) (cookie : Option Cookie)
      (done : Option Progress × World)
      → Evolves allows done.1.db (finished faults session_id now cookie done).2.db
  finished-Evolves faults session_id now cookie (none, w) = same
  finished-Evolves faults session_id now cookie (some p, w) =
      keep_name-Evolves may faults session_id now p w.db

  upload_as-Evolves :
      (lib : Library) (max_body : ℕ) (faults : Schema.Faults) (now : ℕ) (r : UploadRequest)
      (cookie : Option Cookie) (s : Result SessionRow) (w : World)
      → Evolves allows w.db (upload_as lib max_body faults now r cookie s w).2.db
  upload_as-Evolves lib max_body faults now r cookie err w = same
  upload_as-Evolves lib max_body faults now r cookie (ok s) w =
      let p = start lib s.display_name r.query_name in
      Evolves-trans (walk-Evolves lib max_body s.id r.parts p w)
        (finished-Evolves faults s.id now cookie (walk lib max_body s.id r.parts p w))

  pub handle_upload-Evolves :
      (lib : Library) (max_body : ℕ) (faults name_faults : Schema.Faults)
      (sessions : Option Manager) (fresh : Text) (now : ℕ) (r : UploadRequest) (w : World)
      → Evolves allows w.db
          (handle_upload lib max_body faults name_faults sessions fresh now r w).2.db
  unfolding handle_upload
  handle_upload-Evolves lib max_body faults name_faults none fresh now r w =
      elim (Bool-cases r.is_multipart) [
        | inl e ↦ rw e (
            let p = start lib [] r.query_name in
            Evolves-trans (walk-Evolves lib max_body [] r.parts p w)
              (finished-Evolves name_faults [] now none (walk lib max_body [] r.parts p w)))
        | inr e ↦ rw e same
      ]
  handle_upload-Evolves lib max_body faults name_faults (some m) fresh now r w =
      elim (Bool-cases r.is_multipart) [
        | inl e ↦ rw e (
            let b = ensure faults m r.cookie fresh now w.db in
            Evolves-trans (ensure-Evolves may faults m r.cookie fresh now w.db) (
              upload_as-Evolves lib max_body name_faults now r b.0.cookie b.0.session
                (record w { db = b.1 })))
        | inr e ↦ rw e same
      ]

pub admin_set_hidden-Evolves :
    {allows : Operation → Bool}
    (may : (hash : Text) (hidden : Bool) (now : ℕ) → allows (hides hash hidden now) ≡ true)
    (faults : Schema.Faults) (admission : Admission) (hash : Text) (hidden : Bool) (now : ℕ)
    (db : Db)
    → Evolves allows db (admin_set_hidden faults admission hash hidden now db).1
unfolding admin_set_hidden step
admin_set_hidden-Evolves may faults (refused status) hash hidden now db = same
admin_set_hidden-Evolves may faults (admitted cookie) hash hidden now db =
    elim (Bool-cases (is_hex_sha256 hash)) [
      | inl e ↦ rw e (
          Evolves-to (Evolves-call faults (hides hash hidden now) (may hash hidden now))
            (hidden_reply-keeps (set_hidden faults hash hidden now db)))
      | inr e ↦ rw e same
    ]

pub handle_admin_delete-Evolves :
    {allows : Operation → Bool} (may : (hash : Text) → allows (deletes hash) ≡ true)
    (to_lower : Text → Text) (faults : Schema.Faults) (blob_faults : Kind → Blobs.Faults)
    (admission : Admission) (hash : Text) (fs : Files) (db : Db)
    → Evolves allows db (handle_admin_delete to_lower faults blob_faults admission hash fs db).2
unfolding handle_admin_delete step
handle_admin_delete-Evolves may to_lower faults blob_faults (refused status) hash fs db = same
handle_admin_delete-Evolves may to_lower faults blob_faults (admitted cookie) hash fs db =
    elim (Bool-cases (is_hex_sha256 hash)) [
      | inl e ↦ rw e (
          Evolves-to (Evolves-call faults (deletes hash) (may hash))
            (deleted_reply-keeps to_lower blob_faults hash fs (delete_photo faults hash db)))
      | inr e ↦ rw e same
    ]
