-- ===== src/Server/Upload/Shown.antt =====
-- An upload as the guests see it next.
use photo_server.Base.{
  ℕ, suc, ◌≡◌, ap, ◌∙◌, false, inr, Option, none, some, List, ◌∷◌, Text, Result, ok, err, take,
}
use photo_server.Store.Schema.{no_faults}
use photo_server.Store.Photos.{insert_photo}
use photo_server.Store.Feeds.{PhotoListItem, gallery_photos}
use photo_server.Store.Feeds.Newest.{gallery_photos-insert_photo}
use photo_server.Store.Wf.{Wf}
use photo_server.Blobs.{Files, Stored, put_original}
use photo_server.Server.Upload.Reading.{Copied, limited, remaining_of}
use photo_server.Server.Upload.{
  Library, World, Accepted, FilePart, ImageType, ext_of, source_of, photo_of, filed, of_type,
  detect_image, store_one_part,
}
use photo_server.Server.Upload.Outcomes.{recorded_lem}

-- The tile of an accepted file.
abbrev pub tile_of : Text → FilePart → Accepted → PhotoListItem
tile_of name part a = record {
  id = a.photo_id;
  hash = a.hash;
  mime = a.mime;
  display_name = name;
  uploaded_at = part.now;
  heart_count = 0;
  hearted = false;
}

module _ (lib : Library) (session_id name : Text) (part : FilePart) (w : World) (a : Accepted)
    (viewer : Text) (n : ℕ) (items : List PhotoListItem) (wf : Wf w.db) (new : a.deduped ≡ false)
    (page : (gallery_photos no_faults viewer 0 n w.db).0 ≡ ok items) where
  abbrev Shows : World → Type 0
  Shows after =
      (gallery_photos no_faults viewer 0 (suc n) after.db).0 ≡ ok (tile_of name part a ∷ items)

  filed-Shows :
      (kind : ImageType) (c : Copied) (x : Result Stored × Files)
      → (filed lib part kind session_id name c w x).0.outcome ≡ inr a
      → Shows (filed lib part kind session_id name c w x).1
  filed-Shows kind c (err, fs) e = absurd (cc)
  filed-Shows kind c (ok s, fs) e =
      let p = photo_of lib part kind session_id name s.hash fs in
      let (hash, mime, files, db, answer) =
        recorded_lem part s.hash kind (record w { files = fs }) (insert_photo part.db_faults p w.db)
          a e in
      let created = answer ∙ ap (λ d. ok (a.photo_id, d)) new in
      ap (λ d. (gallery_photos no_faults viewer 0 (suc n) d).0) db
      ∙ gallery_photos-insert_photo part.db_faults p w.db a.photo_id viewer n items wf created page
      ∙ cc (hash, mime)

  of_type-Shows :
      (max : ℕ) (o : Option ImageType)
      → (of_type lib max part session_id name w o).0.outcome ≡ inr a
      → Shows (of_type lib max part session_id name w o).1
  of_type-Shows max none e = absurd (cc)
  of_type-Shows max (some kind) e =
      let c = limited part.body (remaining_of max) in
      filed-Shows kind c
        (put_original lib.digest lib.to_lower part.blob_faults part.tmp_id (source_of c)
          (ext_of kind) w.files)
        e

-- In a well-formed database: when a file is accepted that is not a duplicate, the gallery's first page,
-- whoever looks at it and with no failing query, begins with a tile of the answered id, hash and type,
-- under the guest's name and with no heart, and goes on with the photos that it began with before.
pub store_one_part_shows :
    (lib : Library) (max : ℕ) (session_id name : Text) (part : FilePart) (w : World) (a : Accepted)
    (viewer : Text) (n : ℕ) (items : List PhotoListItem)
    → Wf w.db
    → (store_one_part lib max session_id name part w).0.outcome ≡ inr a
    → a.deduped ≡ false
    → (gallery_photos no_faults viewer 0 n w.db).0 ≡ ok items
    → (gallery_photos no_faults viewer 0
        (suc n)
        (store_one_part lib max session_id name part w).1.db).0
      ≡ ok (tile_of name part a ∷ items)
unfolding store_one_part
store_one_part_shows lib max session_id name part w a viewer n items wf e new page =
    of_type-Shows lib session_id name part w a viewer n items wf new page max
      (detect_image lib (take 512 part.body.content) part.filename) e
