-- ===== src/Server/Upload/Filed.antt =====
-- Uploads and the originals in the blob store.
use photo_server.Base.{
  ℕ, ◌≡◌, refl, ap, ◌∙◌, sym, subst, Bool, true, Option, none, some, List, [], ◌∷◌, All-map_of,
  Text, Result, ok, err, take, text_eq, has_prefix,
}
use photo_server.Store.Schema.{Db}
use photo_server.Store.Photos.{insert_photo}
use photo_server.Store.Wf.Content.{AllPhotos, insert_photo-AllPhotos}
use photo_server.Blobs.{Files, Stored, original, has_file, norm_ext, path, valid_hash, put_original}
use photo_server.Blobs.Contents.{put_original_ok}
use photo_server.Blobs.Keeping.{KeepsOriginals, put_original-KeepsOriginals}
use photo_server.Convert.{ext_for_mime}
use photo_server.Server.Upload.Reading.{Copied, limited, remaining_of}
use photo_server.Server.Upload.{
  Library, World, FilePart, ImageType, jpeg, png, heic, heif, mime_of, ext_of, source_of, photo_of,
  recorded, filed, of_type, detect_image, store_one_part,
}
use photo_server.Server.Upload.Parts.{
  Part, field, file, malformed, Progress, on_field, add_result, walk,
}

-- A photo's original is there, under a hash of the right form.
abbrev pub IsFiled : (Text → Text) → Files → Text → Text → Type 0
IsFiled to_lower fs hash mime =
    (valid_hash hash ≡ true)
    × (has_file (path to_lower original hash (ext_for_mime mime)) fs ≡ true)

abbrev pub HasOriginals : (Text → Text) → Files → Db → Type 0
HasOriginals to_lower fs db = AllPhotos (IsFiled to_lower fs) db.photos

pub KeepsOriginals-HasOriginals :
    (to_lower : Text → Text) (fs gs : Files) (db : Db)
    → KeepsOriginals fs gs
    → HasOriginals to_lower fs db
    → HasOriginals to_lower gs db
unfolding path
KeepsOriginals-HasOriginals to_lower fs gs db keeps h =
    All-map_of db.photos (λ r f. (f.0, keeps _ _ f.1)) h

-- What the originals rest on of the functions that a library brings: SHA-256 in hex, and
-- `strings.ToLower` on the four extensions.
pub record IsFiling (lib : Library) : Type 0 where
  pub hex_digest : (t : Text) → valid_hash (lib.digest t) ≡ true
  pub lower_ext : (kind : ImageType) → lib.to_lower (ext_of kind) ≡ ext_of kind

norm_ext-ext_of :
    (lib : Library) (ok_lib : IsFiling lib) (kind : ImageType)
    → norm_ext lib.to_lower (ext_of kind) ≡ ext_of kind
unfolding norm_ext has_prefix
norm_ext-ext_of lib ok_lib jpeg = rw (ok_lib.lower_ext jpeg) refl
norm_ext-ext_of lib ok_lib png = rw (ok_lib.lower_ext png) refl
norm_ext-ext_of lib ok_lib heic = rw (ok_lib.lower_ext heic) refl
norm_ext-ext_of lib ok_lib heif = rw (ok_lib.lower_ext heif) refl

ext_for_mime-mime_of : (kind : ImageType) → ext_for_mime (mime_of kind) ≡ ext_of kind
unfolding ext_for_mime text_eq
ext_for_mime-mime_of jpeg = refl
ext_for_mime-mime_of png = refl
ext_for_mime-mime_of heic = refl
ext_for_mime-mime_of heif = refl

module _ (lib : Library) (max : ℕ) (session_id : Text) (ok_lib : IsFiling lib) where
  abbrev Held : World → Type 0
  Held w = HasOriginals lib.to_lower w.files w.db

  recorded-Held :
      (part : FilePart) (hash : Text) (kind : ImageType) (w : World) (x : Result (ℕ × Bool) × Db)
      → HasOriginals lib.to_lower w.files x.1
      → Held (recorded part hash kind w x).1
  recorded-Held part hash kind w (err, db) h = h
  recorded-Held part hash kind w (ok a, db) h = h

  -- The file that was just stored.
  stored-IsFiled :
      (part : FilePart) (kind : ImageType) (c : Copied) (w : World) (s : Stored) (fs : Files)
      → put_original lib.digest lib.to_lower part.blob_faults part.tmp_id
          (source_of c)
          (ext_of kind)
          w.files
        ≡ (ok s, fs)
      → IsFiled lib.to_lower fs s.hash (mime_of kind)
  stored-IsFiled part kind c w s fs e =
      let (named, size, there) =
        put_original_ok lib.digest lib.to_lower part.blob_faults part.tmp_id (source_of c)
          (ext_of kind) w.files s (ap (λ x. x.0) e) in
      let same_path =
        ap (path lib.to_lower original s.hash)
          (ext_for_mime-mime_of kind ∙ sym (norm_ext-ext_of lib ok_lib kind))
        ∙ ap (λ h. path lib.to_lower original h (norm_ext lib.to_lower (ext_of kind))) named in
      (
        ap valid_hash named ∙ ok_lib.hex_digest (source_of c).content,
        ap (λ q. has_file q fs) same_path
            ∙ ap
                (has_file (
                  path lib.to_lower original (lib.digest (source_of c).content)
                    (norm_ext lib.to_lower (ext_of kind))))
                (sym (ap (λ x. x.1) e))
            ∙ there,
      )

  filed-Held :
      (part : FilePart) (kind : ImageType) (name : Text) (c : Copied) (w : World)
      (x : Result Stored × Files)
      → put_original lib.digest lib.to_lower part.blob_faults part.tmp_id
          (source_of c)
          (ext_of kind)
          w.files
        ≡ x
      → Held w
      → Held (filed lib part kind session_id name c w x).1
  filed-Held part kind name c w x e h =
      let keeps =
        subst (λ y. KeepsOriginals w.files y.1) e
          (put_original-KeepsOriginals lib.digest lib.to_lower part.blob_faults part.tmp_id
            (source_of c) (ext_of kind) w.files) in
      by_result x e (KeepsOriginals-HasOriginals lib.to_lower w.files x.1 w.db keeps h)
    where
      by_result :
          (y : Result Stored × Files)
          → put_original lib.digest lib.to_lower part.blob_faults part.tmp_id
              (source_of c)
              (ext_of kind)
              w.files
            ≡ y
          → HasOriginals lib.to_lower y.1 w.db
          → Held (filed lib part kind session_id name c w y).1
      by_result (err, fs) e' k = k
      by_result (ok s, fs) e' k =
          let p = photo_of lib part kind session_id name s.hash fs in
          recorded-Held part s.hash kind (record w { files = fs })
            (insert_photo part.db_faults p w.db)
            (insert_photo-AllPhotos (IsFiled lib.to_lower fs) part.db_faults p w.db
              (stored-IsFiled part kind c w s fs e') k)

  of_type-Held :
      (part : FilePart) (name : Text) (w : World) (o : Option ImageType)
      → Held w
      → Held (of_type lib max part session_id name w o).1
  of_type-Held part name w none h = h
  of_type-Held part name w (some kind) h =
      filed-Held part kind name (limited part.body (remaining_of max)) w _ refl h

  pub walk-HasOriginals :
      (parts : List Part) (p : Progress) (w : World)
      → HasOriginals lib.to_lower w.files w.db
      → let after = (walk lib max session_id parts p w).1 in
        HasOriginals lib.to_lower after.files after.db
  unfolding walk store_one_part
  walk-HasOriginals [] p w h = h
  walk-HasOriginals (field name value ∷ parts) p w h =
      walk-HasOriginals parts (on_field lib name value p) w h
  walk-HasOriginals (file f ∷ parts) p w h =
      let stored = store_one_part lib max session_id p.display_name f w in
      walk-HasOriginals parts (add_result stored.0 p) stored.1
        (of_type-Held f p.display_name w (detect_image lib (take 512 f.body.content) f.filename) h)
  walk-HasOriginals (malformed ∷ parts) p w h = h
