-- ===== src/Tests/Uploads.antt =====
-- Uploads, served photos and the operator's requests on the small state.
use photo_server.Base.{
  [], List, map, ok, arith, bytes, false, find, has_prefix, if◌then◌else◌, inl, is_empty, leb,
  length, none, refl, some, suc, take, text_eq, true, ◌&&◌, ◌++◌, ◌==◌, ◌||◌, ◌∷◌, ◌≡◌, ◌^◌,
}
use photo_server.Server.Upload.Reading.{copy, limited, remaining_of}
use photo_server.Server.Upload.Bounded.{limited_lem}
use photo_server.Store.Schema.{empty_db, no_faults}
use photo_server.Store.Photos.{has_hash, insert_photo, insert_row, set_hidden}
use photo_server.Blobs.{blob, exists, norm_ext, original, path, path_eq, put_original, valid_hash}
use photo_server.Store.Feeds.{PhotoListItem, to_item, gallery_photos}
use photo_server.Server.Upload.Shown.{tile_of, store_one_part_shows}
use photo_server.Server.Upload.{
  Accepted, Library, ImageType, detect_image, mime_of, png, store_one_part, too_large,
}
use photo_server.Server.Upload.Outcomes.{Left, store_one_part_accepted, store_one_part_too_large}
use photo_server.Server.Upload.Parts.{Part, field, walk}
use photo_server.Server.Upload.{FilePart}
use photo_server.Server.Upload.Parts.{Part, Progress, field, file}
use photo_server.Server.Upload.Answers.{Answered, named, store_each, walk_answers_all}
use photo_server.Convert.{ext_for_mime}
use photo_server.Server.Http.{answered, failed, is_hex_sha256, redirected}
use photo_server.Server.Serving.{handle_original_download, handle_photo_view, handle_thumb}
use photo_server.Server.Serving.Healing.{handle_thumb_heals, hidden_pages}
use photo_server.Server.Gate.{access_cookie, require_access, through}
use photo_server.Server.Admin.{admitted, handle_admin_delete, require_admin}
use photo_server.Server.Admin.Erasing.{handle_admin_delete_erases, require_admin_opens}
use photo_server.Tests.Data.{
  accepted, access, converter, guest, hash_a, known_visit, library, lower, mark, part, reader,
  row_a, same, sample_db, sample_db-Wf, sample_files, start_progress, tool, world,
}
use photo_server.Blobs as Blobs
use photo_server.Store.Schema as Schema

limited_lem_example : limited reader (remaining_of 4) ≡ (
    if suc 4 == 2 ^ 63
    then record { taken = []; failed = true; exceeded = true }
    else if leb (length reader.content) 4 || ((length reader.content == suc 4) && reader.eager)
    then record { taken = reader.content; failed = reader.breaks; exceeded = false }
    else record { taken = take (suc 4) reader.content; failed = true; exceeded = true })
limited_lem_example = limited_lem reader 4 (omega arith)

store_one_part_accepted_example :
    (kind : ImageType) × (detect_image library (take 512 part.body.content) part.filename
      ≡ some kind)
    × (accepted.mime ≡ mime_of kind)
    × Left library 100 part
        (store_one_part library 100 guest (bytes "Ada") part world).1
        kind
        accepted
unfolding store_one_part detect_image limited remaining_of copy put_original Blobs.place Blobs.path
    Blobs.norm_ext insert_photo insert_row text_eq has_prefix
store_one_part_accepted_example =
    store_one_part_accepted library 100 guest (bytes "Ada") part world accepted refl

store_one_part_too_large_example :
    let (result, after) = store_one_part library 2 guest (bytes "Ada") part world in
    (result.outcome ≡ inl too_large)
    × (after.db ≡ world.db)
    × (after.conv ≡ world.conv)
    × (after.files (blob original (bytes "aa") hash_a)
        ≡ world.files (blob original (bytes "aa") hash_a))
unfolding detect_image text_eq
store_one_part_too_large_example =
    store_one_part_too_large library 2 guest (bytes "Ada") part png world original (bytes "aa")
      hash_a refl (omega arith) refl refl

-- A file that cannot be written, a name, and one that can.
abbrev broken : FilePart
broken = record part { blob_faults = λ s. true }

abbrev sent : List Part
sent = file broken ∷ field (bytes "display_name") (bytes "Ada") ∷ file part ∷ []

walk_answers_all_example :
    let files = named library [] sent in
    let (results, after) = store_each library 100 guest files world in
    ((q : Progress) × (walk library 100 guest sent start_progress world ≡ (some q, after))
      × (q.results ≡ [] ++ results))
    × Answered library 100 files results
unfolding text_eq
walk_answers_all_example =
    walk_answers_all library 100 guest sent start_progress world (omega arith) refl refl

hidden_pages_example :
    let hidden = (set_hidden Schema.no_faults hash_a true 20 sample_db).1 in
    (handle_photo_view lower tool
        (some converter)
        Schema.no_faults
        Blobs.no_faults
        hidden
        1
        hash_a
        sample_files
      ≡ (failed 404, sample_files))
    × (handle_original_download lower tool
          (some converter)
          Schema.no_faults
          Blobs.no_faults
          hidden
          same
          hash_a
          sample_files
        ≡ failed 404)
    × (handle_thumb lower tool
          (some converter)
          Schema.no_faults
          Blobs.no_faults
          hidden
          1
          hash_a
          sample_files
        ≡ handle_thumb lower tool
            (some converter)
            Schema.no_faults
            Blobs.no_faults
            sample_db
            1
            hash_a
            sample_files)
unfolding is_hex_sha256
hidden_pages_example =
    hidden_pages lower tool (some converter) Schema.no_faults Blobs.no_faults same 1 hash_a 20
      sample_db sample_files refl

handle_thumb_heals_example :
    let (reply, after) =
      handle_thumb lower tool
        (some converter)
        Schema.no_faults
        Blobs.no_faults
        sample_db
        1
        hash_a
        sample_files in
    (reply
      ≡ answered (record {
        content = (bytes "rendition");
        content_type = bytes "image/webp";
        etag = bytes "\"" ++ hash_a ++ bytes "\"";
        attachment = none;
      }))
    × (handle_thumb lower tool none Schema.no_faults Blobs.no_faults empty_db 2 hash_a after
        ≡ (reply, after))
unfolding is_hex_sha256 exists Blobs.valid_hash Blobs.path Blobs.norm_ext text_eq has_prefix
    ext_for_mime
handle_thumb_heals_example =
    handle_thumb_heals lower tool converter 1 2 hash_a sample_db empty_db sample_files row_a
      (bytes "photo") (bytes "rendition") refl refl refl refl refl refl

handle_admin_delete_erases_example :
    let (reply, after, db') =
      handle_admin_delete lower Schema.no_faults
        (λ _. Blobs.no_faults)
        (admitted none)
        hash_a
        sample_files
        sample_db in
    (reply ≡ redirected (bytes "/admin"))
    × (after (blob original (bytes "aa") (hash_a ++ bytes ".heic")) ≡ (
        if path_eq
          (path lower original hash_a (ext_for_mime row_a.mime))
          (blob original (bytes "aa") (hash_a ++ bytes ".heic"))
        then none
        else sample_files (blob original (bytes "aa") (hash_a ++ bytes ".heic"))))
    × (find (has_hash hash_a) db'.photos ≡ none)
unfolding is_hex_sha256 text_eq
handle_admin_delete_erases_example =
    handle_admin_delete_erases lower none hash_a sample_db sample_files row_a original (bytes "aa")
      (hash_a ++ bytes ".heic") refl refl

require_admin_opens_example :
    (is_empty (bytes "boss") ≡ false)
    × ((some (bytes "boss")) ≡ some (bytes "boss"))
    × (require_access mark access known_visit ≡ through)
unfolding require_admin text_eq
require_admin_opens_example =
    require_admin_opens mark (bytes "boss") access (some (bytes "boss"))
      (some (access_cookie mark access)) known_visit refl refl

abbrev fresh_library : Library
fresh_library = record library {
  digest = λ t. bytes "cccccccccccccccccccccccccccccccccccccccccccccccccccccccccccccccc";
}

abbrev new_photo : Accepted
new_photo = record {
  hash = bytes "cccccccccccccccccccccccccccccccccccccccccccccccccccccccccccccccc";
  mime = bytes "image/png";
  deduped = false;
  photo_id = 3;
}

abbrev sample_page : List PhotoListItem
sample_page = map (to_item sample_db.hearts guest) sample_db.photos

store_one_part_shows_example :
    (gallery_photos no_faults guest 0 31
      (store_one_part fresh_library 100 guest (bytes "Ada") part world).1.db).0
    ≡ ok (tile_of (bytes "Ada") part new_photo ∷ sample_page)
unfolding store_one_part detect_image limited remaining_of copy put_original Blobs.place Blobs.path
    Blobs.norm_ext insert_photo insert_row text_eq has_prefix gallery_photos
store_one_part_shows_example =
    store_one_part_shows fresh_library 100 guest (bytes "Ada") part world new_photo guest 30
      sample_page sample_db-Wf refl refl refl
