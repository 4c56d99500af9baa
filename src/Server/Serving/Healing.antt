-- ===== src/Server/Serving/Healing.antt =====
-- Thumbnails that are made when they are asked for, and what hiding a photo changes here.
use photo_server.Base.{
  ℕ, ◌≡◌, refl, ap, ◌∙◌, Bool, true, false, ◌&&◌, Option, none, some, List, [], ◌∷◌, ◌++◌, map,
  Text, bytes, text_eq_refl, find, take, is_empty, ok, arith, if◌then◌else◌, length, ◌==◌,
}
use photo_server.Store.Schema.{PhotoRow, Db}
use photo_server.Store.Photos.{has_hash, set_hidden, photo_by_hash, photo_meta, to_ref}
use photo_server.Store.Photos.Moderation.{find_visible-set_hidden, hide}
use photo_server.Blobs.{original, thumb, Files, valid_hash, exists, open_blob, path, put}
use photo_server.Convert.{Tool, Converter, ext_for_mime, render, thumbnail}
use photo_server.Server.Http.{failed, answered, is_hex_sha256}
use photo_server.Server.Serving.{handle_thumb, handle_photo_view, handle_original_download}
use photo_server.Store.Schema as Schema
use photo_server.Blobs as Blobs
use photo_server.Server.Http as Http

find-hide_ref :
    (hash key : Text) (at : Option ℕ) (rows : List PhotoRow)
    → to_ref key (find (has_hash key) (map (hide hash at) rows))
      ≡ to_ref key (find (has_hash key) rows)
find-hide_ref hash key at [] = refl
find-hide_ref hash key at (r ∷ rows) = ground (arith, find-hide_ref hash key at rows)

photo_by_hash-set_hidden :
    (faults : Schema.Faults) (hash : Text) (hidden : Bool) (now : ℕ) (db : Db)
    → (photo_by_hash faults hash (set_hidden Schema.no_faults hash hidden now db).1).0
      ≡ (photo_by_hash faults hash db).0
unfolding photo_by_hash set_hidden
photo_by_hash-set_hidden faults hash hidden now db =
    ground (arith, find-hide_ref hash hash (if hidden then some now else none) db.photos)

all_hex-same : (s : Text) → Blobs.all_hex s ≡ Http.all_hex s
all_hex-same [] = refl
all_hex-same (c ∷ s) = ap (λ b. Blobs.is_hex c && b) (all_hex-same s)

-- The handlers and the blob store mean the same by a hash.
pub valid_hash-is_hex_sha256 : (s : Text) → valid_hash s ≡ is_hex_sha256 s
unfolding valid_hash is_hex_sha256
valid_hash-is_hex_sha256 s = ap (λ b. (length s == 64) && b) (all_hex-same s)

module _ (to_lower : Text → Text) (tool : Tool) (convr : Option Converter) where
  -- With a well-formed hash and no failing statement in the hiding and in the look-ups of the
  -- pages, hiding a photo closes its view and its download, which answer 404, but not its
  -- thumbnail, which is answered as before, also where it has to be made first.
  pub hidden_pages :
      (faults : Schema.Faults) (blob_faults : Blobs.Faults) (trim : Text → Text) (id : ℕ)
      (hash : Text) (now : ℕ) (db : Db) (fs : Files)
      → is_hex_sha256 hash ≡ true
      → let hidden = (set_hidden Schema.no_faults hash true now db).1 in
        (handle_photo_view to_lower tool convr Schema.no_faults blob_faults hidden id hash fs
          ≡ (failed 404, fs))
        × (handle_original_download to_lower tool convr Schema.no_faults blob_faults hidden trim
              hash fs
            ≡ failed 404)
        × (handle_thumb to_lower tool convr faults blob_faults hidden id hash fs
            ≡ handle_thumb to_lower tool convr faults blob_faults db id hash fs)
  unfolding handle_photo_view handle_original_download handle_thumb photo_meta
  hidden_pages faults blob_faults trim id hash now db fs hex =
      let gone = find_visible-set_hidden hash true now db hash in
      let same = photo_by_hash-set_hidden faults hash true now db in
      (
        ground (arith, gone, text_eq_refl hash),
        ground (arith, gone, text_eq_refl hash),
        ground (arith, same),
      )

module _ (to_lower : Text → Text) (tool : Tool) (c : Converter) where
  -- With no failing call, a converter and a tool that makes the rendition, the missing thumbnail
  -- of a stored photo of an accepted type, whose hash is 64 hex digits and whose original is there, is
  -- made and answered; asked for
  -- again, it is answered the same, even without a converter or a row, and nothing changes.
  pub handle_thumb_heals :
      (id id' : ℕ) (hash : Text) (db db' : Db) (fs : Files) (p : PhotoRow) (source small : Text)
      → is_hex_sha256 hash ≡ true
      → exists to_lower thumb hash [] fs ≡ false
      → find (has_hash hash) db.photos ≡ some p
      → is_empty (ext_for_mime p.mime) ≡ false
      → fs (path to_lower original hash (ext_for_mime p.mime)) ≡ some source
      → tool source thumb c.thumb_px c.thumb_q ≡ ok small
      → let (reply, after) =
          handle_thumb to_lower tool (some c) Schema.no_faults Blobs.no_faults db id hash fs in
        (reply
          ≡ answered (record {
            content = small;
            content_type = bytes "image/webp";
            etag = bytes "\"" ++ hash ++ bytes "\"";
            attachment = none;
          }))
        × (handle_thumb to_lower tool none Schema.no_faults Blobs.no_faults db' id' hash after
            ≡ (reply, after))
  unfolding handle_thumb photo_by_hash thumbnail render exists put path open_blob
  handle_thumb_heals id id' hash db db' fs p source small hex new row ext src t =
      let v : valid_hash hash ≡ true = valid_hash-is_hex_sha256 hash ∙ hex in
      ground (arith, v, text_eq_refl (take 2 hash), text_eq_refl (hash ++ bytes ".webp"))
