-- ===== src/Server/Serving/Leaving.antt =====
-- The originals while photos are served.
use photo_server.Base.{
  ℕ, Bool, true, false, inl, inr, Bool-cases, Option, none, some, [], Text, Result, ok, err,
  is_empty,
}
use photo_server.Store.Schema.{Db}
use photo_server.Store.Schema as Schema
use photo_server.Store.Photos.{PhotoRef, PhotoMeta, photo_by_hash, photo_meta}
use photo_server.Blobs as Blobs
use photo_server.Blobs.{original, thumb, gallery, Files, exists}
use photo_server.Blobs.Keeping.{KeepsOriginals}
use photo_server.Convert.{Tool, Converter, ext_for_mime, is_heic, thumbnail, gallery_jpeg}
use photo_server.Convert.Renditions.{render-keeps}
use photo_server.Server.Http.{is_hex_sha256}
use photo_server.Server.Serving.{
  succeeded, thumb_of_type, thumb_of, regenerate_thumb, served_thumb, handle_thumb,
  regenerate_gallery, served_gallery, view_of, view_for, handle_photo_view,
}

succeeded-keeps :
    (fs : Files) (x : Result (Unit {0}) × Files)
    → KeepsOriginals fs x.1
    → KeepsOriginals fs (succeeded x).1
succeeded-keeps fs (ok u, gs) k = k
succeeded-keeps fs (err, gs) k = k

module _ (to_lower : Text → Text) (tool : Tool) (faults : Schema.Faults)
    (blob_faults : Blobs.Faults) (db : Db) where
  module _ (id : ℕ) (hash : Text) (fs : Files) where
    thumb_of_type-keeps :
        (convr : Option Converter) (c : Converter) (ext : Text)
        → KeepsOriginals fs
            (thumb_of_type to_lower tool convr faults blob_faults db id hash c ext fs).1
    unfolding thumbnail
    thumb_of_type-keeps convr c ext = elim (Bool-cases (is_empty ext)) [
      | inl e ↦ rw e (λ shard name h. h)
      | inr e ↦ rw e (
          succeeded-keeps fs (thumbnail to_lower tool c blob_faults id hash ext fs) (
            render-keeps to_lower tool blob_faults id thumb original hash ext c.thumb_px c.thumb_q
              fs))
    ]

    thumb_of-keeps :
        (convr : Option Converter) (c : Converter) (found : Result (Option PhotoRef) × Db)
        → KeepsOriginals fs
            (thumb_of to_lower tool convr faults blob_faults db id hash c found fs).1
    thumb_of-keeps convr c (ok (some ref), d) = thumb_of_type-keeps convr c (ext_for_mime ref.mime)
    thumb_of-keeps convr c (ok none, d) = λ shard name h. h
    thumb_of-keeps convr c (err, d) = λ shard name h. h

    regenerate_thumb-keeps :
        (convr o : Option Converter)
        → KeepsOriginals fs
            (regenerate_thumb to_lower tool convr faults blob_faults db id hash o fs).1
    regenerate_thumb-keeps convr none = λ shard name h. h
    regenerate_thumb-keeps convr (some c) = thumb_of-keeps convr c (photo_by_hash faults hash db)

    served_thumb-keeps :
        (convr : Option Converter) (x : Bool × Files)
        → KeepsOriginals fs x.1
        → KeepsOriginals fs (served_thumb to_lower tool convr faults blob_faults db hash x).1
    served_thumb-keeps convr (true, gs) k = k
    served_thumb-keeps convr (false, gs) k = k

    pub handle_thumb-keeps :
        (convr : Option Converter)
        → KeepsOriginals fs (handle_thumb to_lower tool convr faults blob_faults db id hash fs).1
    unfolding handle_thumb
    handle_thumb-keeps convr = elim (Bool-cases (is_hex_sha256 hash)) [
      | inr e ↦ rw e (λ shard name h. h)
      | inl e ↦ rw e (elim (Bool-cases (exists to_lower thumb hash [] fs)) [
        | inl there ↦ rw there (λ shard name h. h)
        | inr gone ↦ rw gone (
            served_thumb-keeps convr
              (regenerate_thumb to_lower tool convr faults blob_faults db id hash convr fs)
              (regenerate_thumb-keeps convr convr))
      ])
    ]

    regenerate_gallery-keeps :
        (convr o : Option Converter) (mime : Text)
        → KeepsOriginals fs
            (regenerate_gallery to_lower tool convr faults blob_faults db id hash mime o fs).1
    unfolding gallery_jpeg
    regenerate_gallery-keeps convr none mime = λ shard name h. h
    regenerate_gallery-keeps convr (some c) mime =
        elim (Bool-cases (is_empty (ext_for_mime mime))) [
          | inl e ↦ rw e (λ shard name h. h)
          | inr e ↦ rw e (
              succeeded-keeps fs
                (gallery_jpeg to_lower tool c blob_faults id hash (ext_for_mime mime) fs)
                (render-keeps to_lower tool blob_faults id gallery original hash (ext_for_mime mime)
                  c.gallery_px c.gallery_q fs))
        ]

    served_gallery-keeps :
        (convr : Option Converter) (x : Bool × Files)
        → KeepsOriginals fs x.1
        → KeepsOriginals fs (served_gallery to_lower tool convr faults blob_faults db hash x).1
    served_gallery-keeps convr (true, gs) k = k
    served_gallery-keeps convr (false, gs) k = k

    view_of-keeps :
        (convr : Option Converter) (mime : Text)
        → KeepsOriginals fs (view_of to_lower tool convr faults blob_faults db id hash mime fs).1
    view_of-keeps convr mime = elim (Bool-cases (is_heic mime)) [
      | inr e ↦ rw e (λ shard name h. h)
      | inl e ↦ rw e (elim (Bool-cases (exists to_lower gallery hash [] fs)) [
        | inl there ↦ rw there (λ shard name h. h)
        | inr gone ↦ rw gone (
            served_gallery-keeps convr
              (regenerate_gallery to_lower tool convr faults blob_faults db id hash mime convr fs)
              (regenerate_gallery-keeps convr convr mime))
      ])
    ]

    view_for-keeps :
        (convr : Option Converter) (found : Result (Option PhotoMeta) × Db)
        → KeepsOriginals fs (view_for to_lower tool convr faults blob_faults db id hash found fs).1
    view_for-keeps convr (err, d) = λ shard name h. h
    view_for-keeps convr (ok none, d) = λ shard name h. h
    view_for-keeps convr (ok (some meta), d) = view_of-keeps convr meta.mime

    pub handle_photo_view-keeps :
        (convr : Option Converter)
        → KeepsOriginals fs
            (handle_photo_view to_lower tool convr faults blob_faults db id hash fs).1
    unfolding handle_photo_view
    handle_photo_view-keeps convr = elim (Bool-cases (is_hex_sha256 hash)) [
      | inr e ↦ rw e (λ shard name h. h)
      | inl e ↦ rw e (view_for-keeps convr (photo_meta faults hash db))
    ]
