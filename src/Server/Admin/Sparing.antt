-- ===== src/Server/Admin/Sparing.antt =====
-- The other photos while one is deleted.
use photo_server.Base.{
  ◌≡◌, refl, ap, ◌∙◌, sym, subst, false, not, inl, inr, Bool-cases, Option, none, some, List, [],
  ◌∷◌, All, keep, Text, Result, ok, err, text_eq, text_eq_iff, arith,
}
use photo_server.Store.Schema.{PhotoRow, Db}
use photo_server.Store.Photos.{has_hash, delete_rows, delete_photo}
use photo_server.Store.Wf.Content.{delete_photo-AllPhotos}
use photo_server.Blobs.{Kind, original, thumb, gallery, Files, remove}
use photo_server.Blobs.Keeping.{remove-keeps}
use photo_server.Convert.{ext_for_mime}
use photo_server.Server.Http.{is_hex_sha256}
use photo_server.Server.Upload.Filed.{IsFiled, HasOriginals}
use photo_server.Server.Admin.{
  Admission, refused, admitted, remove_all, deleted_reply, handle_admin_delete,
}
use photo_server.Store.Schema as Schema
use photo_server.Blobs as Blobs

delete_photo_done :
    (faults : Schema.Faults) (hash : Text) (db : Db) (mime : Text)
    → (delete_photo faults hash db).0 ≡ ok (some mime)
    → (delete_photo faults hash db).1 ≡ delete_rows hash db
unfolding delete_photo
delete_photo_done faults hash db mime e = ground arith

module _ (to_lower : Text → Text) where
  remove_all-IsFiled :
      (faults : Kind → Blobs.Faults) (hash ext other mime : Text) (ks : List Kind) (fs : Files)
      → text_eq hash other ≡ false
      → IsFiled to_lower fs other mime
      → IsFiled to_lower (remove_all to_lower faults hash ext ks fs) other mime
  unfolding remove_all
  remove_all-IsFiled faults hash ext other mime [] fs new f = f
  remove_all-IsFiled faults hash ext other mime (k ∷ ks) fs new f =
      remove_all-IsFiled faults hash ext other mime ks (remove to_lower (faults k) k hash ext fs).1
        new
        (f.0, remove-keeps to_lower (faults k) k hash ext other (ext_for_mime mime) fs new f.0 f.1)

  kept_rows :
      (faults : Kind → Blobs.Faults) (hash ext : Text) (ks : List Kind) (fs : Files)
      (rows : List PhotoRow)
      → All (λ r. IsFiled to_lower fs r.content_hash r.mime) rows
      → All
          (λ r. IsFiled to_lower (remove_all to_lower faults hash ext ks fs) r.content_hash r.mime)
          (keep (λ r. not (has_hash hash r)) rows)
  kept_rows faults hash ext ks fs [] h = tt
  kept_rows faults hash ext ks fs (r ∷ rows) h = elim (Bool-cases (has_hash hash r)) [
    | inl e ↦ rw e (kept_rows faults hash ext ks fs rows h.1)
    | inr e ↦ rw e (
      remove_all-IsFiled faults hash ext r.content_hash r.mime ks fs
          (ground (arith, text_eq_iff r.content_hash hash, text_eq_iff hash r.content_hash)) h.0,
      kept_rows faults hash ext ks fs rows h.1,
    )
  ]

  deleted_reply-HasOriginals :
      (faults : Schema.Faults) (blob_faults : Kind → Blobs.Faults) (hash : Text) (fs : Files)
      (db : Db) (done : Result (Option Text) × Db)
      → delete_photo faults hash db ≡ done
      → HasOriginals to_lower fs db
      → let after = deleted_reply to_lower blob_faults hash fs done in
        HasOriginals to_lower after.1 after.2
  unfolding remove_all delete_rows
  deleted_reply-HasOriginals faults blob_faults hash fs db (err, d) e h =
      subst (λ x. HasOriginals to_lower fs x.1) e
        (delete_photo-AllPhotos (IsFiled to_lower fs) faults hash db h)
  deleted_reply-HasOriginals faults blob_faults hash fs db (ok none, d) e h =
      subst (λ x. HasOriginals to_lower fs x.1) e
        (delete_photo-AllPhotos (IsFiled to_lower fs) faults hash db h)
  deleted_reply-HasOriginals faults blob_faults hash fs db (ok (some mime), d) e h =
      let ks = original ∷ thumb ∷ gallery ∷ [] in
      let gone : delete_rows hash db ≡ d =
        sym (delete_photo_done faults hash db mime (ap (λ x. x.0) e)) ∙ ap (λ x. x.1) e in
      subst (HasOriginals to_lower (remove_all to_lower blob_faults hash (ext_for_mime mime) ks fs))
        gone (kept_rows blob_faults hash (ext_for_mime mime) ks fs db.photos h)

  pub handle_admin_delete-HasOriginals :
      (faults : Schema.Faults) (blob_faults : Kind → Blobs.Faults) (admission : Admission)
      (hash : Text) (fs : Files) (db : Db)
      → HasOriginals to_lower fs db
      → let after = handle_admin_delete to_lower faults blob_faults admission hash fs db in
        HasOriginals to_lower after.1 after.2
  unfolding handle_admin_delete
  handle_admin_delete-HasOriginals faults blob_faults (refused status) hash fs db h = h
  handle_admin_delete-HasOriginals faults blob_faults (admitted cookie) hash fs db h =
      elim (Bool-cases (is_hex_sha256 hash)) [
        | inl e ↦ rw e (
            deleted_reply-HasOriginals faults blob_faults hash fs db (delete_photo faults hash db)
              refl h)
        | inr e ↦ rw e h
      ]
