-- ===== src/Server/Serve/Downloads.antt =====
-- Originals that guests download, after any requests.
use photo_server.Base.{
  ◌≡◌, refl, ◌∙◌, sym, subst, true, ◌&&◌, inl, inr, Bool-cases, Option, some, Option-cases, List,
  [], ◌∷◌, ◌++◌, bytes, All, Text, ok, text_eq_iff, arith,
}
use photo_server.Store.Schema.{PhotoRow, Db, no_faults}
use photo_server.Store.Photos.{PhotoMeta, has_hash, is_visible, find_visible, photo_meta}
use photo_server.Blobs.{Files, original, path, open_blob}
use photo_server.Blobs.Contents.{has_file-some}
use photo_server.Convert.{ext_for_mime, Tool, Converter}
use photo_server.Server.Http.{answered, is_hex_sha256}
use photo_server.Server.Upload.{World}
use photo_server.Server.Upload.Filed.{IsFiled, HasOriginals, IsFiling}
use photo_server.Server.Serving.{Served, download_name, handle_original_download}
use photo_server.Server.Serving.Healing.{valid_hash-is_hex_sha256}
use photo_server.Server.Exchange.{Host, Server, Event}
use photo_server.Server.Serve.{serve_all}
use photo_server.Server.Serve.Originals.{serve_all-HasOriginals}
use photo_server.Blobs as Blobs

found-IsFiled :
    (to_lower : Text → Text) (fs : Files) (hash : Text) (rows : List PhotoRow) (r : PhotoRow)
    → All (λ x. IsFiled to_lower fs x.content_hash x.mime) rows
    → find_visible hash rows ≡ some r
    → IsFiled to_lower fs hash r.mime
unfolding find_visible
found-IsFiled to_lower fs hash [] r a e = absurd (cc)
found-IsFiled to_lower fs hash (x ∷ rows) r a e =
    elim (Bool-cases (has_hash hash x && is_visible x)) [
      | inl y ↦
          let same_hash : x.content_hash ≡ hash =
            (text_eq_iff x.content_hash hash).0 (ground arith) in
          let same_row : x ≡ r = cc (rw y at e) in
          subst (λ h. IsFiled to_lower fs h r.mime) same_hash
            (subst (λ row. IsFiled to_lower fs x.content_hash row.mime) same_row a.0)
      | inr n ↦ found-IsFiled to_lower fs hash rows r a.1 (rw n at e)
    ]

module _ (to_lower : Text → Text) (tool : Tool) (convr : Option Converter) (trim : Text → Text)
    (hash : Text) (db : Db) (fs : Files) (m : PhotoMeta) where
  abbrev pub Downloads : Type 0
  Downloads =
      (served : Served) × (handle_original_download to_lower tool convr no_faults Blobs.no_faults db
          trim hash fs
        ≡ answered served)
      × (served.content_type ≡ m.mime)
      × (fs (path to_lower original hash (ext_for_mime m.mime)) ≡ some served.content)

  download_of :
      IsFiled to_lower fs hash m.mime → (photo_meta no_faults hash db).0 ≡ ok (some m) → Downloads
  unfolding handle_original_download open_blob photo_meta
  download_of (valid, there) shown =
      let (c, holds) =
        has_file-some trim to_lower (path to_lower original hash (ext_for_mime m.mime)) fs there in
      let hex : is_hex_sha256 hash ≡ true = sym (valid_hash-is_hex_sha256 hash) ∙ valid in
      let served : Served = record {
        content = c;
        content_type = m.mime;
        etag = bytes "\"o-" ++ hash ++ bytes "\"";
        attachment = some (download_name trim m.original_filename hash (ext_for_mime m.mime));
      } in
      (served, rw (hex, shown, valid, holds) refl, refl, holds)

  downloads_of :
      HasOriginals to_lower fs db → (photo_meta no_faults hash db).0 ≡ ok (some m) → Downloads
  unfolding photo_meta
  downloads_of h shown = elim (Option-cases (find_visible hash db.photos)) [
    | inl gone ↦ absurd (ground (arith, gone))
    | inr (r, e) ↦
        let same_mime : r.mime ≡ m.mime = cc (shown, e) in
        download_of
          (subst (IsFiled to_lower fs hash) same_mime
            (found-IsFiled to_lower fs hash db.photos r h e))
          shown
  ]

-- With digests of 64 hex digits and extensions that are in lower case, after any requests and jobs
-- on a server whose photos all had their originals, whatever failed meanwhile: every photo that is
-- shown under a hash can be downloaded, if no call fails then, and the answer holds the filed
-- original with the photo's type.
pub serve_all-downloads :
    (host : Host) (srv : Server) (ok_lib : IsFiling host.library) (es : List Event) (w : World)
    (hash : Text) (m : PhotoMeta)
    → HasOriginals host.library.to_lower w.files w.db
    → (photo_meta no_faults hash (serve_all host srv es w).db).0 ≡ ok (some m)
    → Downloads host.library.to_lower host.tool srv.convr host.library.trim hash
        (serve_all host srv es w).db
        (serve_all host srv es w).files
        m
serve_all-downloads host srv ok_lib es w hash m h =
    downloads_of host.library.to_lower host.tool srv.convr host.library.trim hash
      (serve_all host srv es w).db (serve_all host srv es w).files m
      (serve_all-HasOriginals host srv ok_lib es w h)
