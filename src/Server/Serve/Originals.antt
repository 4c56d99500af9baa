-- ===== src/Server/Serve/Originals.antt =====
-- The blob store and the database under all requests.
use photo_server.Base.{
  ℕ, ◌≡◌, refl, false, inl, inr, Bool-cases, Option, none, some, List, [], ◌∷◌, Text, Result, ok,
  err,
}
use photo_server.Store.Schema.{SessionRow, Db}
use photo_server.Store.Photos.{Photo}
use photo_server.Store.Wf.History.{inserts}
use photo_server.Store.Wf.Evolution.{Evolves}
use photo_server.Store.Wf.Content.{Evolves-AllPhotos}
use photo_server.Session.{Manager, Cookie, ensure}
use photo_server.Server.Gate.{Passage, through, entered, gate, require_access}
use photo_server.Server.Upload.{Library, World}
use photo_server.Server.Upload.Parts.{
  Progress, UploadRequest, walk, start, finished, keep_name, upload_as, handle_upload,
}
use photo_server.Server.Upload.Filed.{
  IsFiled, HasOriginals, KeepsOriginals-HasOriginals, IsFiling, walk-HasOriginals,
}
use photo_server.Server.Serving.Leaving.{handle_thumb-keeps, handle_photo_view-keeps}
use photo_server.Server.Admin.Sparing.{handle_admin_delete-HasOriginals}
use photo_server.Server.Routes.{
  Handler, health, upload, thumb, session, session_js, index, upload_page, gallery_page, app_css,
  polaroid_js, upload_js, resize_js, gallery_js, viewer_js, heart_js, img, font, my_uploads, photos,
  photo_page, photo_view, original_download, heart, dashboard, hide, unhide, delete, shutdown,
  print_page, Route, routes,
}
use photo_server.Server.Exchange.{Host, Server, Request, Chance, Event, arrives, works}
use photo_server.Convert.{Converter, work}
use photo_server.Convert.Renditions.{work-keeps}
use photo_server.Convert.Pool.{Job, Pool}
use photo_server.Blobs.{original}
use photo_server.Server.Serve.{
  after_job, run_job, happen, admission, handle, routed, gate_request, passed, serve, serve_all,
}
use photo_server.Server.Serve.Writing.{ensure-Evolves}
use photo_server.Server.Serve.Storing.{keep_name-Evolves}
use photo_server.Server.Serve.Keeping.{is_upsert, allowed, handle-Evolves}
use photo_server.Store.Schema as Schema
use photo_server.Blobs as Blobs

-- Every photo of the database has its original in the blob store.
abbrev pub Held : Library → World → Type 0
Held lib w = HasOriginals lib.to_lower w.files w.db

names_only :
    (lib : Library) (w : World) (db : Db)
    → Evolves is_upsert w.db db
    → Held lib w
    → Held lib (record w { db = db })
names_only lib w db e = Evolves-AllPhotos (IsFiled lib.to_lower w.files) (λ p. refl) e

-- An upload.
module _ (lib : Library) (max : ℕ) (ok_lib : IsFiling lib) (faults : Schema.Faults) (now : ℕ) where
  finished-Held :
      (session_id : Text) (cookie : Option Cookie) (done : Option Progress × World)
      → Held lib done.1
      → Held lib (finished faults session_id now cookie done).2
  finished-Held session_id cookie (none, w) h = h
  finished-Held session_id cookie (some p, w) h =
      names_only lib w (keep_name faults session_id now p w.db)
        (keep_name-Evolves (λ id name now. refl) faults session_id now p w.db) h

  upload_as-Held :
      (r : UploadRequest) (cookie : Option Cookie) (s : Result SessionRow) (w : World)
      → Held lib w
      → Held lib (upload_as lib max faults now r cookie s w).2
  upload_as-Held r cookie err w h = h
  upload_as-Held r cookie (ok s) w h =
      let p = start lib s.display_name r.query_name in
      finished-Held s.id cookie (walk lib max s.id r.parts p w)
        (walk-HasOriginals lib max s.id ok_lib r.parts p w h)

handle_upload-Held :
    (lib : Library) (max : ℕ) (ok_lib : IsFiling lib) (faults name_faults : Schema.Faults)
    (sessions : Option Manager) (fresh : Text) (now : ℕ) (r : UploadRequest) (w : World)
    → Held lib w
    → Held lib (handle_upload lib max faults name_faults sessions fresh now r w).2
unfolding handle_upload
handle_upload-Held lib max ok_lib faults name_faults none fresh now r w h =
    elim (Bool-cases r.is_multipart) [
      | inr e ↦ rw e h
      | inl e ↦ rw e (
          let p = start lib [] r.query_name in
          finished-Held lib max ok_lib name_faults now [] none (walk lib max [] r.parts p w)
            (walk-HasOriginals lib max [] ok_lib r.parts p w h))
    ]
handle_upload-Held lib max ok_lib faults name_faults (some m) fresh now r w h =
    elim (Bool-cases r.is_multipart) [
      | inr e ↦ rw e h
      | inl e ↦ rw e (
          let b = ensure faults m r.cookie fresh now w.db in
          upload_as-Held lib max ok_lib name_faults now r b.0.cookie b.0.session
            (record w { db = b.1 })
            (names_only lib w b.1
              (ensure-Evolves (λ id name now. refl) faults m r.cookie fresh now w.db) h))
    ]

module _ (host : Host) (srv : Server) (ok_lib : IsFiling host.library) where
  abbrev Safe : World → Type 0
  Safe = Held host.library

  module _ (chance : Chance) (r : Request) where
    -- A handler that leaves the files and inserts no photo.
    db_only :
        (h : Handler) (v : Text) (w : World)
        → ((p : Photo) → allowed h (inserts p) ≡ false)
        → Safe w
        → Safe (record w { db = (handle host srv chance r h v w).1.db })
    db_only h v w no_new s =
        Evolves-AllPhotos (IsFiled host.library.to_lower w.files) no_new
          (handle-Evolves host srv chance r h v w) s

    handle-Held :
        (h : Handler) (v : Text) (w : World) → Safe w → Safe (handle host srv chance r h v w).1
    unfolding handle
    handle-Held upload v w s =
        handle_upload-Held host.library srv.max_body ok_lib chance.db_faults chance.name_faults
          srv.sessions chance.fresh chance.now _ w s
    handle-Held thumb v w s =
        KeepsOriginals-HasOriginals host.library.to_lower w.files
          (handle host srv chance r thumb v w).1.files w.db
          (handle_thumb-keeps host.library.to_lower host.tool chance.db_faults chance.blob_faults
            w.db chance.tmp_id v w.files srv.convr)
          s
    handle-Held photo_view v w s =
        KeepsOriginals-HasOriginals host.library.to_lower w.files
          (handle host srv chance r photo_view v w).1.files w.db
          (handle_photo_view-keeps host.library.to_lower host.tool chance.db_faults
            chance.blob_faults w.db chance.tmp_id v w.files srv.convr)
          s
    handle-Held delete v w s =
        handle_admin_delete-HasOriginals host.library.to_lower chance.db_faults chance.remove_faults
          (admission host srv chance r) v w.files w.db s
    handle-Held session v w s = db_only session v w (λ p. refl) s
    handle-Held index v w s = db_only index v w (λ p. refl) s
    handle-Held upload_page v w s = db_only upload_page v w (λ p. refl) s
    handle-Held gallery_page v w s = db_only gallery_page v w (λ p. refl) s
    handle-Held photo_page v w s = db_only photo_page v w (λ p. refl) s
    handle-Held my_uploads v w s = db_only my_uploads v w (λ p. refl) s
    handle-Held photos v w s = db_only photos v w (λ p. refl) s
    handle-Held heart v w s = db_only heart v w (λ p. refl) s
    handle-Held hide v w s = db_only hide v w (λ p. refl) s
    handle-Held unhide v w s = db_only unhide v w (λ p. refl) s
    handle-Held health v w s = s
    handle-Held session_js v w s = s
    handle-Held app_css v w s = s
    handle-Held polaroid_js v w s = s
    handle-Held upload_js v w s = s
    handle-Held resize_js v w s = s
    handle-Held gallery_js v w s = s
    handle-Held viewer_js v w s = s
    handle-Held heart_js v w s = s
    handle-Held img v w s = s
    handle-Held font v w s = s
    handle-Held original_download v w s = s
    handle-Held dashboard v w s = s
    handle-Held shutdown v w s = s
    handle-Held print_page v w s = s

    routed-Held :
        (w : World) (chosen : Option (Route × Text))
        → Safe w
        → Safe (routed host srv chance r w chosen).1
    routed-Held w none s = s
    routed-Held w (some (route, v)) s = handle-Held route.handler v w s

    passed-Held : (w : World) (p : Passage) → Safe w → Safe (passed host srv chance r w p).1
    passed-Held w through s = routed-Held w (host.mux routes r.method r.path) s
    passed-Held w (entered cookie path query) s = s
    passed-Held w (gate status bad) s = s

    serve-Held : (w : World) → Safe w → Safe (serve host srv chance r w).1
    unfolding serve
    serve-Held w =
        passed-Held w
          (require_access host.library.digest srv.access (gate_request host srv chance r))

  after_job-Held :
      (c : Converter) (faults more : Blobs.Faults) (id id' : ℕ) (w : World) (p : Pool)
      (jobs : List Job)
      → Safe w
      → Safe (after_job host c faults more id id' w p jobs)
  after_job-Held c faults more id id' w p [] s = s
  after_job-Held c faults more id id' w p (j ∷ jobs) s =
      KeepsOriginals-HasOriginals host.library.to_lower w.files
        (work host.library.to_lower host.tool c faults more id id' j.hash j.ext j.mime w.files) w.db
        (work-keeps host.library.to_lower host.tool c faults more id id' j.hash j.ext j.mime w.files
          original)
        s

  run_job-Held :
      (faults more : Blobs.Faults) (id id' : ℕ) (w : World) (convr : Option Converter)
      (conv : Option Pool)
      → Safe w
      → Safe (run_job host faults more id id' w convr conv)
  run_job-Held faults more id id' w (some c) (some p) s =
      after_job-Held c faults more id id' w p p.jobs s
  run_job-Held faults more id id' w (some c) none s = s
  run_job-Held faults more id id' w none o s = s

  happen-Held : (e : Event) (w : World) → Safe w → Safe (happen host srv e w)
  unfolding happen
  happen-Held (arrives chance r) w s = serve-Held chance r w s
  happen-Held (works faults more id id') w s = run_job-Held faults more id id' w srv.convr w.conv s

  -- With digests of 64 hex digits and extensions that are in lower case: if every photo of the
  -- database has its original in the blob store, under a hash of the right form, then so it is
  -- after any requests and jobs, whatever fails meanwhile.
  pub serve_all-HasOriginals :
      (es : List Event) (w : World)
      → HasOriginals host.library.to_lower w.files w.db
      → let after = serve_all host srv es w in
        HasOriginals host.library.to_lower after.files after.db
  unfolding serve_all
  serve_all-HasOriginals [] w s = s
  serve_all-HasOriginals (e ∷ es) w s =
      serve_all-HasOriginals es (happen host srv e w) (happen-Held e w s)
