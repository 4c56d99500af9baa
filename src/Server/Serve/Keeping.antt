-- ===== src/Server/Serve/Keeping.antt =====
-- What a request may do to the database.
use photo_server.Base.{
  ◌≡◌, refl, Bool, true, false, Option, none, some, List, [], ◌∷◌, Text, bytes, ℕ,
}
use photo_server.Store.Wf.{Wf}
use photo_server.Store.Wf.History.{Operation, upserts, inserts, hides, deletes, toggles}
use photo_server.Store.Wf.Evolution.{
  Evolves, same, Evolves-trans, Evolves-more, Evolves-Wf, Evolves-to,
}
use photo_server.Server.Gate.{Passage, through, entered, gate, require_access}
use photo_server.Server.Upload.{World}
use photo_server.Server.Pages.{PageRequest}
use photo_server.Server.Routes.{
  Handler, health, upload, thumb, session, session_js, index, upload_page, gallery_page, app_css,
  polaroid_js, upload_js, resize_js, gallery_js, viewer_js, heart_js, img, font, my_uploads, photos,
  photo_page, photo_view, original_download, heart, dashboard, hide, unhide, delete, shutdown,
  print_page, Route, routes,
}
use photo_server.Server.Exchange.{Host, Server, Request, Chance, Event, arrives, works}
use photo_server.Convert.{Converter}
use photo_server.Convert.Pool.{Job, Pool}
use photo_server.Server.Serve.{
  after_job, run_job, happen, page_request, admission, handle, routed, gate_request, passed, serve,
  serve_all,
}
use photo_server.Server.Serve.Writing.{handle_session-Evolves, handle_heart-Evolves}
use photo_server.Server.Serve.Showing.{
  handle_photos-Evolves, handle_my_uploads-Evolves, handle_index-Evolves,
  handle_upload_page-Evolves, handle_gallery_page-Evolves, handle_photo_page-Evolves,
}
use photo_server.Server.Serve.Storing.{
  handle_upload-Evolves, admin_set_hidden-Evolves, handle_admin_delete-Evolves,
}
use photo_server.Server.Gate as Gate
use photo_server.Blobs as Blobs

abbrev pub is_upsert : Operation → Bool
is_upsert (upserts id name now) = true
is_upsert _ = false

-- What the store is asked to write for a request, by its handler.
abbrev pub allowed : Handler → Operation → Bool
allowed upload (inserts p) = true
allowed heart (toggles hash id now) = true
allowed hide (hides hash hidden now) = true
allowed unhide (hides hash hidden now) = true
allowed delete (deletes hash) = true
allowed h op = is_upsert op

module _ (host : Host) (srv : Server) where
  module _ (chance : Chance) (r : Request) where
    abbrev page : PageRequest
    page = page_request host srv chance r

    pub handle-Evolves :
        (h : Handler) (v : Text) (w : World)
        → Evolves (allowed h) w.db (handle host srv chance r h v w).1.db
    unfolding handle
    handle-Evolves upload v w =
        handle_upload-Evolves (λ id name now. refl) (λ p. refl) host.library srv.max_body
          chance.db_faults chance.name_faults srv.sessions chance.fresh chance.now _ w
    handle-Evolves session v w =
        handle_session-Evolves (λ id name now. refl) host.library.trim chance.db_faults
          chance.name_faults srv.sessions chance.fresh chance.now _ w.db
    handle-Evolves index v w =
        handle_index-Evolves (λ id name now. refl) chance.db_faults chance.fresh chance.now
          host.template srv.sessions page w.db
    handle-Evolves upload_page v w =
        handle_upload_page-Evolves (λ id name now. refl) chance.db_faults chance.fresh chance.now
          host.template srv.sessions page w.db
    handle-Evolves gallery_page v w =
        handle_gallery_page-Evolves (λ id name now. refl) chance.db_faults chance.fresh chance.now
          host.template srv.sessions page w.db
    handle-Evolves photo_page v w =
        handle_photo_page-Evolves (λ id name now. refl) chance.db_faults chance.fresh chance.now
          host.template srv.sessions v page w.db
    handle-Evolves my_uploads v w =
        handle_my_uploads-Evolves (λ id name now. refl) chance.db_faults chance.fresh chance.now
          srv.sessions (Gate.get (bytes "limit") r.query) r.session_cookie w.db
    handle-Evolves photos v w =
        handle_photos-Evolves (λ id name now. refl) chance.db_faults chance.fresh chance.now
          srv.sessions _ w.db
    handle-Evolves heart v w =
        handle_heart-Evolves (λ id name now. refl) (λ hash id now. refl) chance.db_faults
          srv.sessions chance.fresh chance.now _ w.db
    handle-Evolves hide v w =
        admin_set_hidden-Evolves (λ hash hidden now. refl) chance.db_faults
          (admission host srv chance r) v true chance.now w.db
    handle-Evolves unhide v w =
        admin_set_hidden-Evolves (λ hash hidden now. refl) chance.db_faults
          (admission host srv chance r) v false chance.now w.db
    handle-Evolves delete v w =
        handle_admin_delete-Evolves (λ hash. refl) host.library.to_lower chance.db_faults
          chance.remove_faults (admission host srv chance r) v w.files w.db
    handle-Evolves health v w = same
    handle-Evolves thumb v w = same
    handle-Evolves session_js v w = same
    handle-Evolves app_css v w = same
    handle-Evolves polaroid_js v w = same
    handle-Evolves upload_js v w = same
    handle-Evolves resize_js v w = same
    handle-Evolves gallery_js v w = same
    handle-Evolves viewer_js v w = same
    handle-Evolves heart_js v w = same
    handle-Evolves img v w = same
    handle-Evolves font v w = same
    handle-Evolves photo_view v w = same
    handle-Evolves original_download v w = same
    handle-Evolves dashboard v w = same
    handle-Evolves shutdown v w = same
    handle-Evolves print_page v w = same

    -- Where the handler that is chosen writes no more than `more`, so does the request.
    module _ (more : Operation → Bool)
        (fits : (route : Route) (v : Text)
          → host.mux routes r.method r.path ≡ some (route, v)
          → (op : Operation) → allowed route.handler op ≡ true
          → more op ≡ true) where
      routed-Evolves :
          (w : World) (chosen : Option (Route × Text))
          → host.mux routes r.method r.path ≡ chosen
          → Evolves more w.db (routed host srv chance r w chosen).1.db
      routed-Evolves w none e = same
      routed-Evolves w (some (route, v)) e =
          Evolves-more (fits route v e) (handle-Evolves route.handler v w)

      passed-Evolves :
          (w : World) (p : Passage) → Evolves more w.db (passed host srv chance r w p).1.db
      passed-Evolves w through = routed-Evolves w (host.mux routes r.method r.path) refl
      passed-Evolves w (entered cookie path query) = same
      passed-Evolves w (gate status bad) = same

      pub serve-Evolves : (w : World) → Evolves more w.db (serve host srv chance r w).1.db
      unfolding serve
      serve-Evolves w =
          passed-Evolves w
            (require_access host.library.digest srv.access (gate_request host srv chance r))

  after_job-keeps :
      (c : Converter) (faults more : Blobs.Faults) (id id' : ℕ) (w : World) (p : Pool)
      (jobs : List Job)
      → (after_job host c faults more id id' w p jobs).db ≡ w.db
  after_job-keeps c faults more id id' w p [] = refl
  after_job-keeps c faults more id id' w p (j ∷ jobs) = refl

  run_job-keeps :
      (faults more : Blobs.Faults) (id id' : ℕ) (w : World) (convr : Option Converter)
      (conv : Option Pool)
      → (run_job host faults more id id' w convr conv).db ≡ w.db
  run_job-keeps faults more id id' w (some c) (some p) =
      after_job-keeps c faults more id id' w p p.jobs
  run_job-keeps faults more id id' w (some c) none = refl
  run_job-keeps faults more id id' w none o = refl

  happen-Evolves : (e : Event) (w : World) → Evolves (λ op. true) w.db (happen host srv e w).db
  unfolding happen
  happen-Evolves (arrives chance r) w =
      serve-Evolves chance r (λ op. true) (λ route v e op may. refl) w
  happen-Evolves (works faults more id id') w =
      Evolves-to same (run_job-keeps faults more id id' w srv.convr w.conv)

  serve_all-Evolves :
      (es : List Event) (w : World) → Evolves (λ op. true) w.db (serve_all host srv es w).db
  unfolding serve_all
  serve_all-Evolves [] w = same
  serve_all-Evolves (e ∷ es) w =
      Evolves-trans (happen-Evolves e w) (serve_all-Evolves es (happen host srv e w))

  -- Whatever requests come and whatever jobs are done, in whatever order and whatever fails
  -- meanwhile, a well-formed database stays one: with unique ids, hashes, sessions and hearts,
  -- references that point to rows, and a `heart_count` that is the number of the photo's hearts.
  pub serve_all-Wf : (es : List Event) (w : World) → Wf w.db → Wf (serve_all host srv es w).db
  serve_all-Wf es w = Evolves-Wf (serve_all-Evolves es w)
