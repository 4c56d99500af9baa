-- ===== src/Server/Serve.antt =====
-- internal/server/server.go: a request on its way through the gate and the routes to its handler.
pub mod Writing
pub mod Showing
pub mod Storing
pub mod Keeping
pub mod Looking
pub mod Originals
pub mod Downloads
pub mod Outsiders
use photo_server.Base.{ℕ, true, false, Option, none, some, List, [], ◌∷◌, Text, bytes, text_eq}
use photo_server.Server.Exchange.{
  Host, Server, Request, Chance, Response, gated, unrouted, healthy, stored, bound, page, asset,
  built_in, uploads, feed, photo, toggled, listed, moderated, stopping, printed, Event, arrives,
  works,
}
use photo_server.Convert.{Converter, work}
use photo_server.Convert.Pool.{Job, Pool, without}
use photo_server.Store.Schema.{Db}
use photo_server.Blobs.{Files}
use photo_server.Session.{Cookie}
use photo_server.Server.Http.{Reply}
use photo_server.Server.Gate.{Passage, through, entered, gate, get, require_access}
use photo_server.Server.Guests.{handle_session, handle_heart}
use photo_server.Server.Api.{handle_photos, handle_my_uploads}
use photo_server.Server.Upload.{World}
use photo_server.Server.Upload.Parts.{UploadResponse, handle_upload}
use photo_server.Server.Serving.{Served, handle_thumb, handle_photo_view, handle_original_download}
use photo_server.Server.Admin.{
  Admission, granted_cookie, require_admin, handle_admin_dashboard, admin_set_hidden,
  handle_admin_delete, handle_admin_shutdown,
}
use photo_server.Server.Pages.{
  PageRequest, handle_index, handle_upload_page, handle_gallery_page, handle_photo_page,
}
use photo_server.Server.Static.{handle_asset, handle_img, handle_font, handle_health}
use photo_server.Server.Print.{handle_print_page}
use photo_server.Server.Routes.{
  Handler, health, upload, thumb, session, session_js, index, upload_page, gallery_page, app_css,
  polaroid_js, upload_js, resize_js, gallery_js, viewer_js, heart_js, img, font, my_uploads, photos,
  photo_page, photo_view, original_download, heart, dashboard, hide, unhide, delete, shutdown,
  print_page, Route, routes,
}
use photo_server.Blobs as Blobs
use photo_server.Server.Gate as Gate
use photo_server.Server.Static as Static

module _ (host : Host) (srv : Server) (chance : Chance) (r : Request) where
  abbrev pub with_db :
      {A : Type 0}
      → (A → Option Cookie → Response)
      → World
      → A × Option Cookie × Db
      → Response × World
  with_db f w (reply, cookie, db) = (f reply cookie, record w { db = db })

  abbrev pub with_files : World → Reply Served × Files → Response × World
  with_files w (reply, fs) = (photo reply, record w { files = fs })

  abbrev pub with_upload : Reply UploadResponse × Option Cookie × World → Response × World
  with_upload (reply, cookie, w) = (stored reply cookie, w)

  abbrev pub admission : Admission
  admission = require_admin host.library.digest srv.admin_password srv.access r.auth

  abbrev pub moderated_db : World → Reply (Unit {0}) × Db → Response × World
  moderated_db w (reply, db) = (moderated reply (granted_cookie admission), record w { db = db })

  abbrev pub deleted_from : World → Reply (Unit {0}) × Files × Db → Response × World
  deleted_from w (reply, fs, db) =
      (moderated reply (granted_cookie admission), record w { files = fs; db = db })

  abbrev pub page_request : PageRequest
  page_request = record { cookie = r.session_cookie; filter = get (bytes "filter") r.query }

  -- A handler with the value of its pattern's wildcard.
  unfoldable pub handle : Handler → Text → World → Response × World
  handle health v w = (healthy (handle_health srv.version), w)
  handle upload v w = with_upload (
      handle_upload host.library srv.max_body chance.db_faults chance.name_faults srv.sessions
        chance.fresh chance.now
        (record {
          is_multipart = r.is_multipart;
          cookie = r.session_cookie;
          query_name = get (bytes "display_name") r.query;
          parts = r.parts;
        })
        w)
  handle thumb v w = with_files w (
      handle_thumb host.library.to_lower host.tool srv.convr chance.db_faults chance.blob_faults
        w.db chance.tmp_id v w.files)
  handle session v w = with_db bound w (
      handle_session host.library.trim chance.db_faults chance.name_faults srv.sessions chance.fresh
        chance.now
        (record {
          is_post = text_eq r.method (bytes "POST");
          token = r.token;
          display_name = r.display_name;
          cookie = r.session_cookie;
        })
        w.db)
  handle session_js v w = (asset (handle_asset host.assets Static.session_js), w)
  handle index v w = with_db page w (
      handle_index host.template chance.db_faults srv.sessions chance.fresh chance.now page_request
        w.db)
  handle upload_page v w = with_db page w (
      handle_upload_page host.template chance.db_faults srv.sessions chance.fresh chance.now
        page_request w.db)
  handle gallery_page v w = with_db page w (
      handle_gallery_page host.template chance.db_faults srv.sessions chance.fresh chance.now
        page_request w.db)
  handle app_css v w = (asset (handle_asset host.assets Static.app_css), w)
  handle polaroid_js v w = (asset (handle_asset host.assets Static.polaroid_js), w)
  handle upload_js v w = (asset (handle_asset host.assets Static.upload_js), w)
  handle resize_js v w = (asset (handle_asset host.assets Static.resize_js), w)
  handle gallery_js v w = (asset (handle_asset host.assets Static.gallery_js), w)
  handle viewer_js v w = (asset (handle_asset host.assets Static.viewer_js), w)
  handle heart_js v w = (asset (handle_asset host.assets Static.heart_js), w)
  handle img v w = (built_in (handle_img host.images v), w)
  handle font v w = (built_in (handle_font host.fonts v), w)
  handle my_uploads v w = with_db uploads w (
      handle_my_uploads chance.db_faults srv.sessions chance.fresh chance.now
        (get (bytes "limit") r.query) r.session_cookie w.db)
  handle photos v w = with_db feed w (
      handle_photos chance.db_faults srv.sessions chance.fresh chance.now
        (record {
          before = get (bytes "before") r.query;
          limit = get (bytes "limit") r.query;
          cookie = r.session_cookie;
        })
        w.db)
  handle photo_page v w = with_db page w (
      handle_photo_page host.template chance.db_faults srv.sessions chance.fresh chance.now v
        page_request w.db)
  handle photo_view v w = with_files w (
      handle_photo_view host.library.to_lower host.tool srv.convr chance.db_faults
        chance.blob_faults w.db chance.tmp_id v w.files)
  handle original_download v w = (
    photo (
        handle_original_download host.library.to_lower host.tool srv.convr chance.db_faults
          chance.blob_faults w.db host.library.trim v w.files),
    w,
  )
  handle heart v w = with_db toggled w (
      handle_heart chance.db_faults srv.sessions chance.fresh chance.now
        (record {
          hash = v;
          cookie = r.session_cookie;
          accepts_json = r.accepts_json;
          referer = r.referer;
        })
        w.db)
  handle dashboard v w = (
    listed (handle_admin_dashboard chance.db_faults admission w.db) (granted_cookie admission),
    w,
  )
  handle hide v w =
      moderated_db w (admin_set_hidden chance.db_faults admission v true chance.now w.db)
  handle unhide v w =
      moderated_db w (admin_set_hidden chance.db_faults admission v false chance.now w.db)
  handle delete v w = deleted_from w (
      handle_admin_delete host.library.to_lower chance.db_faults chance.remove_faults admission v
        w.files w.db)
  handle shutdown v w = (stopping (handle_admin_shutdown admission) (granted_cookie admission), w)
  handle print_page v w = (
    printed (handle_print_page host.printing srv.base_url srv.access.password admission)
        (granted_cookie admission),
    w,
  )

  abbrev pub routed : World → Option (Route × Text) → Response × World
  routed w none = (unrouted, w)
  routed w (some (route, v)) = handle route.handler v w

  abbrev pub gate_request : Gate.Request
  gate_request = record {
    path = r.path;
    is_post = text_eq r.method (bytes "POST");
    cookie = r.access_cookie;
    query = r.query;
    form_password = r.form_password;
  }

  abbrev pub passed : World → Passage → Response × World
  passed w through = routed w (host.mux routes r.method r.path)
  passed w (entered cookie path query) = (gated (entered cookie path query), w)
  passed w (gate status bad) = (gated (gate status bad), w)

  unfoldable pub serve : World → Response × World
  serve w = passed w (require_access host.library.digest srv.access gate_request)

-- The files and the queue after a job; the pool's part is `takes` and `finishes` of `Convert.Pool`.
abbrev pub after_job :
    Host → Converter → Blobs.Faults → Blobs.Faults → ℕ → ℕ → World → Pool → List Job → World
after_job host c faults more id id' w p [] = w
after_job host c faults more id id' w p (j ∷ jobs) = record w {
  files = work host.library.to_lower host.tool c faults more id id' j.hash j.ext j.mime w.files;
  conv = some (record p { jobs = jobs; in_flight = without j.hash p.in_flight });
}

-- Without a converter there is no pool.
abbrev pub run_job :
    Host → Blobs.Faults → Blobs.Faults → ℕ → ℕ → World → Option Converter → Option Pool → World
run_job host faults more id id' w (some c) (some p) = after_job host c faults more id id' w p p.jobs
run_job host faults more id id' w (some c) none = w
run_job host faults more id id' w none o = w

unfoldable pub happen : Host → Server → Event → World → World
happen host srv (arrives chance r) w = (serve host srv chance r w).1
happen host srv (works faults more id id') w = run_job host faults more id id' w srv.convr w.conv

-- Events, one after the other.
unfoldable pub serve_all : Host → Server → List Event → World → World
unfolding happen
serve_all host srv [] w = w
serve_all host srv (e ∷ es) w = serve_all host srv es (happen host srv e w)
