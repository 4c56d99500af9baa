-- ===== src/Server/Serve/Outsiders.antt =====
-- What a request gets that brings no password.
use photo_server.Base.{
  ℕ, ◌≡◌, ◌≢◌, refl, inl, inr, Bool, true, false, not, ◌&&◌, ◌||◌, is_none, Option, some,
  Option-cases, ◌++◌, Text, bytes, text_eq, is_empty, has_prefix, all, all-In, arith, Bool-cases,
}
use photo_server.Server.Http.{Reply, failed, answered, redirected}
use photo_server.Server.Gate.{Passage, through, entered, gate, is_exempt, require_access}
use photo_server.Server.Gate.Entry.{through_iff}
use photo_server.Server.Upload.{World}
use photo_server.Server.Static.{StaticFile, handle_font, has_separator}
use photo_server.Server.Admin.{
  refused, is_password, require_admin, handle_admin_dashboard, admin_set_hidden,
  handle_admin_delete, handle_admin_shutdown,
}
use photo_server.Server.Admin.Erasing.{password_is}
use photo_server.Server.Print.{handle_print_page}
use photo_server.Server.Routes.{
  Handler, health, upload, thumb, session, session_js, index, upload_page, gallery_page, app_css,
  polaroid_js, upload_js, resize_js, gallery_js, viewer_js, heart_js, img, font, my_uploads, photos,
  photo_page, photo_view, original_download, heart, dashboard, hide, unhide, delete, shutdown,
  print_page, Route, routes, fill,
}
use photo_server.Server.Exchange.{
  Host, Server, Request, Chance, IsMux, Response, gated, unrouted, healthy, built_in, listed,
  moderated, stopping, printed,
}
use photo_server.Server.Serve.{admission, handle, routed, gate_request, passed, serve}
use photo_server.Server.Gate as Gate

-- The handlers that the gate lets everybody reach.
abbrev is_open : Handler → Bool
is_open health = true
is_open font = true
is_open dashboard = true
is_open hide = true
is_open unhide = true
is_open delete = true
is_open shutdown = true
is_open print_page = true
is_open _ = false

guarded :
    (v : Text)
    → all (λ route. not (is_exempt (fill route.pattern v)) || is_open route.handler) routes ≡ true
unfolding routes is_exempt text_eq has_prefix
guarded v = refl

abbrev is_refusal : {A : Type 0} → Reply A → Bool
is_refusal (failed status) = true
is_refusal (answered a) = false
is_refusal (redirected to) = false

abbrev is_font : Reply StaticFile → Bool
is_font (failed status) = true
is_font (answered f) = text_eq f.content_type (bytes "font/woff2")
is_font (redirected to) = false

-- A response that shows nothing of the album: the gate's, a missing page, the health check's, a font,
-- or the operator's refusals.
abbrev pub is_closed : Response → Bool
is_closed (gated p) = true
is_closed unrouted = true
is_closed (healthy reply) = true
is_closed (built_in reply) = is_font reply
is_closed (listed reply cookie) = is_refusal reply && is_none cookie
is_closed (moderated reply cookie) = is_refusal reply && is_none cookie
is_closed (stopping (reply, sent) cookie) = is_refusal reply && not sent && is_none cookie
is_closed (printed reply cookie) = is_refusal reply && is_none cookie
is_closed _ = false

refused_lem :
    (digest : Text → Text) (password : Text) (access : Gate.Access) (auth : Option Text)
    → auth ≢ some password
    → (status : ℕ) × (require_admin digest password access auth ≡ refused status)
unfolding require_admin
refused_lem digest password access auth h =
    let wrong : is_password auth password ≡ false = ground (arith, password_is auth password) in
    elim (Bool-cases (is_empty password)) [
      | inl e ↦ (404, rw e refl)
      | inr e ↦ (401, rw (e, wrong) refl)
    ]

exempt_lem :
    (digest : Text → Text) (access : Gate.Access) (r : Gate.Request)
    → is_empty access.password ≡ false
    → r.cookie ≢ some (digest access.password)
    → require_access digest access r ≡ through
    → is_exempt r.path ≡ true
exempt_lem digest access r set new e = elim ((through_iff digest access r).0 e) [
  | inl unset ↦ absurd (cc)
  | inr (inl exempt) ↦ exempt
  | inr (inr cookie) ↦ absurd (new cookie)
]

handle_font-is_font : (fonts : Text → Option Text) (v : Text) → is_font (handle_font fonts v) ≡ true
unfolding handle_font text_eq
handle_font-is_font fonts v = elim (Bool-cases (is_empty v || has_separator v)) [
  | inl e ↦ rw e refl
  | inr e ↦ rw e (elim (Option-cases (fonts (bytes "assets/fonts/" ++ v))) [
    | inl n ↦ rw n refl
    | inr (b, s) ↦ rw s refl
  ])
]

module _ (host : Host) (srv : Server) (chance : Chance) (r : Request) (w : World) where
  abbrev Nothing : Response × World → Type 0
  Nothing done = (is_closed done.0 ≡ true) × (done.1 ≡ w)

  handle_open :
      (h : Handler) (v : Text) (status : ℕ)
      → is_open h ≡ true
      → admission host srv chance r ≡ refused status
      → Nothing (handle host srv chance r h v w)
  unfolding handle handle_admin_dashboard admin_set_hidden handle_admin_delete handle_admin_shutdown
      handle_print_page
  handle_open health v status o a = (refl, refl)
  handle_open font v status o a = (handle_font-is_font host.fonts v, refl)
  handle_open dashboard v status o a = rw a (refl, refl)
  handle_open hide v status o a = rw a (refl, refl)
  handle_open unhide v status o a = rw a (refl, refl)
  handle_open delete v status o a = rw a (refl, refl)
  handle_open shutdown v status o a = rw a (refl, refl)
  handle_open print_page v status o a = rw a (refl, refl)
  handle_open upload v status o a = absurd (cc)
  handle_open thumb v status o a = absurd (cc)
  handle_open session v status o a = absurd (cc)
  handle_open session_js v status o a = absurd (cc)
  handle_open index v status o a = absurd (cc)
  handle_open upload_page v status o a = absurd (cc)
  handle_open gallery_page v status o a = absurd (cc)
  handle_open app_css v status o a = absurd (cc)
  handle_open polaroid_js v status o a = absurd (cc)
  handle_open upload_js v status o a = absurd (cc)
  handle_open resize_js v status o a = absurd (cc)
  handle_open gallery_js v status o a = absurd (cc)
  handle_open viewer_js v status o a = absurd (cc)
  handle_open heart_js v status o a = absurd (cc)
  handle_open img v status o a = absurd (cc)
  handle_open my_uploads v status o a = absurd (cc)
  handle_open photos v status o a = absurd (cc)
  handle_open photo_page v status o a = absurd (cc)
  handle_open photo_view v status o a = absurd (cc)
  handle_open original_download v status o a = absurd (cc)
  handle_open heart v status o a = absurd (cc)

  route_open :
      (mux : IsMux host.mux)
      → is_exempt r.path ≡ true
      → (route : Route) (v : Text) → host.mux routes r.method r.path ≡ some (route, v)
      → is_open route.handler ≡ true
  route_open mux exempt route v e =
      let (chosen, method, at_path) = mux routes r.method r.path route v e in
      let checked =
        all-In (λ s. not (is_exempt (fill s.pattern v)) || is_open s.handler) (guarded v) chosen in
      ground (arith, rw (at_path, exempt) at checked)

  routed_open :
      (status : ℕ) (mux : IsMux host.mux)
      → admission host srv chance r ≡ refused status
      → is_exempt r.path ≡ true
      → Nothing (routed host srv chance r w (host.mux routes r.method r.path))
  routed_open status mux a exempt = elim (Option-cases (host.mux routes r.method r.path)) [
    | inl n ↦ rw n (refl, refl)
    | inr ((route, v), e) ↦
        rw e (handle_open route.handler v status (route_open mux exempt route v e) a)
  ]

  passed_closed :
      (status : ℕ) (mux : IsMux host.mux) (p : Passage)
      → admission host srv chance r ≡ refused status
      → (p ≡ through → is_exempt r.path ≡ true)
      → Nothing (passed host srv chance r w p)
  passed_closed status mux through a exempt = routed_open status mux a (exempt refl)
  passed_closed status mux (entered cookie path query) a exempt = (refl, refl)
  passed_closed status mux (gate n bad) a exempt = (refl, refl)

-- With an event password set, and where the router chooses a route of the table that fits the
-- request: a request without the cookie that proves the password and without the operator's
-- password changes neither the database nor the files nor the queue, whatever its method, path,
-- query and body are, and gets nothing but the gate's page or redirect, the health check's answer,
-- a font, a missing page or a refusal; no shutdown signal is sent.
pub serve_outsider :
    (host : Host) (srv : Server) (chance : Chance) (r : Request) (w : World)
    → IsMux host.mux
    → is_empty srv.access.password ≡ false
    → r.access_cookie ≢ some (host.library.digest srv.access.password)
    → r.auth ≢ some srv.admin_password
    → (is_closed (serve host srv chance r w).0 ≡ true) × ((serve host srv chance r w).1 ≡ w)
unfolding serve
serve_outsider host srv chance r w mux password cookie auth =
    let (status, a) = refused_lem host.library.digest srv.admin_password srv.access r.auth auth in
    let p = require_access host.library.digest srv.access (gate_request host srv chance r) in
    passed_closed host srv chance r w status mux p a
      (exempt_lem host.library.digest srv.access (gate_request host srv chance r) password cookie)
