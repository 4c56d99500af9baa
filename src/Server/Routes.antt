-- ===== src/Server/Routes.antt =====
-- internal/server/server.go: the table of routes that `New` registers.
use photo_server.Base.{Bool, true, false, List, [], ◌∷◌, ◌++◌, Text, bytes}

pub data Handler : Type 0 where
  health upload thumb session session_js index upload_page gallery_page : Handler
  app_css polaroid_js upload_js resize_js gallery_js viewer_js heart_js img font : Handler
  my_uploads photos photo_page photo_view original_download heart : Handler
  dashboard hide unhide delete shutdown print_page : Handler

-- A path, or one with a wildcard between its two parts that stands for a segment.
pub data Pattern : Type 0 where
  exact : Text → Pattern
  around : Text → Text → Pattern

pub record Route : Type 0 where
  pub is_post : Bool
  pub pattern : Pattern
  pub handler : Handler

abbrev get : Text → Handler → Route
get path h = record { is_post = false; pattern = exact path; handler = h }

abbrev post : Text → Handler → Route
post path h = record { is_post = true; pattern = exact path; handler = h }

abbrev get_value : Text → Handler → Route
get_value before h = record { is_post = false; pattern = around before []; handler = h }

abbrev post_value : Text → Text → Handler → Route
post_value before after h = record { is_post = true; pattern = around before after; handler = h }

unfoldable pub routes : List Route
routes =
    get (bytes "/healthz") health
    ∷ post (bytes "/upload") upload
    ∷ get_value (bytes "/thumb/") thumb
    ∷ get (bytes "/session") session
    ∷ post (bytes "/session") session
    ∷ get (bytes "/static/session.js") session_js
    ∷ get (bytes "/") index
    ∷ get (bytes "/upload") upload_page
    ∷ get (bytes "/gallery") gallery_page
    ∷ get (bytes "/static/app.css") app_css
    ∷ get (bytes "/static/polaroid.js") polaroid_js
    ∷ get (bytes "/static/upload.js") upload_js
    ∷ get (bytes "/static/resize.js") resize_js
    ∷ get (bytes "/static/gallery.js") gallery_js
    ∷ get (bytes "/static/viewer.js") viewer_js
    ∷ get (bytes "/static/heart.js") heart_js
    ∷ get_value (bytes "/static/img/") img
    ∷ get_value (bytes "/static/fonts/") font
    ∷ get (bytes "/api/uploads/mine") my_uploads
    ∷ get (bytes "/api/photos") photos
    ∷ get_value (bytes "/p/") photo_page
    ∷ get_value (bytes "/photo/") photo_view
    ∷ get_value (bytes "/original/") original_download
    ∷ post_value (bytes "/photo/") (bytes "/heart") heart
    ∷ get (bytes "/admin") dashboard
    ∷ post_value (bytes "/admin/photos/") (bytes "/hide") hide
    ∷ post_value (bytes "/admin/photos/") (bytes "/unhide") unhide
    ∷ post_value (bytes "/admin/photos/") (bytes "/delete") delete
    ∷ post (bytes "/admin/shutdown") shutdown
    ∷ get (bytes "/admin/print") print_page
    ∷ []

-- The path that a pattern stands for, with a value for its wildcard.
abbrev pub fill : Pattern → Text → Text
fill (exact path) value = path
fill (around before after) value = before ++ (value ++ after)
