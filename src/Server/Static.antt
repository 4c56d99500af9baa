-- ===== src/Server/Static.antt =====
-- internal/server: the files that are built into the program, and the health check.
use photo_server.Base.{
  Bool, ◌||◌, Option, none, some, ◌++◌, Text, bytes, any, is_empty, ◌==◌, if◌then◌else◌,
}
use photo_server.Server.Http.{Reply, failed, answered}

pub data Asset : Type 0 where
  app_css polaroid_js upload_js gallery_js viewer_js heart_js resize_js session_js : Asset

pub record StaticFile : Type 0 where
  pub content : Text
  pub content_type : Text
  pub cache_control : Text

abbrev pub type_of : Asset → Text
type_of app_css = bytes "text/css; charset=utf-8"
type_of _ = bytes "application/javascript; charset=utf-8"

-- `files` are the embedded bytes.
unfoldable pub handle_asset : (Asset → Text) → Asset → StaticFile
handle_asset files a = record {
  content = files a;
  content_type = type_of a;
  cache_control = bytes "no-cache";
}

abbrev immutable : Text
immutable = bytes "public, max-age=31536000, immutable"

abbrev pub has_separator : Text → Bool
has_separator = any λ c. (c == b'/') || (c == 92)

abbrev found : Text → Option Text → Reply StaticFile
found content_type none = failed 404
found content_type (some b) =
    answered (record { content = b; content_type = content_type; cache_control = immutable })

-- `read` is `ReadFile` of the embedded directory.
unfoldable pub handle_img : (Text → Option Text) → Text → Reply StaticFile
handle_img read name =
    if is_empty name || has_separator name
    then failed 404
    else found (bytes "image/jpeg") (read (bytes "assets/img/" ++ name))

unfoldable pub handle_font : (Text → Option Text) → Text → Reply StaticFile
handle_font read name =
    if is_empty name || has_separator name
    then failed 404
    else found (bytes "font/woff2") (read (bytes "assets/fonts/" ++ name))

pub record Health : Type 0 where
  pub status : Text
  pub version : Text

unfoldable pub handle_health : Text → Reply Health
handle_health version = answered (record { status = bytes "ok"; version = version })
