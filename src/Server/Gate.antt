-- ===== src/Server/Gate.antt =====
-- internal/server/access.go: the gate before the guest pages.
-- `digest` is the hex SHA-256 of a text.
pub mod Entry
use photo_server.Base.{
  ℕ, ◌*◌, Bool, true, false, not, ◌&&◌, ◌||◌, Option, none, some, List, [], ◌∷◌, Text, bytes,
  text_eq, has_prefix, is_empty, keep, if◌then◌else◌,
}
use photo_server.Session.{Cookie}

-- `access_password` and `secure` of the server.
pub record Access : Type 0 where
  pub password : Text
  pub secure : Bool

pub record Request : Type 0 where
  pub path : Text
  pub is_post : Bool
  -- The value of the access cookie, if one came along.
  pub cookie : Option Text
  pub query : List (Text × Text)
  -- The form's `password`, empty if there is none.
  pub form_password : Text

-- What the gate does: hand the request on, set the cookie and send the guest to an address with a
-- query, or show its page with a status and perhaps the note of a wrong password.
pub data Passage : Type 0 where
  through : Passage
  entered : Cookie → Text → List (Text × Text) → Passage
  gate : ℕ → Bool → Passage

-- `url.Values.Get`.
abbrev pub get : Text → List (Text × Text) → Text
get k [] = []
get k ((j, v) ∷ q) = if text_eq j k then v else get k q

-- `url.Values.Del`.
abbrev pub del : Text → List (Text × Text) → List (Text × Text)
del k = keep λ e. not (text_eq e.0 k)

abbrev pub key_name : Text
key_name = bytes "k"

unfoldable pub is_exempt : Text → Bool
is_exempt path =
    text_eq path (bytes "/healthz")
    || text_eq path (bytes "/admin")
    || has_prefix path (bytes "/admin/")
    || has_prefix path (bytes "/static/fonts/")

-- No cookie is no match.
abbrev pub matches : Option Text → Text → Bool
matches none t = false
matches (some c) t = text_eq c t

module _ (digest : Text → Text) where
  -- Its value is in hex, which `http.SetCookie` leaves as it is.
  abbrev pub access_cookie : Access → Cookie
  access_cookie a = record {
    name = bytes "ps_access";
    value = digest a.password;
    path = bytes "/";
    max_age = 30 * 24 * 3600;
    http_only = true;
    secure = a.secure;
  }

  unfoldable pub require_access : Access → Request → Passage
  require_access a r =
      if is_empty a.password
      then through
      else if is_exempt r.path
      then through
      else if matches r.cookie (digest a.password)
      then through
      else if not (is_empty (get key_name r.query)) && text_eq (get key_name r.query) a.password
      then entered (access_cookie a) r.path (del key_name r.query)
      else if r.is_post && text_eq r.path (bytes "/access")
      then (if text_eq r.form_password a.password
          then entered (access_cookie a) (bytes "/") []
          else gate 401 true)
      else gate 200 false
