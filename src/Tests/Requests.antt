-- ===== src/Tests/Requests.antt =====
-- A server and requests, for the examples.
use photo_server.Base.{
  ◌≡◌, ◌≢◌, refl, subst, Bool, true, false, not, ◌&&◌, Option, none, some, List, [], ◌∷◌, In, first,
  further, Text, bytes, text_eq, text_eq_iff, Bool-cases, inl, inr, arith, if◌then◌else◌,
}
use photo_server.Store.Photos.{PhotoMeta}
use photo_server.Server.Print.{Printing}
use photo_server.Server.Routes.{Pattern, exact, around, Route, fill}
use photo_server.Server.Exchange.{Host, Server, Request, Chance, IsMux, Event, arrives, works}
use photo_server.Blobs.{path, valid_hash}
use photo_server.Server.Upload.{World, ImageType, jpeg, png, heic, heif, ext_of}
use photo_server.Server.Upload.Filed.{IsFiling}
use photo_server.Server.Upload.Parts.{file}
use photo_server.Convert.Pool.{new_pool}
use photo_server.Tests.Data.{
  digest, part, access, converter, guest, hash_a, library, manager, same, tool, world,
}
use photo_server.Store.Schema as Schema
use photo_server.Blobs as Blobs

-- A table of routes without wildcards.
abbrev is_at : Pattern → Text → Bool
is_at (exact p) path = text_eq p path
is_at (around before after) path = false

abbrev same_bool : Bool → Bool → Bool
same_bool true b = b
same_bool false b = not b

abbrev fits : Route → Text → Text → Bool
fits route method path =
    same_bool route.is_post (text_eq method (bytes "POST")) && is_at route.pattern path

abbrev pub exact_mux : List Route → Text → Text → Option (Route × Text)
exact_mux [] method path = none
exact_mux (r ∷ rs) method path =
    if fits r method path then some (r, []) else exact_mux rs method path

same_bool_lem : (a b : Bool) → same_bool a b ≡ true → a ≡ b
same_bool_lem a b e = ground arith

is_at-fill : (p : Pattern) (path v : Text) → is_at p path ≡ true → fill p v ≡ path
is_at-fill (exact p) path v e = (text_eq_iff p path).0 e
is_at-fill (around before after) path v e = absurd (cc)

pub exact_mux-IsMux : IsMux exact_mux
exact_mux-IsMux [] method path route v e = absurd (cc)
exact_mux-IsMux (r ∷ rs) method path route v e = elim (Bool-cases (fits r method path)) [
  | inl y ↦
      let chosen : r ≡ route = cc (rw y at e) in
      subst
        (λ x.
          In x (r ∷ rs) × (x.is_post ≡ text_eq method (bytes "POST")) × (fill x.pattern v ≡ path))
        chosen
        (
          first,
          same_bool_lem r.is_post _ (ground arith),
          is_at-fill r.pattern path v (ground arith),
        )
  | inr n ↦ let (m, q, f) = exact_mux-IsMux rs method path route v (rw n at e) in (further m, q, f)
]

pub get_not_post : bytes "GET" ≢ bytes "POST"
unfolding text_eq
get_not_post e = absurd (cc ((text_eq_iff (bytes "GET") (bytes "POST")).1 e))

abbrev pub printing : Printing
printing = record {
  set_query = λ url k v. some url;
  host = λ url. some url;
  qr = λ t. some t;
  base64 = same;
}

abbrev pub host : Host
host = record {
  library = library;
  printing = printing;
  tool = tool;
  template = λ page d. some (bytes "<p>");
  assets = λ a. bytes "a";
  images = λ name. none;
  fonts = λ name. none;
  mux = exact_mux;
}

abbrev pub server : Server
server = record {
  version = bytes "1";
  sessions = some manager;
  convr = some converter;
  max_body = 100;
  admin_password = bytes "ring";
  base_url = [];
  access = access;
}

abbrev pub chance : Chance
chance = record {
  now = 20;
  fresh = guest;
  tmp_id = 7;
  db_faults = Schema.no_faults;
  name_faults = Schema.no_faults;
  blob_faults = Blobs.no_faults;
  remove_faults = λ k. Blobs.no_faults;
}

abbrev pub shutdown_request : Request
shutdown_request = record {
  method = bytes "POST";
  path = bytes "/admin/shutdown";
  query = [];
  access_cookie = none;
  session_cookie = none;
  form_password = [];
  auth = some [];
  accepts_json = false;
  referer = [];
  token = [];
  display_name = [];
  is_multipart = false;
  parts = [];
}

-- A guest who entered and opens the gallery.
abbrev pub gallery_request : Request
gallery_request = record shutdown_request {
  method = bytes "GET";
  path = bytes "/gallery";
  access_cookie = some hash_a;
  session_cookie = some guest;
  auth = none;
}

abbrev pub session_request : Request
session_request = record gallery_request {
  method = bytes "POST";
  path = bytes "/session";
  display_name = bytes "Bo";
}

abbrev pub upload_request : Request
upload_request = record session_request {
  path = bytes "/upload";
  is_multipart = true;
  parts = file part ∷ [];
}

abbrev pub uploads : List Event
uploads =
    arrives chance upload_request
    ∷ works Blobs.no_faults Blobs.no_faults 8 9
    ∷ arrives chance gallery_request
    ∷ []

-- The small world with the originals of its photos.
abbrev pub filed_world : World
filed_world = record world { files = λ p. some (bytes "photo"); conv = some (new_pool 1 4) }

digest-valid_hash : (t : Text) → valid_hash (digest t) ≡ true
unfolding valid_hash
digest-valid_hash [] = refl
digest-valid_hash (c ∷ t) = refl

lower_exts : (kind : ImageType) → library.to_lower (ext_of kind) ≡ ext_of kind
lower_exts jpeg = refl
lower_exts png = refl
lower_exts heic = refl
lower_exts heif = refl

pub library-IsFiling : IsFiling library
library-IsFiling = record { hex_digest = digest-valid_hash; lower_ext = lower_exts }

abbrev pub meta_a : PhotoMeta
meta_a = record {
  hash = hash_a;
  mime = bytes "image/heic";
  original_filename = bytes "a.heic";
  display_name = bytes "Ada";
}

abbrev pub visits : List Event
visits = arrives chance gallery_request ∷ []
