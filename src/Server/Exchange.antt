-- ===== src/Server/Exchange.antt =====
-- internal/server/server.go: the server's settings, and what comes in and goes out.
use photo_server.Base.{ℕ, ◌≡◌, In, Bool, Option, some, List, Text, bytes, text_eq}
use photo_server.Blobs.{Kind}
use photo_server.Convert.{Tool, Converter}
use photo_server.Session.{Manager, Cookie}
use photo_server.Server.Http.{Reply}
use photo_server.Server.Gate.{Access, Passage}
use photo_server.Server.Guests.{SessionResponse}
use photo_server.Store.Hearts.{Toggled}
use photo_server.Server.Api.{PhotoTile, Feed}
use photo_server.Server.Upload.{Library}
use photo_server.Server.Upload.Parts.{Part, UploadResponse}
use photo_server.Server.Serving.{Served}
use photo_server.Server.Admin.{Dashboard}
use photo_server.Server.Pages.{Page, PageData}
use photo_server.Server.Static.{Asset, StaticFile, Health}
use photo_server.Server.Print.{Printing, PrintPage}
use photo_server.Server.Routes.{Route, fill}
use photo_server.Store.Schema as Schema
use photo_server.Blobs as Blobs

-- What the handlers take from Go's library, from the tool and from the files built in; `mux` is
-- `http.ServeMux` with a table of routes: the one that is chosen for a method and a path, and the
-- wildcard's value. It is `none` where `ServeMux` answers itself.
pub record Host : Type 0 where
  pub library : Library
  pub printing : Printing
  pub tool : Tool
  pub template : Page → PageData → Option Text
  pub assets : Asset → Text
  pub images : Text → Option Text
  pub fonts : Text → Option Text
  pub mux : List Route → Text → Text → Option (Route × Text)

-- What `http.ServeMux` promises: it chooses one of the routes, and one whose method and pattern fit
-- the request; a route of GET is there for HEAD too.
abbrev pub IsMux : (List Route → Text → Text → Option (Route × Text)) → Type 0
IsMux mux =
    (rs : List Route) (method path : Text) (route : Route) (v : Text)
    → mux rs method path ≡ some (route, v)
    → In route rs × (route.is_post ≡ text_eq method (bytes "POST")) × (fill route.pattern v ≡ path)

-- `Server`, less its logger; `convr` is `none` where the tool is missing.
pub record Server : Type 0 where
  pub version : Text
  pub sessions : Option Manager
  pub convr : Option Converter
  pub max_body : ℕ
  pub admin_password : Text
  pub base_url : Text
  pub access : Access

-- The parts of a request that some handler reads.
pub record Request : Type 0 where
  pub method : Text
  pub path : Text
  pub query : List (Text × Text)
  pub access_cookie : Option Text
  pub session_cookie : Option Text
  pub form_password : Text
  -- The password of HTTP Basic.
  pub auth : Option Text
  pub accepts_json : Bool
  pub referer : Text
  -- The body: JSON of `/session`, or the parts of an upload.
  pub token : Text
  pub display_name : Text
  pub is_multipart : Bool
  pub parts : List Part

-- What happens besides: the time, a fresh token and a fresh temporary name, and what fails.
pub record Chance : Type 0 where
  pub now : ℕ
  pub fresh : Text
  pub tmp_id : ℕ
  pub db_faults : Schema.Faults
  pub name_faults : Schema.Faults
  pub blob_faults : Blobs.Faults
  pub remove_faults : Kind → Blobs.Faults

pub data Response : Type 0 where
  gated : Passage → Response
  unrouted : Response
  healthy : Reply Health → Response
  stored : Reply UploadResponse → Option Cookie → Response
  bound : Reply SessionResponse → Option Cookie → Response
  page : Reply Text → Option Cookie → Response
  asset : StaticFile → Response
  built_in : Reply StaticFile → Response
  uploads : Reply (List PhotoTile) → Option Cookie → Response
  feed : Reply Feed → Option Cookie → Response
  photo : Reply Served → Response
  toggled : Reply Toggled → Option Cookie → Response
  listed : Reply Dashboard → Option Cookie → Response
  moderated : Reply (Unit {0}) → Option Cookie → Response
  -- With whether the signal is sent.
  stopping : Reply (Unit {0}) × Bool → Option Cookie → Response
  printed : Reply PrintPage → Option Cookie → Response

-- What can happen: a request arrives, or a worker does the job at the front of the queue; with what
-- fails meanwhile and the temporary names of the job's two renditions.
pub data Event : Type 0 where
  arrives : Chance → Request → Event
  works : Blobs.Faults → Blobs.Faults → ℕ → ℕ → Event
