-- ===== src/Lib.antt =====
-- photo-server: an appliance that collects the photos of an event's guests. Go, one process, SQLite
-- and a directory of files.
--
-- The program's parts, the files that model them, and the Go code:
-- Base: numbers, lists, texts (lists of bytes), `strconv.Atoi`, results with an error.
-- Config (internal/config): the loading of the configuration from the environment, which is a
--   parameter, as are the parsers of levels, durations and addresses.
-- Store (internal/store): the tables of the migrations as lists of rows in a record `Db`, the
--   newest photo first; every method of `Store` is a function of the database. A statement that
--   fails for a reason outside the program is a `Faults`, a function on the statements' names; a
--   transaction puts back what a failing body wrote. Store.Wf is the invariant of the tables,
--   Store.Wf.History the sequences of calls from the empty database and Store.Wf.Evolution the
--   databases that come of any. Store.Album is an abstract view: guests, photos and hearts by their
--   keys, with no ids and no order, and what each call is for. Store.Migrations is migrate.go.
-- Session (internal/session): tokens in base64url, and the manager that keeps a guest's token in a
--   cookie and in the table of sessions. The fresh token of a call is an argument. A cookie's value is
--   what `http.SetCookie` writes of it.
-- Blobs (internal/blobstore): files as a map from paths to contents, with a fault for each step of
--   the file system; temporary names are arguments.
-- Convert (internal/convert): renditions of originals, made by an external tool that is a parameter,
--   and the pool of workers as a step relation, where a call of `Enqueue` is two steps and a worker
--   returns once the context is cancelled.
-- Exif (internal/exif): the search for a date in the bytes of an image. An index out of range is the
--   value `panic`.
-- Server (internal/server): the handlers as functions of the request, of the database and of the
--   files. Gate is access.go; Guests is session.go and heart.go; Api is api.go with the cursor of
--   pages.go; Upload is upload.go; Serving is thumb.go and photoview.go; Admin is admin.go; Pages and
--   Static are pages.go; Print is printpage.go. Routes is the table of routes of server.go, Exchange
--   the server's settings with the requests and responses, and Serve a request's way through the gate
--   and the routes to its handler.
-- Program (cmd/photo-server/main.go): what the start makes of a configuration, and the backfill.
-- Tests: the theorems at concrete inputs.
--
-- A request goes through the gate to the route that fits it. The handlers call the store, the session
-- manager and the blob store, an upload also puts a job into the pool, and the pool's workers write
-- into the blob store. At the start the backfill fills the queue from the database and the blob store,
-- as they are before a worker has taken a job.
--
-- Fuel: the walk over a JPEG's segments has one round for each byte of the part that it may read, and
-- the search for a signature one for each byte of its window; a round moves on by a byte at least, so
-- they are enough (Exif.Extract.Total). The copying of an upload has one round for each byte and one
-- more, for the same reason (Server.Upload.Bounded). `scroll`, the client that follows the gallery's
-- cursors, takes a bound on its pages that is above the number of photos.
--
-- Numbers that the code keeps in machine integers (ids, counts, sizes, times in seconds) are natural
-- numbers; `strconv.Atoi` keeps its 64 bits, the EXIF reader its 16 and 32, and the upload's cap plus one
-- wraps around at 64.
--
-- Parameters, for code outside the repository: the digest, `strings.ToLower` and `TrimSpace`,
-- `http.DetectContentType`, `filepath.Ext` and `Base`, `time.ParseInLocation`, `vipsthumbnail`,
-- `http.ServeMux` (with the hypothesis that a route it chooses is one of the table that fits the
-- request), `html/template`, `net/url`, the QR encoder and the embedded files.
--
-- Not modelled: listening, draining and signals, logging, the text of the HTML pages and of the gate,
-- and the sizes and ages on the operator's page, which are I/O, text or floating point. Requests are
-- served and jobs are done one after the other, in any order; only the model of the pool interleaves
-- the halves of its calls.
pub mod Base
pub mod Config
pub mod Program
pub mod Store
pub mod Exif
pub mod Blobs
pub mod Convert
pub mod Session
pub mod Server
pub mod Tests
