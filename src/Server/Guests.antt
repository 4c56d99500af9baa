-- ===== src/Server/Guests.antt =====
-- internal/server/session.go and heart.go: a guest's session and hearts.
pub mod Hearting
use photo_server.Base.{
  ℕ, Bool, not, Option, none, some, [], ◌++◌, Text, bytes, Result, ok, err, is_empty, if◌then◌else◌,
}
use photo_server.Store.Schema.{SessionRow, Db, Faults}
use photo_server.Store.Hearts.{Toggled, toggle_heart}
use photo_server.Session.{Manager, Cookie, Bound, ensure, adopt, set_display_name}
use photo_server.Server.Http.{Reply, failed, answered, redirected, is_hex_sha256}

pub record SessionResponse : Type 0 where
  pub token : Text
  pub display_name : Text

-- The request: its method, the decoded body (empty fields where it does not decode), the cookie.
pub record SessionRequest : Type 0 where
  pub is_post : Bool
  pub token : Text
  pub display_name : Text
  pub cookie : Option Text

-- A write of the name that fails is logged, and the old name is answered.
abbrev pub named : SessionRow → Text → Result (Unit {0}) × Db → Reply SessionResponse × Db
named s name (ok _, db) = (answered (record { token = s.id; display_name = name }), db)
named s name (err, db) = (answered (record { token = s.id; display_name = s.display_name }), db)

abbrev pub with_name : Faults → SessionRow → Text → ℕ → Db → Reply SessionResponse × Db
with_name faults s name now db =
    if is_empty name
    then (answered (record { token = s.id; display_name = s.display_name }), db)
    else named s name (set_display_name faults s.id name now db)

abbrev pub and_cookie : {A : Type 0} → Option Cookie → Reply A × Db → Reply A × Option Cookie × Db
and_cookie cookie (reply, db) = (reply, cookie, db)

abbrev pub session_reply :
    Faults
    → Text
    → ℕ
    → Option Cookie
    → Result SessionRow
    → Db
    → Reply SessionResponse × Option Cookie × Db
session_reply faults name now cookie (ok s) db = and_cookie cookie (with_name faults s name now db)
session_reply faults name now cookie err db = (failed 500, cookie, db)

abbrev pub session_for : Faults → Text → ℕ → Bound × Db → Reply SessionResponse × Option Cookie × Db
session_for faults name now (b, db) = session_reply faults name now b.cookie b.session db

-- A token in the body is adopted; else the cookie decides.
unfoldable pub resolve_session : Faults → Manager → Option Text → Text → Text → ℕ → Db → Bound × Db
resolve_session faults m cookie token fresh now db =
    if not (is_empty token)
    then adopt faults m token fresh now db
    else ensure faults m cookie fresh now db

abbrev if_post : SessionRequest → Text → Text
if_post r t = if r.is_post then t else []

-- `trim` is `strings.TrimSpace`; the second faults are those of the statement that sets the name.
unfoldable pub handle_session :
    (Text → Text)
    → Faults
    → Faults
    → Option Manager
    → Text
    → ℕ
    → SessionRequest
    → Db
    → Reply SessionResponse × Option Cookie × Db
unfolding resolve_session
handle_session trim faults name_faults none fresh now r db = (failed 503, none, db)
handle_session trim faults name_faults (some m) fresh now r db =
    session_for name_faults (trim (if_post r r.display_name)) now
      (resolve_session faults m r.cookie (if_post r r.token) fresh now db)

pub record HeartRequest : Type 0 where
  pub hash : Text
  pub cookie : Option Text
  pub accepts_json : Bool
  pub referer : Text

abbrev pub heart_answer : HeartRequest → Toggled → Reply Toggled
heart_answer r t =
    if r.accepts_json
    then answered t
    else redirected (if is_empty r.referer then bytes "/p/" ++ r.hash else r.referer)

abbrev pub toggled_reply : HeartRequest → Result (Option Toggled) × Db → Reply Toggled × Db
toggled_reply r (ok (some t), db) = (heart_answer r t, db)
toggled_reply r (ok none, db) = (failed 404, db)
toggled_reply r (err, db) = (failed 500, db)

abbrev pub heart_reply :
    Faults
    → ℕ
    → HeartRequest
    → Option Cookie
    → Result SessionRow
    → Db
    → Reply Toggled × Option Cookie × Db
heart_reply faults now r cookie (ok s) db =
    and_cookie cookie (toggled_reply r (toggle_heart faults r.hash s.id now db))
heart_reply faults now r cookie err db = (failed 500, cookie, db)

abbrev pub heart_for : Faults → ℕ → HeartRequest → Bound × Db → Reply Toggled × Option Cookie × Db
heart_for faults now r (b, db) = heart_reply faults now r b.cookie b.session db

unfoldable pub handle_heart :
    Faults → Option Manager → Text → ℕ → HeartRequest → Db → Reply Toggled × Option Cookie × Db
handle_heart faults none fresh now r db =
    (failed (if is_hex_sha256 r.hash then 503 else 400), none, db)
handle_heart faults (some m) fresh now r db =
    if is_hex_sha256 r.hash
    then heart_for faults now r (ensure faults m r.cookie fresh now db)
    else (failed 400, none, db)
