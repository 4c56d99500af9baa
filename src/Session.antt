-- ===== src/Session.antt =====
-- internal/session: tokens, the session cookie and the manager that binds one to the other.
pub mod Tokens
pub mod Cookies
pub mod Continuity
use photo_server.Base.{
  ℕ, Bool, true, not, ◌&&◌, ◌||◌, ◌==◌, leb, ltb, keep, any, ◌∷◌, ◌++◌, Option, none, some, [],
  Text, bytes, Result, ok, err, is_empty, if◌then◌else◌,
}
use photo_server.Store.Schema.{SessionRow, Db, Faults}
use photo_server.Store.Sessions.{upsert_session, get_session}
use Tokens.{valid_token}

-- A cookie as the response carries it; `SameSite` is Lax on every one.
pub record Cookie : Type 0 where
  pub name : Text
  pub value : Text
  pub path : Text
  pub max_age : ℕ
  pub http_only : Bool
  pub secure : Bool

-- `max_age` in seconds; the store is the database that the calls take.
pub record Manager : Type 0 where
  pub max_age : ℕ
  pub secure : Bool

abbrev pub cookie_name : Text
cookie_name = bytes "ps_session"

-- `http.SetCookie` drops the bytes that a cookie's value cannot carry, and quotes a value with a
-- space or a comma.
abbrev is_cookie_byte : ℕ → Bool
is_cookie_byte c = leb 32 c && ltb c 127 && not ((c == b'\"') || (c == b';') || (c == b'\\'))

unfoldable pub cookie_value : Text → Text
cookie_value value =
    let carried = keep is_cookie_byte value in
    if any (λ c. (c == b' ') || (c == b',')) carried then b'\"' ∷ carried ++ b'\"' ∷ [] else carried

abbrev pub set_cookie : Manager → Text → Cookie
set_cookie m token = record {
  name = cookie_name;
  value = cookie_value token;
  path = bytes "/";
  max_age = m.max_age;
  http_only = true;
  secure = m.secure;
}

-- What a call leaves in the response and returns.
pub record Bound : Type 0 where
  pub cookie : Option Cookie
  pub session : Result SessionRow

abbrev pub zero_session : SessionRow
zero_session = record { id = []; display_name = []; created_at = 0; last_seen_at = 0 }

abbrev pub row_or_zero : Option SessionRow → SessionRow
row_or_zero none = zero_session
row_or_zero (some s) = s

abbrev pub with_cookie : Cookie → Result (Option SessionRow) × Db → Bound × Db
with_cookie c (ok found, db) = (record { cookie = some c; session = ok (row_or_zero found) }, db)
with_cookie c (err, db) = (record { cookie = some c; session = err }, db)

abbrev pub after_upsert : Faults → Manager → Text → Result (Unit {0}) × Db → Bound × Db
after_upsert faults m token (ok _, db) =
    with_cookie (set_cookie m token) (get_session faults token db)
after_upsert faults m token (err, db) = (record { cookie = none; session = err }, db)

unfoldable pub bind : Faults → Manager → Text → ℕ → Db → Bound × Db
bind faults m token now db = after_upsert faults m token (upsert_session faults token [] now db)

-- The cookie's token, if it is well formed.
abbrev pub token_of : Option Text → Text
token_of none = []
token_of (some c) = if valid_token c then c else []

-- `fresh` is what `NewToken` returns.
unfoldable pub ensure : Faults → Manager → Option Text → Text → ℕ → Db → Bound × Db
ensure faults m cookie fresh now db =
    bind faults m (if is_empty (token_of cookie) then fresh else token_of cookie) now db

unfoldable pub adopt : Faults → Manager → Text → Text → ℕ → Db → Bound × Db
adopt faults m token fresh now db =
    bind faults m (if valid_token token then token else fresh) now db

unfoldable pub set_display_name : Faults → Text → Text → ℕ → Db → Result (Unit {0}) × Db
set_display_name faults token name now = upsert_session faults token name now
