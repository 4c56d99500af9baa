-- ===== src/Session/Continuity.antt =====
-- The guest's identity across visits, with the cookie and without it.
use photo_server.Base.{
  ℕ, ◌≡◌, refl, true, false, List, [], ◌∷◌, Text, text_eq_refl, text_eq_iff, is_empty, Option, none,
  some, arith, if◌then◌else◌, ok,
}
use photo_server.Store.Schema.{SessionRow, Db, no_faults}
use photo_server.Store.Sessions.{upsert_row, upsert_session, find_session, get_session}
use photo_server.Store.Sessions.Names.{upserted, find_session-upsert_row}
use photo_server.Session.Tokens.{all_in_alphabet, valid_token}
use photo_server.Session.Cookies.{cookie_value_plain}
use photo_server.Session.{Manager, Cookie, Bound, set_cookie, bind, ensure, adopt, set_display_name}

-- With no failing statement a bound token is in the cookie and in the returned session, and the
-- session's name is the one stored before.
bind_lem :
    (m : Manager) (token : Text) (now : ℕ) (db : Db)
    → bind no_faults m token now db ≡ (
      record {
        cookie = some (set_cookie m token);
        session = ok (upserted token [] now (find_session token db.sessions));
      },
      record db { sessions = upsert_row token [] now db.sessions },
    )
unfolding bind upsert_session get_session
bind_lem m token now db =
    ground (arith, find_session-upsert_row token [] now db.sessions token, text_eq_refl token)

-- The token that a request ends up with.
abbrev pub resolved : Option Text → Text → Text
resolved none fresh = fresh
resolved (some c) fresh = if valid_token c then c else fresh

valid_token_empty : valid_token [] ≡ false
unfolding valid_token
valid_token_empty = refl

-- With no failing statement, `Ensure` keeps a well-formed cookie's token and else takes the fresh
-- one; the answer's cookie and session carry that token, and the session's name is the one stored
-- before, or empty for a token that was not known.
pub ensure_resolves :
    (m : Manager) (cookie : Option Text) (fresh : Text) (now : ℕ) (db : Db)
    → ensure no_faults m cookie fresh now db ≡ (
      record {
        cookie = some (set_cookie m (resolved cookie fresh));
        session = ok (
            upserted
              (resolved cookie fresh)
              []
              now
              (find_session (resolved cookie fresh) db.sessions));
      },
      record db { sessions = upsert_row (resolved cookie fresh) [] now db.sessions },
    )
unfolding ensure
ensure_resolves m none fresh now db = bind_lem m fresh now db
ensure_resolves m (some []) fresh now db = rw valid_token_empty (bind_lem m fresh now db)
ensure_resolves m (some (c ∷ cs)) fresh now db =
    elim (valid_token (c ∷ cs))
      as (λ b.
        bind no_faults m
          (if is_empty (if b then c ∷ cs else []) then fresh else if b then c ∷ cs else []) now db
        ≡ (
          record {
            cookie = some (set_cookie m (if b then c ∷ cs else fresh));
            session = ok (
                upserted (if b then c ∷ cs else fresh) [] now
                  (find_session (if b then c ∷ cs else fresh) db.sessions));
          },
          record db { sessions = upsert_row (if b then c ∷ cs else fresh) [] now db.sessions },
        )) [ true ↦ bind_lem m (c ∷ cs) now db | false ↦ bind_lem m fresh now db ]

pub upserted-id :
    (id name : Text) (now : ℕ) (rows : List SessionRow)
    → (upserted id name now (find_session id rows)).id ≡ id
unfolding find_session
upserted-id id name now [] = refl
upserted-id id name now (s ∷ rows) =
    ground (arith, text_eq_iff s.id id, upserted-id id name now rows)

-- The session of a token is stored, under a name.
abbrev Named : Text → Text → List SessionRow → Type 0
Named token name rows =
    (r : SessionRow) × (find_session token rows ≡ some r) × (r.id ≡ token) × (r.display_name ≡ name)

upserted-Named :
    (token name : Text) (now : ℕ) (rows : List SessionRow)
    → is_empty name ≡ false
    → Named token name (upsert_row token name now rows)
upserted-Named token name now rows n = (
  upserted token name now (find_session token rows),
  ground (arith, find_session-upsert_row token name now rows token, text_eq_refl token),
  upserted-id token name now rows,
  ground arith,
)

touched-Named :
    (token name : Text) (now : ℕ) (rows : List SessionRow)
    → Named token name rows
    → Named token name (upsert_row token [] now rows)
touched-Named token name now rows (r, found, id, named) = (
  upserted token [] now (find_session token rows),
  ground (arith, find_session-upsert_row token [] now rows token, text_eq_refl token),
  upserted-id token [] now rows,
  rw found named,
)

-- What a call answers for a stored session.
abbrev Answers : Text → Text → Bound → Type 0
Answers token name b =
    (s : SessionRow) × (b.session ≡ ok s) × (s.id ≡ token) × (s.display_name ≡ name)

bind-Answers :
    (m : Manager) (token name : Text) (now : ℕ) (db : Db)
    → Named token name db.sessions
    → Answers token name (bind no_faults m token now db).0
bind-Answers m token name now db (r, found, id, named) = rw (bind_lem m token now db) (
  upserted token [] now (find_session token db.sessions),
  refl,
  upserted-id token [] now db.sessions,
  rw found named,
)

ensure-Answers :
    (m : Manager) (token name other : Text) (now : ℕ) (db : Db)
    → valid_token token ≡ true
    → Named token name db.sessions
    → Answers token name (ensure no_faults m (some token) other now db).0
ensure-Answers m token name other now db v (r, found, id, named) =
    rw (ensure_resolves m (some token) other now db, v)
      (
        upserted token [] now (find_session token db.sessions),
        refl,
        upserted-id token [] now db.sessions,
        rw found named,
      )

-- With no failing statement, a guest with a well-formed token of the alphabet, so with no line break
-- in it, who chose a name that is not empty and lost the cookie gets both back: adopting the token that
-- the page kept answers with the same token and the chosen name and sets a cookie, and a later visit
-- with that cookie alone is answered with the token and the name again.
pub adopt_recovers :
    (m : Manager) (token name fresh other : Text) (now later next : ℕ) (db : Db)
    → valid_token token ≡ true
    → all_in_alphabet token ≡ true
    → is_empty name ≡ false
    → let adopted =
        adopt no_faults m token fresh later (set_display_name no_faults token name now db).1 in
      (c : Cookie) × (s t : SessionRow) × (adopted.0.cookie ≡ some c)
      × (c.value ≡ token)
      × (adopted.0.session ≡ ok s)
      × (s.id ≡ token)
      × (s.display_name ≡ name)
      × ((ensure no_faults m (some c.value) other next adopted.1).0.session ≡ ok t)
      × (t.id ≡ token)
      × (t.display_name ≡ name)
unfolding adopt set_display_name upsert_session
adopt_recovers m token name fresh other now later next db v plain n =
    let rows = upsert_row token name now db.sessions in
    let known = upserted-Named token name now db.sessions n in
    let (s, answer, id, named) =
      bind-Answers m token name later (record db { sessions = rows }) known in
    let (t, answer', id', named') =
      ensure-Answers m token name other next
        (record db { sessions = upsert_row token [] later rows }) v
        (touched-Named token name later rows known) in
    (
      set_cookie m token,
      s,
      t,
      rw (v, bind_lem m token later (record db { sessions = rows })) refl,
      cookie_value_plain token plain,
      rw v answer,
      id,
      named,
      rw (v, bind_lem m token later (record db { sessions = rows }), cookie_value_plain token plain)
          answer',
      id',
      named',
    )
