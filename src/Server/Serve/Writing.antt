-- ===== src/Server/Serve/Writing.antt =====
-- What the handlers write to the database: calls of the store, one after the other.
use photo_server.Base.{
  ℕ, ◌≡◌, refl, ◌∙◌, Bool, true, Option, none, some, [], Text, Result, ok, err, inl, inr,
  Bool-cases, is_empty, if◌then◌else◌,
}
use photo_server.Store.Schema.{SessionRow, Db, Faults, session_select}
use photo_server.Store.Sessions.{find_session, get_session}
use photo_server.Store.Hearts.{Toggled}
use photo_server.Store.Wf.History.{Operation, upserts, toggles, step}
use photo_server.Store.Wf.Evolution.{
  Evolves, same, Evolves-trans, Evolves-call, Evolves-to, query-keeps,
}
use photo_server.Session.{
  Manager, Cookie, with_cookie, set_cookie, after_upsert, bind, ensure, adopt, set_display_name,
  token_of,
}
use photo_server.Session.Tokens.{valid_token}
use photo_server.Server.Http.{is_hex_sha256}
use photo_server.Server.Guests.{
  SessionRequest, named, with_name, session_reply, resolve_session, handle_session, HeartRequest,
  toggled_reply, heart_reply, handle_heart,
}

with_cookie-keeps :
    (c : Cookie) (found : Result (Option SessionRow) × Db) → (with_cookie c found).1 ≡ found.1
with_cookie-keeps c (ok s, db) = refl
with_cookie-keeps c (err, db) = refl

after_upsert-keeps :
    (faults : Faults) (m : Manager) (token : Text) (done : Result (Unit {0}) × Db)
    → (after_upsert faults m token done).1 ≡ done.1
unfolding get_session
after_upsert-keeps faults m token (err, db) = refl
after_upsert-keeps faults m token (ok u, db) =
    with_cookie-keeps (set_cookie m token) (get_session faults token db)
    ∙ query-keeps (faults session_select) (λ d. find_session token d.sessions) db

named-keeps :
    (s : SessionRow) (name : Text) (done : Result (Unit {0}) × Db) → (named s name done).1 ≡ done.1
named-keeps s name (ok u, db) = refl
named-keeps s name (err, db) = refl

toggled_reply-keeps :
    (r : HeartRequest) (done : Result (Option Toggled) × Db) → (toggled_reply r done).1 ≡ done.1
toggled_reply-keeps r (ok (some t), db) = refl
toggled_reply-keeps r (ok none, db) = refl
toggled_reply-keeps r (err, db) = refl

module _ {allows : Operation → Bool}
    (may : (id name : Text) (now : ℕ) → allows (upserts id name now) ≡ true) where
  pub set_display_name-Evolves :
      (faults : Faults) (token name : Text) (now : ℕ) (db : Db)
      → Evolves allows db (set_display_name faults token name now db).1
  unfolding set_display_name step
  set_display_name-Evolves faults token name now db =
      Evolves-call faults (upserts token name now) (may token name now)

  bind-Evolves :
      (faults : Faults) (m : Manager) (token : Text) (now : ℕ) (db : Db)
      → Evolves allows db (bind faults m token now db).1
  unfolding bind step
  bind-Evolves faults m token now db =
      Evolves-to (Evolves-call faults (upserts token [] now) (may token [] now))
        (after_upsert-keeps faults m token _)

  pub ensure-Evolves :
      (faults : Faults) (m : Manager) (cookie : Option Text) (fresh : Text) (now : ℕ) (db : Db)
      → Evolves allows db (ensure faults m cookie fresh now db).1
  unfolding ensure
  ensure-Evolves faults m cookie fresh now db =
      bind-Evolves faults m (if is_empty (token_of cookie) then fresh else token_of cookie) now db

  resolve_session-Evolves :
      (faults : Faults) (m : Manager) (cookie : Option Text) (token fresh : Text) (now : ℕ)
      (db : Db)
      → Evolves allows db (resolve_session faults m cookie token fresh now db).1
  unfolding resolve_session adopt
  resolve_session-Evolves faults m cookie token fresh now db = elim (Bool-cases (is_empty token)) [
    | inl e ↦ rw e (ensure-Evolves faults m cookie fresh now db)
    | inr e ↦ rw e (bind-Evolves faults m (if valid_token token then token else fresh) now db)
  ]

  with_name-Evolves :
      (faults : Faults) (s : SessionRow) (name : Text) (now : ℕ) (db : Db)
      → Evolves allows db (with_name faults s name now db).1
  with_name-Evolves faults s name now db = elim (Bool-cases (is_empty name)) [
    | inl e ↦ rw e same
    | inr e ↦
        rw e (Evolves-to (set_display_name-Evolves faults s.id name now db) (named-keeps s name _))
  ]

  session_reply-Evolves :
      (faults : Faults) (name : Text) (now : ℕ) (cookie : Option Cookie) (s : Result SessionRow)
      (db : Db)
      → Evolves allows db (session_reply faults name now cookie s db).2
  session_reply-Evolves faults name now cookie (ok s) db = with_name-Evolves faults s name now db
  session_reply-Evolves faults name now cookie err db = same

  pub handle_session-Evolves :
      (trim : Text → Text) (faults name_faults : Faults) (sessions : Option Manager) (fresh : Text)
      (now : ℕ) (r : SessionRequest) (db : Db)
      → Evolves allows db (handle_session trim faults name_faults sessions fresh now r db).2
  unfolding handle_session
  handle_session-Evolves trim faults name_faults none fresh now r db = same
  handle_session-Evolves trim faults name_faults (some m) fresh now r db =
      let token : Text = if r.is_post then r.token else [] in
      let b = resolve_session faults m r.cookie token fresh now db in
      Evolves-trans (resolve_session-Evolves faults m r.cookie token fresh now db) (
        session_reply-Evolves name_faults (trim (if r.is_post then r.display_name else [])) now
          b.0.cookie b.0.session b.1)

  module _ (may_toggle : (hash id : Text) (now : ℕ) → allows (toggles hash id now) ≡ true) where
    heart_reply-Evolves :
        (faults : Faults) (now : ℕ) (r : HeartRequest) (cookie : Option Cookie)
        (s : Result SessionRow) (db : Db)
        → Evolves allows db (heart_reply faults now r cookie s db).2
    unfolding step
    heart_reply-Evolves faults now r cookie (ok s) db =
        Evolves-to (Evolves-call faults (toggles r.hash s.id now) (may_toggle r.hash s.id now))
          (toggled_reply-keeps r _)
    heart_reply-Evolves faults now r cookie err db = same

    pub handle_heart-Evolves :
        (faults : Faults) (sessions : Option Manager) (fresh : Text) (now : ℕ) (r : HeartRequest)
        (db : Db)
        → Evolves allows db (handle_heart faults sessions fresh now r db).2
    unfolding handle_heart
    handle_heart-Evolves faults none fresh now r db = same
    handle_heart-Evolves faults (some m) fresh now r db = elim (Bool-cases (is_hex_sha256 r.hash)) [
      | inl e ↦ rw e (
          let b = ensure faults m r.cookie fresh now db in
          Evolves-trans (ensure-Evolves faults m r.cookie fresh now db)
            (heart_reply-Evolves faults now r b.0.cookie b.0.session b.1))
      | inr e ↦ rw e same
    ]
