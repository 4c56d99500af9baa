-- ===== src/Server/Serve/Looking.antt =====
-- What the requests that only look leave as it was.
use photo_server.Base.{
  ℕ, ◌≡◌, ◌≢◌, refl, ◌∙◌, inl, inr, true, not, ◌||◌, Bool-cases, all, all-In, Text, bytes,
  text_eq_iff, arith,
}
use photo_server.Store.Schema.{Db, Faults, session_upsert}
use photo_server.Store.Sessions.{upsert_session}
use photo_server.Store.Wf.History.{Operation, upserts, inserts, hides, deletes, toggles, step}
use photo_server.Store.Wf.Evolution.{Evolves, same, writes}
use photo_server.Server.Upload.{World}
use photo_server.Server.Routes.{routes}
use photo_server.Server.Exchange.{Host, Server, Request, Chance, IsMux}
use photo_server.Server.Serve.{serve}
use photo_server.Server.Serve.Keeping.{is_upsert, allowed, serve-Evolves}

-- No route of GET has a handler that writes anything but a session.
getters :
    (op : Operation)
    → all (λ route. not (allowed route.handler op) || (route.is_post || is_upsert op)) routes ≡ true
unfolding routes
getters (upserts id name now) = refl
getters (inserts p) = refl
getters (hides hash hidden now) = refl
getters (deletes hash) = refl
getters (toggles hash id now) = refl

abbrev pub KeepsAlbum : Db → Db → Type 0
KeepsAlbum a b = (b.photos ≡ a.photos) × (b.hearts ≡ a.hearts) × (b.last_id ≡ a.last_id)

upsert_session-KeepsAlbum :
    (faults : Faults) (id name : Text) (now : ℕ) (db : Db)
    → KeepsAlbum db (upsert_session faults id name now db).1
unfolding upsert_session
upsert_session-KeepsAlbum faults id name now db = elim (Bool-cases (faults session_upsert)) [
  | inl e ↦ rw e (refl, refl, refl)
  | inr e ↦ rw e (refl, refl, refl)
]

step-KeepsAlbum :
    (faults : Faults) (op : Operation) (db : Db)
    → is_upsert op ≡ true
    → KeepsAlbum db (step db (faults, op))
unfolding step
step-KeepsAlbum faults (upserts id name now) db may =
    upsert_session-KeepsAlbum faults id name now db
step-KeepsAlbum faults (inserts p) db may = absurd (cc)
step-KeepsAlbum faults (hides hash hidden now) db may = absurd (cc)
step-KeepsAlbum faults (deletes hash) db may = absurd (cc)
step-KeepsAlbum faults (toggles hash id now) db may = absurd (cc)

Evolves-KeepsAlbum : {a b : Db} → Evolves is_upsert a b → KeepsAlbum a b
Evolves-KeepsAlbum same = (refl, refl, refl)
Evolves-KeepsAlbum (writes {later} e faults op may) =
    let (p, h, n) = Evolves-KeepsAlbum e in
    let (p', h', n') = step-KeepsAlbum faults op later may in (p' ∙ p, h' ∙ h, n' ∙ n)

-- Where the router chooses a route of the table that fits the request: a request of another method
-- than POST, with whatever path and cookies, leaves all photos and hearts as they were, the hidden
-- photos hidden and the others shown.
pub serve-KeepsAlbum :
    (host : Host) (srv : Server) (chance : Chance) (r : Request) (w : World)
    → IsMux host.mux
    → r.method ≢ bytes "POST"
    → KeepsAlbum w.db (serve host srv chance r w).1.db
serve-KeepsAlbum host srv chance r w mux get = Evolves-KeepsAlbum (
    serve-Evolves host srv chance r is_upsert
      (λ route v e op may.
        let (chosen, method, at_path) = mux routes r.method r.path route v e in
        let checked =
          all-In (λ s. not (allowed s.handler op) || (s.is_post || is_upsert op)) (getters op)
            chosen in
        ground (arith, text_eq_iff r.method (bytes "POST")))
      w)
