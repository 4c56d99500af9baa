-- ===== src/Server/Guests/Hearting.antt =====
-- A heart over HTTP: any guest, known or not, can give one and take it back.
use photo_server.Base.{
  ℕ, suc, ◌-◌, ◌≡◌, refl, sym, ◌∙◌, ap, subst, true, not, Option, none, some, [], Text, text_eq,
  text_eq_refl, any, ◌==◌, ◌&&◌, if◌then◌else◌, arith, ok, err, Result,
}
use photo_server.Store.Schema.{PhotoRow, Db, no_faults}
use photo_server.Store.Sessions.{upsert_row, upsert_session}
use photo_server.Store.Photos.{find_visible}
use photo_server.Store.Hearts.{Toggled, heart_of, toggle_heart}
use photo_server.Store.Hearts.Toggling.{toggle_heart-Flips}
use photo_server.Store.Wf.{Wf, has_session}
use photo_server.Store.Wf.Steps.{upsert_session-Wf, has_session-upsert_row}
use photo_server.Store.Wf.Toggle.{toggle_heart-Wf}
use photo_server.Session.{Manager, Cookie, set_cookie}
use photo_server.Session.Continuity.{resolved, ensure_resolves, upserted-id}
use photo_server.Server.Http.{is_hex_sha256}
use photo_server.Server.Guests.{HeartRequest, heart_answer, toggled_reply, and_cookie, handle_heart}

-- The database when the toggle runs: the guest's session is there.
abbrev entered : Option Text → Text → ℕ → Db → Db
entered cookie fresh now db = record db {
  sessions = upsert_row (resolved cookie fresh) [] now db.sessions;
}

entered-Wf :
    (token : Text) (now : ℕ) (db : Db)
    → Wf db
    → Wf (record db { sessions = upsert_row token [] now db.sessions })
entered-Wf token now db w = unfold upsert_session in upsert_session-Wf no_faults token [] now db w

reply_of :
    (r : HeartRequest) (cookie : Option Cookie) (a : Result (Option Toggled) × Db) (t : Toggled)
    → a.0 ≡ ok (some t)
    → (and_cookie cookie (toggled_reply r a)).0 ≡ heart_answer r t
reply_of r cookie (ok (some u), db) t e = ground arith
reply_of r cookie (ok none, db) t e = absurd (ground arith)
reply_of r cookie (err, db) t e = absurd (ground arith)

end_of :
    (r : HeartRequest) (cookie : Option Cookie) (a : Result (Option Toggled) × Db)
    → (and_cookie cookie (toggled_reply r a)).2 ≡ a.1
end_of r cookie (ok (some u), db) = refl
end_of r cookie (ok none, db) = refl
end_of r cookie (err, db) = refl

-- In a well-formed database and with no failing statement, a request that hearts a visible photo
-- by a well-formed hash succeeds for every guest, also on the first contact: the answer has the
-- new count and state, or leads back to where the form was; the heart of the guest's session is
-- turned over and no other; and the database stays well-formed.
pub handle_heart_flips :
    (m : Manager) (fresh : Text) (now : ℕ) (r : HeartRequest) (db : Db) (p : PhotoRow)
    → Wf db
    → is_hex_sha256 r.hash ≡ true
    → find_visible r.hash db.photos ≡ some p
    → let session = resolved r.cookie fresh in
      let was = any (heart_of p.id session) db.hearts in
      let after = handle_heart no_faults (some m) fresh now r db in
      (after.0
        ≡ heart_answer r (record {
          count = if was then p.heart_count - 1 else suc p.heart_count;
          hearted = not was;
        }))
      × ((k : ℕ) (t : Text)
          → any (heart_of k t) after.2.hearts
            ≡ (if (k == p.id) && text_eq t session then not was else any (heart_of k t) db.hearts))
      × Wf after.2
unfolding handle_heart
handle_heart_flips m fresh now r db p w hex e =
    let session = resolved r.cookie fresh in
    let mid = entered r.cookie fresh now db in
    let mid_Wf = entered-Wf session now db w in
    let known : has_session mid.sessions session ≡ true =
      ground
        (arith, has_session-upsert_row session [] now db.sessions session, text_eq_refl session) in
    let (answer, hearts, _) = toggle_heart-Flips r.hash session now mid p mid_Wf e known in
    let end =
      end_of r (some (set_cookie m session)) (toggle_heart no_faults r.hash session now mid) in
    rw (hex, ensure_resolves m r.cookie fresh now db, upserted-id session [] now db.sessions)
      (
        reply_of r none _ _ answer,
        (λ k t. ap (λ (d : Db). any (heart_of k t) d.hearts) end ∙ hearts k t),
        subst Wf (sym end) (toggle_heart-Wf no_faults r.hash session now mid mid_Wf),
      )
