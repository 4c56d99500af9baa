-- ===== src/Store/Album/Refining.antt =====
-- The tables implement the album.
use photo_server.Base.{◌≡◌, refl, ap, ◌∙◌, inl, inr, List, [], ◌∷◌, map}
use photo_server.Store.Schema.{Db, Faults, no_faults}
use photo_server.Store.Wf.{Wf}
use photo_server.Store.Wf.History.{Operation, step, step-Wf, run}
use photo_server.Store.Album.{view, perform_all}
use photo_server.Store.Album.Faulty.{step-Performs}
use photo_server.Store.Album.Exact.{step_exact}

-- A list with some of its elements left out.
pub data Thinned {A : Type 0} : List A → List A → Type 0 where
  ended : Thinned [] []
  keeps : (a : A) {xs ys : List A} → Thinned xs ys → Thinned (a ∷ xs) (a ∷ ys)
  skips : (a : A) {xs ys : List A} → Thinned xs ys → Thinned xs (a ∷ ys)

-- With no failing statement, a run of calls on a well-formed database leaves, of guests, photos
-- and hearts by their keys, what the same calls make of an album one after the other.
pub view-run :
    (db : Db) (ops : List Operation)
    → Wf db
    → view (run db (map (λ op. (no_faults, op)) ops)) ≡ perform_all ops (view db)
unfolding run perform_all
view-run db [] w = refl
view-run db (op ∷ ops) w =
    view-run (step db (no_faults, op)) ops (step-Wf db (no_faults, op) w)
    ∙ ap (perform_all ops) (step_exact db op w)

-- Whichever statements fail, every call of a run on a well-formed database does all of its work on
-- the album or nothing: what is left is what some of the calls, in the same order, make of the album.
pub view-run_faulty :
    (db : Db) (cs : List (Faults × Operation))
    → Wf db
    → (done : List Operation) × Thinned done (map (λ c. c.1) cs)
      × (view (run db cs) ≡ perform_all done (view db))
unfolding run perform_all
view-run_faulty db [] w = ([], ended, refl)
view-run_faulty db ((faults, op) ∷ cs) w =
    let (done, thinned, e) =
      view-run_faulty (step db (faults, op)) cs (step-Wf db (faults, op) w) in
    elim (step-Performs db faults op w) [
      | inl idle ↦ (done, skips op thinned, e ∙ ap (λ d. perform_all done (view d)) idle)
      | inr worked ↦ (op ∷ done, keeps op thinned, e ∙ ap (perform_all done) worked)
    ]
