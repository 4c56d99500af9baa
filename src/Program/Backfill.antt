-- ===== src/Program/Backfill.antt =====
-- A restart makes the renditions that are missing.
use mathlib.Core.List.{append-nil, append_assoc}
use photo_server.Base.{
  ℕ, suc, ◌+◌, ◌<◌, ◌≤◌, ◌≡◌, refl, ap, sym, ◌∙◌, inl, inr, true, false, List, [], ◌∷◌, ◌++◌, map,
  keep, any, All, Text, text_eq, text_eq_iff, length, length-append, lt→ltb, arith, if◌then◌else◌,
  Bool-cases,
}
use photo_server.Store.Schema.{PhotoRow, Db}
use photo_server.Store.Schema as Schema
use photo_server.Store.Photos.{PhotoRef, all_photos, has_hash}
use photo_server.Store.Wf.{Wf, UniqueHashes}
use photo_server.Blobs.{Files}
use photo_server.Convert.Pool.{Job, Pool, new_pool, is_in, enqueue}
use photo_server.Program.{needs_job, job_of, backfill, backfill_renditions}

abbrev pub ref_of : PhotoRow → PhotoRef
ref_of r = record { hash = r.content_hash; mime = r.mime }

abbrev Fresh : List Text → PhotoRef → Type 0
Fresh hs r = is_in r.hash hs ≡ false

-- No two references of one hash.
abbrev Distinct : List PhotoRef → Type 0
Distinct [] = Unit {0}
Distinct (r ∷ refs) = (any (λ x. text_eq x.hash r.hash) refs ≡ false) × Distinct refs

Fresh-cons :
    (h : Text) (hs : List Text) (refs : List PhotoRef)
    → any (λ x. text_eq x.hash h) refs ≡ false
    → All (Fresh hs) refs
    → All (Fresh (h ∷ hs)) refs
Fresh-cons h hs [] d f = tt
Fresh-cons h hs (r ∷ refs) d f =
    ground (arith, text_eq_iff h r.hash, text_eq_iff r.hash h, Fresh-cons h hs refs)

enqueue_room :
    (p : Pool) (j : Job)
    → p.stopped ≡ false
    → is_in j.hash p.in_flight ≡ false
    → length p.jobs < p.depth
    → enqueue p j ≡ record p { jobs = p.jobs ++ j ∷ []; in_flight = j.hash ∷ p.in_flight }
unfolding enqueue
enqueue_room p j s f h = rw (s, f, lt→ltb _ _ h) refl

backfill-none :
    (to_lower : Text → Text) (fs : Files) (r : PhotoRef) (refs : List PhotoRef) (p : Pool)
    → needs_job to_lower fs r ≡ false
    → backfill to_lower fs (r ∷ refs) p ≡ backfill to_lower fs refs p
unfolding backfill
backfill-none to_lower fs r refs p e =
    ap (λ b. backfill to_lower fs refs (if b then enqueue p (job_of r) else p)) e

backfill-one :
    (to_lower : Text → Text) (fs : Files) (r : PhotoRef) (refs : List PhotoRef) (p : Pool)
    → needs_job to_lower fs r ≡ true
    → backfill to_lower fs (r ∷ refs) p ≡ backfill to_lower fs refs (enqueue p (job_of r))
unfolding backfill
backfill-one to_lower fs r refs p e =
    ap (λ b. backfill to_lower fs refs (if b then enqueue p (job_of r) else p)) e

backfill-jobs :
    (to_lower : Text → Text) (fs : Files) (refs : List PhotoRef) (p : Pool)
    → p.stopped ≡ false
    → Distinct refs
    → All (Fresh p.in_flight) refs
    → length p.jobs + length refs ≤ p.depth
    → (backfill to_lower fs refs p).jobs ≡ p.jobs ++ map job_of (keep (needs_job to_lower fs) refs)
unfolding backfill
backfill-jobs to_lower fs [] p s d f h = sym (append-nil p.jobs)
backfill-jobs to_lower fs (r ∷ refs) p s d f h = elim (Bool-cases (needs_job to_lower fs r)) [
  | inr e ↦
      rw (backfill-none to_lower fs r refs p e, e)
        (backfill-jobs to_lower fs refs p s d.1 f.1 (omega arith))
  | inl e ↦
      let j = job_of r in
      let q = record p { jobs = p.jobs ++ j ∷ []; in_flight = r.hash ∷ p.in_flight } in
      rw (backfill-one to_lower fs r refs p e, enqueue_room p j s f.0 (omega arith), e)
        (backfill-jobs to_lower fs refs q s d.1 (Fresh-cons r.hash p.in_flight refs d.0 f.1)
            (omega (arith, length-append p.jobs (j ∷ [])))
          ∙ append_assoc p.jobs (j ∷ []) (map job_of (keep (needs_job to_lower fs) refs)))
]

All-Fresh : (refs : List PhotoRef) → All (Fresh []) refs
All-Fresh [] = tt
All-Fresh (r ∷ refs) = (refl, All-Fresh refs)

any-ref_of :
    (hash : Text) (rows : List PhotoRow)
    → any (λ x. text_eq x.hash hash) (map ref_of rows) ≡ any (has_hash hash) rows
any-ref_of hash [] = refl
any-ref_of hash (r ∷ rows) = ground (arith, any-ref_of hash rows)

Distinct-ref_of : (rows : List PhotoRow) → UniqueHashes rows → Distinct (map ref_of rows)
Distinct-ref_of [] u = tt
Distinct-ref_of (r ∷ rows) u = (any-ref_of r.content_hash rows ∙ u.0, Distinct-ref_of rows u.1)

length-map_of : (rows : List PhotoRow) → length (map ref_of rows) ≡ length rows
length-map_of [] = refl
length-map_of (r ∷ rows) = ap suc (length-map_of rows)

-- In a well-formed database with no more photos than a new pool's queue has room for, and with no
-- failing query, a restart queues exactly the photos of an accepted type that miss a rendition, each
-- once.
pub backfill_renditions-jobs :
    (to_lower : Text → Text) (w q : ℕ) (db : Db) (fs : Files)
    → Wf db
    → length db.photos ≤ (new_pool w q).depth
    → (backfill_renditions to_lower Schema.no_faults db fs (new_pool w q)).jobs
      ≡ map job_of (keep (needs_job to_lower fs) (map ref_of db.photos))
unfolding backfill_renditions all_photos new_pool
backfill_renditions-jobs to_lower w q db fs v h =
    backfill-jobs to_lower fs (map ref_of db.photos) (new_pool w q) refl
      (Distinct-ref_of db.photos v.hashes) (All-Fresh (map ref_of db.photos))
      (omega (arith, length-map_of db.photos))
