-- ===== src/Program/Healing.antt =====
-- After a restart and one round through the queue every photo that can have renditions has them.
use photo_server.Base.{
  ℕ, suc, ◌+◌, ◌≤◌, ◌≡◌, ◌⊎◌, ap, sym, ◌∙◌, inl, inr, true, false, not, ◌||◌, some, List, [], ◌∷◌,
  ◌++◌, map, keep, find, Text, take, text_eq, is_empty, length, ok, arith, if◌then◌else◌,
  Bool-cases, subst,
}
use mathlib.Core.Option.{some-injective}
use photo_server.Store.Schema.{PhotoRow, Db}
use photo_server.Store.Schema as Schema
use photo_server.Store.Photos.{PhotoRef, has_hash}
use photo_server.Store.Wf.{Wf}
use photo_server.Blobs.{
  original, thumb, gallery, Files, no_faults, exists, path, valid_hash, ext_for,
}
use photo_server.Convert.{Tool, Converter, ext_for_mime, is_heic, work}
use photo_server.Convert.Renditions.{work-original, work_renders, exists-work}
use photo_server.Convert.Pool.{Job, new_pool}
use photo_server.Program.{needs_job, job_of, backfill_renditions, work_all}
use photo_server.Program.Backfill.{ref_of, backfill_renditions-jobs}

-- The renditions of a photo that its pages show.
abbrev pub HasRenditions : (Text → Text) → Files → Text → Text → Type 0
HasRenditions to_lower fs hash mime =
    (exists to_lower thumb hash [] fs ≡ true)
    × ((not (is_heic mime) || exists to_lower gallery hash [] fs) ≡ true)

module _ (to_lower : Text → Text) (tool : Tool) (c : Converter) (ref : PhotoRef)
    (source small large : Text) (v : valid_hash ref.hash ≡ true)
    (small_ok : tool source thumb c.thumb_px c.thumb_q ≡ ok small)
    (large_ok : tool source gallery c.gallery_px c.gallery_q ≡ ok large) where
  abbrev Done : Files → Type 0
  Done fs = HasRenditions to_lower fs ref.hash ref.mime

  abbrev Filed : Files → Type 0
  Filed fs = fs (path to_lower original ref.hash (ext_for_mime ref.mime)) ≡ some source

  abbrev after : ℕ → Job → Files → Files
  after id j fs = work to_lower tool c no_faults no_faults id (suc id) j.hash j.ext j.mime fs

  Done-work : (id : ℕ) (j : Job) (fs : Files) → Done fs → Done (after id j fs)
  Done-work id j fs d = (
    exists-work to_lower tool c no_faults no_faults id (suc id) j.hash j.ext j.mime fs thumb
        ref.hash d.0,
    ground (
      arith,
      exists-work to_lower tool c no_faults no_faults id (suc id) j.hash j.ext j.mime fs gallery
          ref.hash,
      d.1,
    ),
  )

  Filed-work : (id : ℕ) (j : Job) (fs : Files) → Filed fs → Filed (after id j fs)
  unfolding path
  Filed-work id j fs f =
      work-original to_lower tool c no_faults no_faults id (suc id) j.hash j.ext j.mime fs
        (take 2 ref.hash) (ref.hash ++ ext_for to_lower original (ext_for_mime ref.mime))
      ∙ f

  Done-job : (id : ℕ) (fs : Files) → Filed fs → Done (after id (job_of ref) fs)
  Done-job id fs f =
      let (t, g) =
        work_renders to_lower tool c id (suc id) ref.hash (ext_for_mime ref.mime) ref.mime fs source
          small large v f small_ok large_ok in
      (t, ground (arith, g))

  Done-work_all :
      (id : ℕ) (jobs : List Job) (fs : Files) → Done fs → Done (work_all to_lower tool c id jobs fs)
  unfolding work_all
  Done-work_all id [] fs d = d
  Done-work_all id (j ∷ jobs) fs d =
      Done-work_all (id + 2) jobs (after id j fs) (Done-work id j fs d)

  abbrev queue : Files → List PhotoRef → List Job
  queue fs refs = map job_of (keep (needs_job to_lower fs) refs)

  queue-skips :
      (id : ℕ) (start : Files) (x : PhotoRef) (refs : List PhotoRef) (fs : Files)
      → needs_job to_lower start x ≡ false
      → work_all to_lower tool c id (queue start (x ∷ refs)) fs
        ≡ work_all to_lower tool c id (queue start refs) fs
  queue-skips id start x refs fs e =
      ap
        (λ b.
          work_all to_lower tool c id
            (map job_of (
              if b
              then x ∷ keep (needs_job to_lower start) refs
              else keep (needs_job to_lower start) refs))
            fs)
        e

  queue-works :
      (id : ℕ) (start : Files) (x : PhotoRef) (refs : List PhotoRef) (fs : Files)
      → needs_job to_lower start x ≡ true
      → work_all to_lower tool c id (queue start (x ∷ refs)) fs
        ≡ work_all to_lower tool c (id + 2) (queue start refs) (after id (job_of x) fs)
  unfolding work_all
  queue-works id start x refs fs e =
      ap
        (λ b.
          work_all to_lower tool c id
            (map job_of (
              if b
              then x ∷ keep (needs_job to_lower start) refs
              else keep (needs_job to_lower start) refs))
            fs)
        e

  found_first :
      (x : PhotoRef) (refs : List PhotoRef)
      → text_eq x.hash ref.hash ≡ true
      → find (λ y. text_eq y.hash ref.hash) (x ∷ refs) ≡ some ref
      → x ≡ ref
  found_first x refs same e = some-injective _ _ (rw same at e)

  found_later :
      (x : PhotoRef) (refs : List PhotoRef)
      → text_eq x.hash ref.hash ≡ false
      → find (λ y. text_eq y.hash ref.hash) (x ∷ refs) ≡ some ref
      → find (λ y. text_eq y.hash ref.hash) refs ≡ some ref
  found_later x refs other e = rw other at e

  work_all-heals :
      (id : ℕ) (start : Files) (refs : List PhotoRef) (fs : Files)
      → find (λ x. text_eq x.hash ref.hash) refs ≡ some ref
      → Filed fs
      → (needs_job to_lower start ref ≡ true) ⊎ Done fs
      → Done (work_all to_lower tool c id (queue start refs) fs)
  work_all-heals id start refs fs e f (inr d) = Done-work_all id (queue start refs) fs d
  work_all-heals id start [] fs e f (inl n) = absurd (cc)
  work_all-heals id start (x ∷ refs) fs e f (inl n) = elim (Bool-cases (text_eq x.hash ref.hash)) [
    | inl same ↦
        subst (λ y. Done (work_all to_lower tool c id (queue start (y ∷ refs)) fs))
          (sym (found_first x refs same e))
          (subst Done (sym (queue-works id start ref refs fs n)) (
            Done-work_all (id + 2) (queue start refs) (after id (job_of ref) fs)
              (Done-job id fs f)))
    | inr other ↦ elim (Bool-cases (needs_job to_lower start x)) [
      | inl y ↦ subst Done (sym (queue-works id start x refs fs y)) (
          work_all-heals (id + 2) start refs (after id (job_of x) fs) (found_later x refs other e)
            (Filed-work id (job_of x) fs f) (inl n))
      | inr y ↦
          subst Done (sym (queue-skips id start x refs fs y))
            (work_all-heals id start refs fs (found_later x refs other e) f (inl n))
    ]
  ]

  needed_or_Done :
      (fs : Files)
      → is_empty (ext_for_mime ref.mime) ≡ false
      → (needs_job to_lower fs ref ≡ true) ⊎ Done fs
  needed_or_Done fs e = elim (Bool-cases (needs_job to_lower fs ref)) [
    | inl n ↦ inl n
    | inr n ↦ inr (ground (arith, e, n), ground (arith, e, n))
  ]

find-ref_of :
    (hash : Text) (rows : List PhotoRow) (r : PhotoRow)
    → find (has_hash hash) rows ≡ some r
    → find (λ x. text_eq x.hash hash) (map ref_of rows) ≡ some (ref_of r)
find-ref_of hash [] r e = absurd (cc)
find-ref_of hash (x ∷ rows) r e = ground (arith, find-ref_of hash rows r)

-- In a well-formed database with no more photos than the queue has room for, and with no failing
-- call: after a restart and one round through the queue, every stored photo of an accepted type whose
-- original is filed under a well-formed hash, and of which the tool makes both renditions, has its
-- thumbnail and, if it is HEIC or HEIF, its gallery rendition.
pub backfill_renditions-HasRenditions :
    (to_lower : Text → Text) (tool : Tool) (c : Converter) (w q id : ℕ) (db : Db) (fs : Files)
    (r : PhotoRow) (source small large : Text)
    → Wf db
    → length db.photos ≤ (new_pool w q).depth
    → find (has_hash r.content_hash) db.photos ≡ some r
    → valid_hash r.content_hash ≡ true
    → is_empty (ext_for_mime r.mime) ≡ false
    → fs (path to_lower original r.content_hash (ext_for_mime r.mime)) ≡ some source
    → tool source thumb c.thumb_px c.thumb_q ≡ ok small
    → tool source gallery c.gallery_px c.gallery_q ≡ ok large
    → let queued = (backfill_renditions to_lower Schema.no_faults db fs (new_pool w q)).jobs in
      HasRenditions to_lower (work_all to_lower tool c id queued fs) r.content_hash r.mime
backfill_renditions-HasRenditions to_lower tool c w q id db fs r source small large wf room found v
      ext filed t g =
    subst
      (λ jobs. HasRenditions to_lower (work_all to_lower tool c id jobs fs) r.content_hash r.mime)
      (sym (backfill_renditions-jobs to_lower w q db fs wf room))
      (work_all-heals to_lower tool c (ref_of r) source small large v t g id fs
        (map ref_of db.photos) fs (find-ref_of r.content_hash db.photos r found) filed
        (needed_or_Done to_lower tool c (ref_of r) source small large v t g fs ext))
