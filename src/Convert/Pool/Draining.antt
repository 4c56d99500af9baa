-- ===== src/Convert/Pool/Draining.antt =====
-- What becomes of the queued jobs while no new call comes in.
use photo_server.Base.{
  ℕ, zero, suc, ◌+◌, ◌*◌, ◌<◌, ◌≤◌, ◌≡◌, ◌⊎◌, inl, inr, refl, ap, ◌∙◌, count, ltb, ltb→lt, ◌==◌,
  Bool-cases, Bool, true, false, List, [], ◌∷◌, Text, text_eq_refl, length, length-append, arith,
}
use photo_server.Convert.Pool.{
  Job, Pool, new_pool, is_in, Step, stores, sends, drops, takes, finishes, exits, starts, stops,
  cancels, Reach, here, next,
}
use photo_server.Convert.Pool.Bounds.{of_hash, entry, Inv, new_pool-reaches-Inv}

-- The steps of workers and of calls under way, as against new calls, `Start`, `Stop` and the end of
-- the context.
abbrev pub works : {p q : Pool} → Step p q → Bool
works (stores j new) = false
works (sends before after j e room) = true
works (drops before after j e full) = true
works (takes j rest e room) = true
works (finishes before after j e) = true
works (exits c idle) = true
works (starts new) = false
works stops = false
works cancels = false

-- A run of so many of them.
pub data Work (p : Pool) : ℕ → Pool → Type 0 where
  start : Work p zero p
  more : {n : ℕ} {q r : Pool} → Work p n q → (st : Step q r) → works st ≡ true → Work p (suc n) r

-- The steps that are still to do, at most.
abbrev pub weight : Pool → ℕ
weight p = 3 * length p.pending + 2 * length p.jobs + length p.running + p.alive

pub record IsIdle (p : Pool) : Type 0 where
  pub no_pending : p.pending ≡ []
  pub no_jobs : p.jobs ≡ []
  pub no_running : p.running ≡ []
  pub no_in_flight : p.in_flight ≡ []

-- What the end of the context leaves: no worker and no job under way, and the photos of the jobs that
-- are still in the queue are the marked ones.
pub record IsDown (p : Pool) : Type 0 where
  pub no_pending : p.pending ≡ []
  pub no_running : p.running ≡ []
  pub no_worker : p.alive ≡ 0
  pub left : (h : Text) → count (of_hash h) p.jobs ≡ entry (is_in h p.in_flight)

record IsSized (p : Pool) : Type 0 where
  some_workers : 0 < p.workers
  some_depth : 0 < p.depth

Step-weight : {p q : Pool} (st : Step p q) → works st ≡ true → weight q < weight p
Step-weight (stores j new) w = absurd (cc)
Step-weight {p} (sends before after j e room) w = omega (
  arith,
  ap length e,
  length-append before (j ∷ after),
  length-append before after,
  length-append p.jobs (j ∷ []),
)
Step-weight (drops before after j e full) w =
    omega (arith, ap length e, length-append before (j ∷ after), length-append before after)
Step-weight (takes j rest e room) w = omega (arith, ap length e)
Step-weight (finishes before after j e) w =
    omega (arith, ap length e, length-append before (j ∷ after), length-append before after)
Step-weight (exits c idle) w = omega arith
Step-weight (starts new) w = absurd (cc)
Step-weight stops w = absurd (cc)
Step-weight cancels w = absurd (cc)

Work-weight : {p r : Pool} {n : ℕ} → Work p n r → n + weight r ≤ weight p
Work-weight start = omega arith
Work-weight (more w st s) = omega (arith, Work-weight w, Step-weight st s)

Step-IsSized : {p q : Pool} → Step p q → IsSized p → IsSized q
Step-IsSized (stores j new) s = record { some_workers = s.some_workers; some_depth = s.some_depth }
Step-IsSized (sends before after j e room) s = record {
  some_workers = s.some_workers;
  some_depth = s.some_depth;
}
Step-IsSized (drops before after j e full) s = record {
  some_workers = s.some_workers;
  some_depth = s.some_depth;
}
Step-IsSized (takes j rest e room) s = record {
  some_workers = s.some_workers;
  some_depth = s.some_depth;
}
Step-IsSized (finishes before after j e) s = record {
  some_workers = s.some_workers;
  some_depth = s.some_depth;
}
Step-IsSized (exits c idle) s = record { some_workers = s.some_workers; some_depth = s.some_depth }
Step-IsSized (starts new) s = record { some_workers = s.some_workers; some_depth = s.some_depth }
Step-IsSized stops s = record { some_workers = s.some_workers; some_depth = s.some_depth }
Step-IsSized cancels s = record { some_workers = s.some_workers; some_depth = s.some_depth }

Reach-IsSized : {p q : Pool} → Reach p q → IsSized p → IsSized q
Reach-IsSized here s = s
Reach-IsSized (next r st) s = Step-IsSized st (Reach-IsSized r s)

new_pool-IsSized : (w q : ℕ) → IsSized (new_pool w q)
unfolding new_pool
new_pool-IsSized w q = record { some_workers = ground arith; some_depth = ground arith }

Reach-Work : {p q r : Pool} {n : ℕ} → Reach p q → Work q n r → Reach p r
Reach-Work r start = r
Reach-Work r (more w st s) = next (Reach-Work r w) st

-- No photo is marked, so none is listed.
none_in_flight : (hs : List Text) → ((h : Text) → is_in h hs ≡ false) → hs ≡ []
none_in_flight [] h = refl
none_in_flight (x ∷ hs) h = absurd (ground (arith, h x, text_eq_refl x))

abbrev CanWork : Pool → Type 0
CanWork r = (s : Pool) × (st : Step r s) × (works st ≡ true)

-- What no step of the kind can follow on.
abbrev pub IsSettled : Pool → Type 0
IsSettled r = ((r.cancelled ≡ false) × IsIdle r) ⊎ ((r.cancelled ≡ true) × IsDown r)

-- Neither the context nor a worker's launch changes while they work.
Step-cancelled :
    {p q : Pool} (st : Step p q)
    → works st ≡ true
    → (q.cancelled ≡ p.cancelled) × (q.started ≡ p.started)
Step-cancelled (stores j new) w = absurd (cc)
Step-cancelled (sends before after j e room) w = (refl, refl)
Step-cancelled (drops before after j e full) w = (refl, refl)
Step-cancelled (takes j rest e room) w = (refl, refl)
Step-cancelled (finishes before after j e) w = (refl, refl)
Step-cancelled (exits c idle) w = (refl, refl)
Step-cancelled (starts new) w = absurd (cc)
Step-cancelled stops w = absurd (cc)
Step-cancelled cancels w = absurd (cc)

Work-cancelled :
    {p r : Pool} {n : ℕ} → Work p n r → (r.cancelled ≡ p.cancelled) × (r.started ≡ p.started)
Work-cancelled start = (refl, refl)
Work-cancelled (more w st s) =
    let (c, b) = Step-cancelled st s in let (c', b') = Work-cancelled w in (c ∙ c', b ∙ b')

-- With no job pending or running: a worker can return once the context is cancelled.
leaves :
    (r : Pool)
    → Inv r
    → r.pending ≡ []
    → r.running ≡ []
    → r.cancelled ≡ true
    → IsSettled r ⊎ CanWork r
leaves r v e1 e3 c = elim (Bool-cases (r.alive == 0)) [
  | inl z ↦ inl (
      inr (
        c,
        record {
          no_pending = e1;
          no_running = e3;
          no_worker = ground arith;
          left = λ h. ground (arith, v.single h, e1, e3);
        },
      ))
  | inr z ↦ inr (_, exits c (ground (arith, z, ap length e3)), refl)
]

rests :
    (r : Pool) (jobs : List Job)
    → IsSized r
    → Inv r
    → r.started ≡ true
    → r.pending ≡ []
    → r.jobs ≡ jobs
    → r.running ≡ []
    → r.cancelled ≡ false
    → IsSettled r ⊎ CanWork r
rests r (j ∷ jobs) s v b e1 e2 e3 c =
    inr (_, takes j jobs e2 (omega (arith, s.some_workers, v.crew.present b c, ap length e3)), refl)
rests r [] s v b e1 e2 e3 c = inl (
    inl (
      c,
      record {
        no_pending = e1;
        no_jobs = e2;
        no_running = e3;
        no_in_flight = none_in_flight r.in_flight (λ h. ground (arith, v.single h, e1, e2, e3));
      },
    ))

progress :
    (r : Pool) (pending running : List Job)
    → IsSized r
    → Inv r
    → r.started ≡ true
    → r.pending ≡ pending
    → r.running ≡ running
    → IsSettled r ⊎ CanWork r
progress r pending (j ∷ running) s v b e1 e3 = inr (_, finishes [] running j e3, refl)
progress r (j ∷ pending) [] s v b e1 e3 = elim (Bool-cases (ltb (length r.jobs) r.depth)) [
  | inl room ↦ inr (_, sends [] pending j e1 (ltb→lt _ _ room), refl)
  | inr full ↦ inr (_, drops [] pending j e1 (ground (arith, full)), refl)
]
progress r [] [] s v b e1 e3 = elim (Bool-cases r.cancelled) [
  | inl c ↦ leaves r v e1 e3 c
  | inr c ↦ rests r r.jobs s v b e1 refl e3 c
]

-- Take any state of a pool that has been started, and let the calls under way and the workers take
-- turns while no new call comes in and the context neither ends nor begins. They make no more than
-- `weight` steps. Where they can make none: if the context is not cancelled, no job is pending, queued
-- or running and no photo is marked as in flight; if it is cancelled, every worker has returned, no
-- job is pending or running, and a photo is marked exactly if its job was left in the queue.
pub new_pool-drains :
    (w q n : ℕ) (p r : Pool)
    → Reach (new_pool w q) p
    → p.started ≡ true
    → Work p n r
    → (n ≤ weight p)
      × (r.cancelled ≡ p.cancelled)
      × ((((r.cancelled ≡ false) × IsIdle r) ⊎ ((r.cancelled ≡ true) × IsDown r))
          ⊎ ((s : Pool) × (st : Step r s) × (works st ≡ true)))
new_pool-drains w q n p r reach begun work =
    let from = Reach-Work reach work in
    let (same, started) = Work-cancelled work in
    (
      omega (arith, Work-weight work),
      same,
      progress r r.pending r.running (Reach-IsSized from (new_pool-IsSized w q))
          (new_pool-reaches-Inv w q r from) (started ∙ begun) refl refl,
    )
