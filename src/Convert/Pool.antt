-- ===== src/Convert/Pool.antt =====
-- internal/convert/pool.go: the bounded queue and the workers as a state machine.
pub mod Crew
pub mod Bounds
pub mod Draining
use photo_server.Base.{
  ℕ, ◌+◌, ◌-◌, ◌<◌, ◌≤◌, ◌≡◌, Bool, true, false, not, List, [], ◌∷◌, ◌++◌, Text, text_eq, length,
  any, keep, ltb, if◌then◌else◌,
}

pub record Job : Type 0 where
  pub hash : Text
  pub ext : Text
  pub mime : Text

-- `pending` are the jobs of calls of `Enqueue` that have stored their hash and not yet sent; `jobs`
-- is the channel, its front first; `running` are the jobs that a worker has taken; `alive` counts the
-- workers that were launched and have not returned, for which `Stop` waits. `cancelled` is the end of
-- the context that `Start` was given.
pub record Pool : Type 0 where
  pub workers : ℕ
  pub alive : ℕ
  pub depth : ℕ
  pub pending : List Job
  pub jobs : List Job
  pub running : List Job
  pub in_flight : List Text
  pub started : Bool
  pub stopped : Bool
  pub cancelled : Bool

unfoldable pub new_pool : ℕ → ℕ → Pool
new_pool workers queue =
    let w = if ltb workers 1 then 1 else workers in
    record {
      workers = w;
      alive = 0;
      depth = if ltb queue w then w else queue;
      pending = [];
      jobs = [];
      running = [];
      in_flight = [];
      started = false;
      stopped = false;
      cancelled = false;
    }

-- `sync.Map.Load` and `Delete`.
abbrev pub is_in : Text → List Text → Bool
is_in h = any λ k. text_eq k h

abbrev pub without : Text → List Text → List Text
without h = keep λ k. not (text_eq k h)

-- A call with no other between its two halves.
unfoldable pub enqueue : Pool → Job → Pool
enqueue p j =
    if p.stopped
    then p
    else if is_in j.hash p.in_flight
    then p
    else if ltb (length p.jobs) p.depth
    then record p { jobs = p.jobs ++ j ∷ []; in_flight = j.hash ∷ p.in_flight }
    else record p { in_flight = without j.hash (j.hash ∷ p.in_flight) }

-- What the calls and the workers do, one atomic step at a time. A call that saw `stopped` unset may
-- store its hash after `Stop`. A worker that has no job takes one or, once the context is cancelled,
-- returns; where both are possible, either happens. `Start` is called once.
pub data Step (p : Pool) : Pool → Type 0 where
  stores :
      (j : Job)
      → is_in j.hash p.in_flight ≡ false
      → Step p (record p { pending = j ∷ p.pending; in_flight = j.hash ∷ p.in_flight })
  sends :
      (before after : List Job) (j : Job)
      → p.pending ≡ before ++ j ∷ after
      → length p.jobs < p.depth
      → Step p (record p { pending = before ++ after; jobs = p.jobs ++ j ∷ [] })
  drops :
      (before after : List Job) (j : Job)
      → p.pending ≡ before ++ j ∷ after
      → p.depth ≤ length p.jobs
      → Step p (record p { pending = before ++ after; in_flight = without j.hash p.in_flight })
  takes :
      (j : Job) (rest : List Job)
      → p.jobs ≡ j ∷ rest
      → length p.running < p.alive
      → Step p (record p { jobs = rest; running = j ∷ p.running })
  finishes :
      (before after : List Job) (j : Job)
      → p.running ≡ before ++ j ∷ after
      → Step p (record p { running = before ++ after; in_flight = without j.hash p.in_flight })
  exits :
      p.cancelled ≡ true → length p.running < p.alive → Step p (record p { alive = p.alive - 1 })
  starts : p.started ≡ false → Step p (record p { started = true; alive = p.workers })
  stops : Step p (record p { stopped = true })
  cancels : Step p (record p { cancelled = true })

pub data Reach (p : Pool) : Pool → Type 0 where
  here : Reach p p
  next : {q r : Pool} → Reach p q → Step q r → Reach p r
