-- ===== src/Convert/Pool/Crew.antt =====
-- How many workers the pool has, from its start to the end of its context.
use photo_server.Base.{ℕ, ◌≤◌, ◌≡◌, refl, ap, true, false, ◌∷◌, length, length-append, arith}
use photo_server.Convert.Pool.{
  Pool, new_pool, Step, stores, sends, drops, takes, finishes, exits, starts, stops, cancels,
}

-- No worker before the start, all of them until the context is cancelled, and a worker for each
-- running job.
pub record IsManned (p : Pool) : Type 0 where
  pub manned : p.alive ≤ p.workers
  pub working : length p.running ≤ p.alive
  pub unmanned : p.started ≡ false → p.alive ≡ 0
  pub present : p.started ≡ true → p.cancelled ≡ false → p.alive ≡ p.workers

pub Step-IsManned : {p q : Pool} → Step p q → IsManned p → IsManned q
Step-IsManned (stores j new) v = record {
  manned = v.manned;
  working = v.working;
  unmanned = v.unmanned;
  present = v.present;
}
Step-IsManned (sends before after j e room) v = record {
  manned = v.manned;
  working = v.working;
  unmanned = v.unmanned;
  present = v.present;
}
Step-IsManned (drops before after j e full) v = record {
  manned = v.manned;
  working = v.working;
  unmanned = v.unmanned;
  present = v.present;
}
Step-IsManned (takes j rest e room) v = record {
  manned = v.manned;
  working = omega arith;
  unmanned = v.unmanned;
  present = v.present;
}
Step-IsManned {p} (finishes before after j e) v = record {
  manned = v.manned;
  working =
      omega (
        arith,
        v.working,
        ap length e,
        length-append before (j ∷ after),
        length-append before after,
      );
  unmanned = v.unmanned;
  present = v.present;
}
Step-IsManned (exits c idle) v = record {
  manned = omega (arith, v.manned);
  working = omega arith;
  unmanned = λ s. omega (arith, v.unmanned s);
  present = λ s open_. absurd (cc);
}
Step-IsManned (starts new) v = record {
  manned = omega arith;
  working = omega (arith, v.working, v.unmanned new);
  unmanned = λ s. absurd (cc);
  present = λ s open_. refl;
}
Step-IsManned stops v = record {
  manned = v.manned;
  working = v.working;
  unmanned = v.unmanned;
  present = v.present;
}
Step-IsManned cancels v = record {
  manned = v.manned;
  working = v.working;
  unmanned = v.unmanned;
  present = λ s open_. absurd (cc);
}

pub new_pool-IsManned : (w q : ℕ) → IsManned (new_pool w q)
unfolding new_pool
new_pool-IsManned w q = record {
  manned = omega arith;
  working = omega arith;
  unmanned = λ s. refl;
  present = λ s open_. absurd (cc);
}
