-- ===== src/Convert/Pool/Bounds.antt =====
-- The pool's invariant under every interleaving.
use photo_server.Base.{
  ℕ, ◌+◌, ◌≤◌, ◌≡◌, refl, ap, subst, Bool, true, false, List, [], ◌∷◌, ◌++◌, Text, text_eq,
  text_eq_iff, length, length-append, count, ltb, ltb→lt, arith, if◌then◌else◌, inl, inr,
  Bool-cases,
}
use photo_server.Convert.Pool.{
  Job, Pool, new_pool, is_in, without, enqueue, Step, stores, sends, drops, takes, finishes, exits,
  starts, stops, cancels, Reach, here, next,
}
use photo_server.Convert.Pool.Crew.{IsManned, Step-IsManned, new_pool-IsManned}

-- How many jobs of a list are for a photo.
abbrev pub of_hash : Text → Job → Bool
of_hash h j = text_eq j.hash h

abbrev pub jobs_for : Pool → Text → ℕ
jobs_for p h = count (of_hash h) p.pending + count (of_hash h) p.jobs + count (of_hash h) p.running

abbrev pub entry : Bool → ℕ
entry true = 1
entry false = 0

-- A photo has one job at most, and is marked as in flight exactly while it has one; the queue, the
-- number of running jobs and the number of workers keep their bounds.
pub record Inv (p : Pool) : Type 0 where
  pub single : (h : Text) → jobs_for p h ≡ entry (is_in h p.in_flight)
  pub queued : length p.jobs ≤ p.depth
  pub busy : length p.running ≤ p.workers
  pub crew : IsManned p

count-append {ℓ} :
    {A : Type ℓ} (q : A → Bool) (xs ys : List A) → count q (xs ++ ys) ≡ count q xs + count q ys
count-append q [] ys = omega arith
count-append q (x ∷ xs) ys = ground (arith, count-append q xs ys)

is_in-without :
    (k h : Text) (hs : List Text)
    → is_in h (without k hs) ≡ (if text_eq k h then false else is_in h hs)
is_in-without k h [] = ground arith
is_in-without k h (x ∷ hs) =
    ground (arith, text_eq_iff x k, text_eq_iff x h, text_eq_iff k h, is_in-without k h hs)

stores-single :
    (p : Pool) (j : Job) (h : Text)
    → is_in j.hash p.in_flight ≡ false
    → jobs_for p h ≡ entry (is_in h p.in_flight)
    → jobs_for (record p { pending = j ∷ p.pending; in_flight = j.hash ∷ p.in_flight }) h
      ≡ entry (is_in h (j.hash ∷ p.in_flight))
stores-single p j h new s = elim (Bool-cases (text_eq j.hash h)) [
  | inl e ↦
      ground
        (arith, e, s, subst (λ k. is_in k p.in_flight ≡ false) ((text_eq_iff j.hash h).0 e) new)
  | inr e ↦ ground (arith, e, s)
]

Step-Inv : {p q : Pool} → Step p q → Inv p → Inv q
Step-Inv {p} (stores j new) v = record {
  crew = Step-IsManned (stores j new) v.crew;
  single = λ h. stores-single p j h new (v.single h);
  queued = v.queued;
  busy = v.busy;
}
Step-Inv {p} (sends before after j e room) v = record {
  crew = Step-IsManned (sends before after j e room) v.crew;
  single = λ h. ground (
    arith,
    v.single h,
    ap (count (of_hash h)) e,
    count-append (of_hash h) before (j ∷ after),
    count-append (of_hash h) before after,
    count-append (of_hash h) p.jobs (j ∷ []),
  );
  queued = omega (arith, length-append p.jobs (j ∷ []));
  busy = v.busy;
}
Step-Inv {p} (drops before after j e full) v = record {
  crew = Step-IsManned (drops before after j e full) v.crew;
  single = λ h. ground (
    arith,
    v.single h,
    ap (count (of_hash h)) e,
    count-append (of_hash h) before (j ∷ after),
    count-append (of_hash h) before after,
    is_in-without j.hash h p.in_flight,
  );
  queued = v.queued;
  busy = v.busy;
}
Step-Inv {p} (takes j rest e room) v = record {
  crew = Step-IsManned (takes j rest e room) v.crew;
  single = λ h. ground (arith, v.single h, ap (count (of_hash h)) e);
  queued = omega (arith, v.queued, ap length e);
  busy = omega (arith, v.crew.manned);
}
Step-Inv {p} (finishes before after j e) v = record {
  crew = Step-IsManned (finishes before after j e) v.crew;
  single = λ h. ground (
    arith,
    v.single h,
    ap (count (of_hash h)) e,
    count-append (of_hash h) before (j ∷ after),
    count-append (of_hash h) before after,
    is_in-without j.hash h p.in_flight,
  );
  queued = v.queued;
  busy =
      omega
        (arith, v.busy, ap length e, length-append before (j ∷ after), length-append before after);
}
Step-Inv (exits c idle) v = record {
  crew = Step-IsManned (exits c idle) v.crew;
  single = v.single;
  queued = v.queued;
  busy = v.busy;
}
Step-Inv (starts new) v = record {
  crew = Step-IsManned (starts new) v.crew;
  single = v.single;
  queued = v.queued;
  busy = v.busy;
}
Step-Inv stops v = record {
  crew = Step-IsManned stops v.crew;
  single = v.single;
  queued = v.queued;
  busy = v.busy;
}
Step-Inv cancels v = record {
  crew = Step-IsManned cancels v.crew;
  single = v.single;
  queued = v.queued;
  busy = v.busy;
}

new_pool-Inv : (w q : ℕ) → Inv (new_pool w q)
unfolding new_pool
new_pool-Inv w q = record {
  single = λ h. refl;
  queued = omega arith;
  busy = omega arith;
  crew = new_pool-IsManned w q;
}

Reach-Inv : {p q : Pool} → Reach p q → Inv p → Inv q
Reach-Inv here v = v
Reach-Inv (next r s) v = Step-Inv s (Reach-Inv r v)

-- Whatever calls and workers interleave on a new pool: every photo has at most one job, and is
-- marked as in flight exactly while it has one; the queue never outgrows its depth, and no more
-- jobs run than there are workers. All workers live from the start until the context is cancelled.
pub new_pool-reaches-Inv : (w q : ℕ) (p : Pool) → Reach (new_pool w q) p → Inv p
new_pool-reaches-Inv w q p r = Reach-Inv r (new_pool-Inv w q)

-- A call of `Enqueue` is a run of its two halves, whether it queues the job, finds it queued
-- already, or drops it since the queue is full.
pub enqueue-reaches : (p : Pool) (j : Job) → Reach p (enqueue p j)
unfolding enqueue
enqueue-reaches p j = elim (Bool-cases p.stopped) [
  | inl s ↦ rw s here
  | inr s ↦ elim (Bool-cases (is_in j.hash p.in_flight)) [
    | inl i ↦ rw (s, i) here
    | inr i ↦ elim (Bool-cases (ltb (length p.jobs) p.depth)) [
      | inl r ↦
          rw (s, i, r) (next (next here (stores j i)) (sends [] p.pending j refl (ltb→lt _ _ r)))
      | inr r ↦
          rw (s, i, r)
            (next (next here (stores j i)) (drops [] p.pending j refl (ground (arith, r))))
    ]
  ]
]
