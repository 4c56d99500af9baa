-- ===== src/Config/Bounds.antt =====
-- The bounds that a loaded configuration keeps.
use mathlib.Core.Option.{some-injective}
use photo_server.Base.{
  subst, ℕ, zero, suc, atoi, ◌*◌, ◌^◌, ◌<◌, ◌≤◌, ◌≡◌, refl, Bool, true, ◌||◌, Option, none, some,
  [], Text, bytes, ℤ, pos, negsuc, positive, ltb, arith, if◌then◌else◌,
}
use photo_server.Config.{
  Config, System, ◌>>=◌, parsed, pos_int_env, getenv, nanoseconds, chosen, default_data_dir,
  default_workers, load,
}

-- A chain that gives a result has one at each of its steps.
bind-some :
    {A B : Type 0} (o : Option A) (f : A → Option B) (b : B)
    → (o >>= f) ≡ some b
    → (a : A) × (o ≡ some a) × (f a ≡ some b)
bind-some none f b e = absurd (cc)
bind-some (some a) f b e = (a, refl, e)

-- A number above 0, if there is one.
abbrev is_pos : Option ℕ → Bool
is_pos none = true
is_pos (some n) = ltb 0 n

positive-is_pos : (o : Option ℤ) → is_pos (positive o) ≡ true
positive-is_pos none = refl
positive-is_pos (some (pos zero)) = refl
positive-is_pos (some (pos (suc k))) = ground arith
positive-is_pos (some (negsuc k)) = refl

pos_int_env-is_pos :
    (sys : System) (key : Text) (def : ℕ) → 0 < def → is_pos (pos_int_env sys key def) ≡ true
unfolding pos_int_env
pos_int_env-is_pos sys key def h = ground (arith, positive-is_pos (atoi (getenv sys key [])))

max_age-is_pos :
    (sys : System) (v : Text) (def : ℕ)
    → 0 < def
    → is_pos (parsed (λ t. positive (sys.duration t)) v def) ≡ true
max_age-is_pos sys v def h = ground (arith, positive-is_pos (sys.duration v))

default_workers-bounds : (cpus : ℕ) → (0 < default_workers cpus) × (default_workers cpus ≤ 4)
unfolding default_workers
default_workers-bounds cpus = ground arith

above : (o : Option ℕ) (n : ℕ) → is_pos o ≡ true → o ≡ some n → 0 < n
above o n h e = ground arith

env-above :
    (sys : System) (key : Text) (def n : ℕ) → 0 < def → pos_int_env sys key def ≡ some n → 0 < n
env-above sys key def n h e = above (pos_int_env sys key def) n (pos_int_env-is_pos sys key def h) e

age-above :
    (sys : System) (v : Text) (def n : ℕ)
    → 0 < def
    → parsed (λ t. positive (sys.duration t)) v def ≡ some n
    → 0 < n
age-above sys v def n h e =
    above (parsed (λ t. positive (sys.duration t)) v def) n (max_age-is_pos sys v def h) e

age_pos : 0 < 30 * 24 * 3600 * nanoseconds
age_pos = omega arith

upload_pos : 0 < 64 * 2 ^ 20
upload_pos = omega arith

edge_pos : 0 < 2560
edge_pos = omega arith

thumb_pos : 0 < 400
thumb_pos = omega arith

quality_pos : 0 < 85
quality_pos = omega arith

thumb_q_pos : 0 < 80
thumb_q_pos = omega arith

qualities :
    (a b : ℕ) (u : Unit {0})
    → (if ltb 100 a || ltb 100 b then none else some tt) ≡ some u
    → (a ≤ 100) × (b ≤ 100)
qualities a b u h = ground arith

abbrev pub InBounds : Config → Type 0
InBounds c =
    (0 < c.convert_workers)
    × (0 < c.max_upload_bytes)
    × (0 < c.gallery_max_px)
    × (0 < c.thumb_px)
    × (0 < c.session_max_age)
    × (0 < c.jpeg_quality)
    × (c.jpeg_quality ≤ 100)
    × (0 < c.thumb_quality)
    × (c.thumb_quality ≤ 100)

-- Whatever the environment holds, a configuration that loads has a worker, room for an upload, edges
-- and a session's life above 0, and qualities from 1 to 100.
pub load_bounds : (sys : System) (c : Config) → load sys ≡ some c → InBounds c
unfolding load
load_bounds sys c e =
    let (level, _, e1) =
      bind-some (parsed sys.level (getenv sys (bytes "LOG_LEVEL") []) (pos 0)) _ c e in
    let (shutdown, _, e2) =
      bind-some
        (parsed sys.duration (getenv sys (bytes "SHUTDOWN_TIMEOUT") []) (pos (15 * nanoseconds))) _
        c e1 in
    let (upload, p_upload, e3) =
      bind-some (pos_int_env sys (bytes "MAX_UPLOAD_BYTES") (64 * 2 ^ 20)) _ c e2 in
    let (workers, p_workers, e4) =
      bind-some (pos_int_env sys (bytes "CONVERT_WORKERS") (default_workers sys.cpus)) _ c e3 in
    let (edge, p_edge, e5) = bind-some (pos_int_env sys (bytes "GALLERY_MAX_PX") 2560) _ c e4 in
    let (quality, p_quality, e6) = bind-some (pos_int_env sys (bytes "JPEG_QUALITY") 85) _ c e5 in
    let (thumb, p_thumb, e7) = bind-some (pos_int_env sys (bytes "THUMB_PX") 400) _ c e6 in
    let (thumb_q, p_thumb_q, e8) = bind-some (pos_int_env sys (bytes "THUMB_QUALITY") 80) _ c e7 in
    let (_, fits, e9) =
      bind-some {A = Unit {0}} (if ltb 100 quality || ltb 100 thumb_q then none else some tt) _ c
        e8 in
    let (age, p_age, e10) =
      bind-some
        (parsed (λ t. positive (sys.duration t)) (getenv sys (bytes "SESSION_MAX_AGE") [])
          (30 * 24 * 3600 * nanoseconds))
        _ c e9 in
    let (dir, _, e11) =
      bind-some (sys.abs (chosen (getenv sys (bytes "DATA_DIR") []) (default_data_dir sys))) _ c
        e10 in
    subst InBounds (some-injective _ c e11) (
      env-above sys (bytes "CONVERT_WORKERS") (default_workers sys.cpus) workers
          (default_workers-bounds sys.cpus).0 p_workers,
      env-above sys (bytes "MAX_UPLOAD_BYTES") (64 * 2 ^ 20) upload upload_pos p_upload,
      env-above sys (bytes "GALLERY_MAX_PX") 2560 edge edge_pos p_edge,
      env-above sys (bytes "THUMB_PX") 400 thumb thumb_pos p_thumb,
      age-above sys (getenv sys (bytes "SESSION_MAX_AGE") []) (30 * 24 * 3600 * nanoseconds) age
          age_pos p_age,
      env-above sys (bytes "JPEG_QUALITY") 85 quality quality_pos p_quality,
      (qualities quality thumb_q tt fits).0,
      env-above sys (bytes "THUMB_QUALITY") 80 thumb_q thumb_q_pos p_thumb_q,
      (qualities quality thumb_q tt fits).1,
    )
