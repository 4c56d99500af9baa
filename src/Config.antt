-- ===== src/Config.antt =====
-- internal/config: the configuration that the environment gives.
pub mod Bounds
use photo_server.Base.{
  ℕ, ◌*◌, ◌^◌, Bool, ◌||◌, Option, none, some, [], ◌∷◌, ◌++◌, Text, bytes, is_empty, ℤ, pos, atoi,
  positive, ltb, ◌==◌, if◌then◌else◌,
}

pub record Config : Type 0 where
  pub addr : Text
  pub data_dir : Text
  pub log_level : ℤ
  pub log_file : Text
  pub shutdown_timeout : ℤ
  pub max_upload_bytes : ℕ
  pub convert_workers : ℕ
  pub gallery_max_px : ℕ
  pub jpeg_quality : ℕ
  pub thumb_px : ℕ
  pub thumb_quality : ℕ
  pub vips_thumbnail_bin : Text
  pub session_max_age : ℕ
  pub admin_password : Text
  pub base_url : Text
  pub is_https : Bool
  pub access_password : Text

-- The process: `os.LookupEnv`, `runtime.NumCPU`, and of Go's library `slog.Level.UnmarshalText`,
-- `time.ParseDuration` in nanoseconds, whether `url.Parse` finds the scheme https, and `filepath.Abs`.
pub record System : Type 0 where
  pub env : Text → Option Text
  pub cpus : ℕ
  pub level : Text → Option ℤ
  pub duration : Text → Option ℤ
  pub has_https : Text → Bool
  pub abs : Text → Option Text

infixl 5 ◌>>=◌
abbrev pub ◌>>=◌ : {A B : Type 0} → Option A → (A → Option B) → Option B
none >>= f = none
some a >>= f = f a

abbrev or_else : Option Text → Text → Text
or_else none def = def
or_else (some v) def = v

abbrev pub getenv : System → Text → Text → Text
getenv sys key def = or_else (sys.env (bytes "PHOTO_SERVER_" ++ key)) def

-- A value that is set and not empty is parsed; `none` is an error.
abbrev pub parsed : {A : Type 0} → (Text → Option A) → Text → A → Option A
parsed parse v def = if is_empty v then some def else parse v

abbrev positive_int : Text → Option ℕ
positive_int v = positive (atoi v)

unfoldable pub pos_int_env : System → Text → ℕ → Option ℕ
pos_int_env sys key def = parsed positive_int (getenv sys key []) def

-- The part of a list in front of a colon.
abbrev before_colon : Text → Text
before_colon [] = []
before_colon (c ∷ s) = if c == b':' then [] else c ∷ before_colon s

unfoldable pub default_data_dir : System → Text
default_data_dir sys =
    let dirs = or_else (sys.env (bytes "STATE_DIRECTORY")) [] in
    if is_empty dirs then bytes "data" else before_colon dirs

unfoldable pub default_workers : ℕ → ℕ
default_workers cpus = if ltb 4 cpus then 4 else if ltb cpus 1 then 1 else cpus

abbrev pub chosen : Text → Text → Text
chosen v def = if is_empty v then def else v

abbrev pub nanoseconds : ℕ
nanoseconds = 1000000000

unfoldable pub load : System → Option Config
unfolding pos_int_env default_data_dir default_workers
load sys = do
  level ← parsed sys.level (getenv sys (bytes "LOG_LEVEL") []) (pos 0)
  shutdown ← parsed sys.duration (getenv sys (bytes "SHUTDOWN_TIMEOUT") []) (pos (15 * nanoseconds))
  max_upload ← pos_int_env sys (bytes "MAX_UPLOAD_BYTES") (64 * 2 ^ 20)
  workers ← pos_int_env sys (bytes "CONVERT_WORKERS") (default_workers sys.cpus)
  gallery_px ← pos_int_env sys (bytes "GALLERY_MAX_PX") 2560
  jpeg_q ← pos_int_env sys (bytes "JPEG_QUALITY") 85
  thumb_px ← pos_int_env sys (bytes "THUMB_PX") 400
  thumb_q ← pos_int_env sys (bytes "THUMB_QUALITY") 80
  _ ← if ltb 100 jpeg_q || ltb 100 thumb_q then none else some tt
  max_age ←
      parsed (λ v. positive (sys.duration v)) (getenv sys (bytes "SESSION_MAX_AGE") [])
        (30 * 24 * 3600 * nanoseconds)
  data_dir ← sys.abs (chosen (getenv sys (bytes "DATA_DIR") []) (default_data_dir sys))
  some (record {
    addr = getenv sys (bytes "ADDR") (bytes ":8080");
    data_dir = data_dir;
    log_level = level;
    log_file = getenv sys (bytes "LOG_FILE") [];
    shutdown_timeout = shutdown;
    max_upload_bytes = max_upload;
    convert_workers = workers;
    gallery_max_px = gallery_px;
    jpeg_quality = jpeg_q;
    thumb_px = thumb_px;
    thumb_quality = thumb_q;
    vips_thumbnail_bin = getenv sys (bytes "VIPSTHUMBNAIL_BIN") (bytes "vipsthumbnail");
    session_max_age = max_age;
    admin_password = getenv sys (bytes "ADMIN_PASSWORD") [];
    base_url = getenv sys (bytes "BASE_URL") (bytes "http://photos.wedding/");
    is_https = sys.has_https (getenv sys (bytes "BASE_URL") (bytes "http://photos.wedding/"));
    access_password = getenv sys (bytes "ACCESS_PASSWORD") [];
  })
