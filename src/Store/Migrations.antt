-- ===== src/Store/Migrations.antt =====
-- internal/store/migrate.go: the embedded SQL files and their order of application.
pub mod Resuming
use photo_server.Base.{
  ℕ, ◌-◌, Bool, true, false, not, ◌&&◌, ◌||◌, Option, none, some, List, [], ◌∷◌, ◌++◌, Text, bytes,
  text_eq, length, drop, ℤ, pos, negsuc, atoi, ltb, leb, ◌==◌, Result, ok, err, if◌then◌else◌,
}
use photo_server.Store.Feeds.{order_by}

pub record Migration : Type 0 where
  pub version : ℤ
  pub name : Text
  pub sql : Text

-- A file of the embedded directory, with its bytes if it can be read.
pub record Entry : Type 0 where
  pub name : Text
  pub is_dir : Bool
  pub content : Option Text

abbrev pub int_lt : ℤ → ℤ → Bool
int_lt (pos a) (pos b) = ltb a b
int_lt (pos a) (negsuc b) = false
int_lt (negsuc a) (pos b) = true
int_lt (negsuc a) (negsuc b) = ltb b a

abbrev pub int_eq : ℤ → ℤ → Bool
int_eq (pos a) (pos b) = a == b
int_eq (negsuc a) (negsuc b) = a == b
int_eq _ _ = false

-- `strings.HasSuffix`.
abbrev has_suffix : Text → Text → Bool
has_suffix s p = leb (length p) (length s) && text_eq (drop (length s - length p) s) p

-- What `strings.Cut` finds before the separator, if it is there.
unfoldable pub cut_before : ℕ → Text → Option Text
cut_before sep [] = none
cut_before sep (c ∷ s) =
    let rest = cut_before sep s in
    if c == sep then some [] else elim rest [ none ↦ none | some t ↦ some (c ∷ t) ]

abbrev versioned : Option Text → Option ℤ
versioned none = none
versioned (some prefix) = atoi prefix

abbrev migration_of : Entry → Option ℤ → Option Text → Option Migration
migration_of e (some v) (some sql) = some (record { version = v; name = e.name; sql = sql })
migration_of e _ _ = none

abbrev added : Option Migration → Option (List Migration) → Option (List Migration)
added (some m) (some ms) = some (m ∷ ms)
added _ _ = none

-- Every file that is no migration by its suffix is left out; one that is and has no version or cannot
-- be read is an error.
unfoldable pub read_migrations : List Entry → Option (List Migration)
unfolding cut_before
read_migrations [] = some []
read_migrations (e ∷ es) =
    let rest = read_migrations es in
    if e.is_dir || not (has_suffix e.name (bytes ".sql"))
    then rest
    else added (migration_of e (versioned (cut_before b'_' e.name)) e.content) rest

abbrev pub older : Migration → Migration → Bool
older m n = int_lt m.version n.version

-- Two neighbours of one version.
abbrev pub has_repeat : List Migration → Bool
has_repeat [] = false
has_repeat (m ∷ []) = false
has_repeat (m ∷ n ∷ ms) = int_eq m.version n.version || has_repeat (n ∷ ms)

abbrev pub sorted_or_none : Option (List Migration) → Option (List Migration)
sorted_or_none none = none
sorted_or_none (some ms) = if has_repeat (order_by older ms) then none else some (order_by older ms)

unfoldable pub load_migrations : List Entry → Option (List Migration)
unfolding read_migrations
load_migrations es = sorted_or_none (read_migrations es)

-- The database as migrations see it: `PRAGMA user_version`, and the scripts that ran.
pub record SchemaState : Type 0 where
  pub version : ℤ
  pub applied : List Text

abbrev pub apply_one : Migration → SchemaState → SchemaState
apply_one m s = record { version = m.version; applied = s.applied ++ m.sql ∷ [] }

-- `fails` says whose transaction does not commit, for whatever reason; it is rolled back.
unfoldable pub apply_all :
    (Migration → Bool) → ℤ → List Migration → SchemaState → Result (Unit {0}) × SchemaState
apply_all fails current [] s = (ok tt, s)
apply_all fails current (m ∷ ms) s =
    let skipped = apply_all fails current ms s in
    let rest = apply_all fails current ms (apply_one m s) in
    if not (int_lt current m.version) then skipped else if fails m then (err, s) else rest

abbrev pub with_migrations :
    (Migration → Bool) → Option (List Migration) → SchemaState → Result (Unit {0}) × SchemaState
with_migrations fails none s = (err, s)
with_migrations fails (some ms) s = apply_all fails s.version ms s

unfoldable pub migrate :
    (Migration → Bool) → List Entry → SchemaState → Result (Unit {0}) × SchemaState
unfolding load_migrations apply_all
migrate fails es s = with_migrations fails (load_migrations es) s
