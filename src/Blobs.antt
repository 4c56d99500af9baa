-- ===== src/Blobs.antt =====
-- internal/blobstore: files by the hash of their content. The file system is a map from paths to
-- contents; a path is the root's directory for a kind, the shard and the name, or a temporary name.
pub mod Contents
pub mod Keeping
pub mod History
use photo_server.Base.{
  ℕ, Bool, true, false, not, ◌&&◌, ◌||◌, Option, none, some, [], ◌∷◌, ◌++◌, Text, bytes, text_eq,
  has_prefix, is_empty, is_some, length, take, Result, ok, err, ◌==◌, if◌then◌else◌, leb,
}

pub data Kind : Type 0 where
  original thumb gallery : Kind

abbrev pub kind_eq : Kind → Kind → Bool
kind_eq original original = true
kind_eq thumb thumb = true
kind_eq gallery gallery = true
kind_eq _ _ = false

pub data FilePath : Type 0 where
  blob : Kind → Text → Text → FilePath
  temp : Kind → ℕ → FilePath

abbrev pub path_eq : FilePath → FilePath → Bool
path_eq (blob k s n) (blob j t m) = kind_eq k j && text_eq s t && text_eq n m
path_eq (temp k i) (temp j h) = kind_eq k j && (i == h)
path_eq _ _ = false

abbrev pub Files : Type 0
Files = FilePath → Option Text

abbrev pub put_file : FilePath → Option Text → Files → Files
put_file p c fs q = if path_eq p q then c else fs q

abbrev pub has_file : FilePath → Files → Bool
has_file p fs = is_some (fs p)

-- `normExt`; `to_lower` is `strings.ToLower`.
unfoldable pub norm_ext : (Text → Text) → Text → Text
norm_ext to_lower ext =
    if is_empty ext
    then []
    else if has_prefix (to_lower ext) (bytes ".")
    then to_lower ext
    else bytes "." ++ to_lower ext

abbrev pub ext_for : (Text → Text) → Kind → Text → Text
ext_for to_lower thumb ext = bytes ".webp"
ext_for to_lower gallery ext = bytes ".jpg"
ext_for to_lower original ext = norm_ext to_lower ext

-- `Path`. The shard `hash[:2]` wants two characters; all callers but `PutOriginal`, whose hash is a
-- digest, check the hash first or serve a hash that the handler checked.
unfoldable pub path : (Text → Text) → Kind → Text → Text → FilePath
path to_lower k hash ext = blob k (take 2 hash) (hash ++ ext_for to_lower k ext)

abbrev pub is_hex : ℕ → Bool
is_hex c = (leb b'0' c && leb c b'9') || (leb b'a' c && leb c b'f')

abbrev pub all_hex : Text → Bool
all_hex [] = true
all_hex (c ∷ s) = is_hex c && all_hex s

unfoldable pub valid_hash : Text → Bool
valid_hash hash = (length hash == 64) && all_hex hash

-- The steps at which the file system can fail; `cleans` is the removal of the temporary file, whose
-- failure is ignored.
pub data Stage : Type 0 where
  creates copies syncs closes makes_dir renames syncs_dir cleans removes opens : Stage

abbrev pub Faults : Type 0
Faults = Stage → Bool

abbrev pub no_faults : Faults
no_faults s = false

-- A source: what it gives, and whether it breaks off with an error behind that.
pub record Source : Type 0 where
  pub content : Text
  pub breaks : Bool

abbrev pub clean_up : Faults → FilePath → Files → Files
clean_up faults tmp fs = if faults cleans then fs else put_file tmp none fs

-- `placeAtomically`: after the rename the file is there, also if the directory is not synced.
unfoldable pub place : Faults → FilePath → FilePath → Text → Files → Result (Unit {0}) × Files
place faults tmp final content fs =
    if faults makes_dir
    then (err, fs)
    else if faults renames
    then (err, fs)
    else if faults syncs_dir
    then (err, put_file final (some content) (put_file tmp none fs))
    else (ok tt, put_file final (some content) (put_file tmp none fs))

pub record Stored : Type 0 where
  pub hash : Text
  pub size : ℕ

abbrev pub placed :
    {A : Type 0} → Faults → FilePath → A → Result (Unit {0}) × Files → Result A × Files
placed faults tmp a (ok _, fs) = (ok a, fs)
placed faults tmp a (err, fs) = (err, clean_up faults tmp fs)

-- The temporary file is written, then filed under the digest of what it holds.
unfoldable pub put_original :
    (Text → Text) → (Text → Text) → Faults → ℕ → Source → Text → Files → Result Stored × Files
unfolding place
put_original digest to_lower faults id source ext fs =
    let tmp = temp original id in
    let written = put_file tmp (some source.content) fs in
    let hash = digest source.content in
    let final = path to_lower original hash (norm_ext to_lower ext) in
    let stored : Stored = record { hash = hash; size = length source.content } in
    if faults creates
    then (err, fs)
    else if source.breaks || faults copies || faults syncs || faults closes
    then (err, clean_up faults tmp written)
    else if has_file final written
    then (ok stored, clean_up faults tmp written)
    else placed faults tmp stored (place faults tmp final source.content written)

-- A rendition, or another blob whose hash is known.
unfoldable pub put :
    (Text → Text) → Faults → ℕ → Kind → Text → Text → Source → Files → Result (Unit {0}) × Files
unfolding place
put to_lower faults id k hash ext source fs =
    let tmp = temp k id in
    let written = put_file tmp (some source.content) fs in
    let final = path to_lower k hash ext in
    if not (valid_hash hash)
    then (err, fs)
    else if has_file final fs
    then (ok tt, fs)
    else if faults creates
    then (err, fs)
    else if source.breaks || faults copies || faults syncs || faults closes
    then (err, clean_up faults tmp written)
    else placed faults tmp tt (place faults tmp final source.content written)

unfoldable pub exists : (Text → Text) → Kind → Text → Text → Files → Bool
exists to_lower k hash ext fs = valid_hash hash && has_file (path to_lower k hash ext) fs

abbrev pub opened : Option Text → Result Text
opened none = err
opened (some c) = ok c

unfoldable pub open_blob : (Text → Text) → Faults → Kind → Text → Text → Files → Result Text
open_blob to_lower faults k hash ext fs =
    if valid_hash hash && not (faults opens) then opened (fs (path to_lower k hash ext)) else err

-- A missing file is no error.
unfoldable pub remove :
    (Text → Text) → Faults → Kind → Text → Text → Files → Result (Unit {0}) × Files
remove to_lower faults k hash ext fs =
    if not (valid_hash hash)
    then (err, fs)
    else if not (has_file (path to_lower k hash ext) fs)
    then (ok tt, fs)
    else if faults removes
    then (err, fs)
    else (ok tt, put_file (path to_lower k hash ext) none fs)
