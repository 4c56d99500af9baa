-- ===== src/Server/Http.antt =====
-- The parts of requests and responses that the handlers decide.
use photo_server.Base.{ℕ, Bool, true, ◌&&◌, ◌||◌, [], ◌∷◌, Text, length, leb, ◌==◌}

-- `http.Error` and `http.NotFound` with their status, a body with status 200, or a redirect (303).
pub data Reply (A : Type 0) : Type 0 where
  failed : ℕ → Reply A
  answered : A → Reply A
  redirected : Text → Reply A

abbrev pub is_hex : ℕ → Bool
is_hex c = (leb b'0' c && leb c b'9') || (leb b'a' c && leb c b'f')

abbrev pub all_hex : Text → Bool
all_hex [] = true
all_hex (c ∷ s) = is_hex c && all_hex s

unfoldable pub is_hex_sha256 : Text → Bool
is_hex_sha256 s = (length s == 64) && all_hex s
