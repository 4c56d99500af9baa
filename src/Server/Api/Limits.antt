-- ===== src/Server/Api/Limits.antt =====
-- What a client can make of the page size.
use photo_server.Base.{
  ℕ, zero, suc, ◌≡◌, ◌≤◌, ◌<◌, ◌⊎◌, arith, Text, atoi, positive, pos, negsuc, ℤ, Option, none, some,
  Option-cases, inl, inr, refl,
}
use Prim.Native.Nat.{min}
use photo_server.Server.Api.{clamp_limit}

positive-pos : (o : Option ℤ) (n : ℕ) → positive o ≡ some n → 0 < n
positive-pos none n e = cc
positive-pos (some (pos zero)) n e = cc
positive-pos (some (pos (suc k))) n e = ground arith
positive-pos (some (negsuc k)) n e = cc

-- With a default between 1 and the maximum, and whatever text the client sends, the page size is between 1 and the maximum; it is the default if
-- the text is no number above 0, and else the smaller of that number and the maximum.
pub clamp_limit_bounds :
    (raw : Text) (def limit : ℕ)
    → 0 < def
    → def ≤ limit
    → (0 < clamp_limit raw def limit)
      × (clamp_limit raw def limit ≤ limit)
      × (((positive (atoi raw) ≡ none) × (clamp_limit raw def limit ≡ def))
          ⊎ ((n : ℕ) × (positive (atoi raw) ≡ some n) × (clamp_limit raw def limit ≡ min n limit)))
unfolding clamp_limit
clamp_limit_bounds raw def limit h k = elim (Option-cases (positive (atoi raw))) [
  | inl e ↦ rw (e, clamp_limit) (h, k, inl (refl, refl))
  | inr (n, e) ↦
      let low = positive-pos (atoi raw) n e in
      rw (e, clamp_limit) (ground arith, ground arith, inr (n, refl, ground arith))
]
