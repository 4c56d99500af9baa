-- ===== src/Server/Gate/Entry.antt =====
-- Who passes the gate, and what the guest is left with who gives the password.
use photo_server.Base.{
  Bool, true, false, ◌&&◌, ◌||◌, ◌≡◌, ◌↔◌, ◌⊎◌, ◌≢◌, inl, inr, refl, Option, none, some, List, [],
  ◌∷◌, Text, bytes, text_eq, text_eq_iff, is_empty, any, if◌then◌else◌, arith, Bool-cases,
}
use photo_server.Session.{Cookie}
use photo_server.Server.Gate.{
  Access, Request, through, entered, gate, get, del, key_name, is_exempt, matches, access_cookie,
  require_access,
}

matches_iff : (o : Option Text) (t : Text) → (matches o t ≡ true) ↔ (o ≡ some t)
matches_iff none t = (λ h. cc, λ h. cc)
matches_iff (some c) t =
    (λ h. ground (arith, text_eq_iff c t), λ h. ground (arith, text_eq_iff c t))

any-del : (k : Text) (query : List (Text × Text)) → any (λ e. text_eq e.0 k) (del k query) ≡ false
any-del k [] = refl
any-del k ((j, v) ∷ query) = ground (arith, any-del k query)

module _ (digest : Text → Text) (a : Access) where
  -- A request reaches the guest pages exactly when no password is set, its path is one of the open
  -- ones, or it carries the cookie of the password.
  pub through_iff :
      (r : Request)
      → (require_access digest a r ≡ through) ↔ (
          (is_empty a.password ≡ true)
          ⊎ (is_exempt r.path ≡ true)
          ⊎ (r.cookie ≡ some (digest a.password)))
  unfolding require_access
  through_iff r = (
    λ h. ground (arith, matches_iff r.cookie (digest a.password)),
    λ h. ground (arith, matches_iff r.cookie (digest a.password)),
  )

  -- The password was given.
  abbrev pub Presents : Request → Type 0
  Presents r =
      (get key_name r.query ≡ a.password)
      ⊎ ((r.is_post ≡ true) × (r.path ≡ bytes "/access") × (r.form_password ≡ a.password))

  abbrev presented : Request → Bool
  presented r =
      text_eq (get key_name r.query) a.password
      || (r.is_post && text_eq r.path (bytes "/access") && text_eq r.form_password a.password)

  presented-Presents : (r : Request) → presented r ≡ true → Presents r
  presented-Presents r e = ground (
    arith,
    text_eq_iff (get key_name r.query) a.password,
    text_eq_iff r.path (bytes "/access"),
    text_eq_iff r.form_password a.password,
  )

  not_presented : (r : Request) → presented r ≡ false → ¬ Presents r
  not_presented r e p = ground (
    arith,
    text_eq_iff (get key_name r.query) a.password,
    text_eq_iff r.path (bytes "/access"),
    text_eq_iff r.form_password a.password,
  )

  no_match :
      (r : Request)
      → r.cookie ≢ some (digest a.password)
      → matches r.cookie (digest a.password) ≡ false
  no_match r new = ground (arith, matches_iff r.cookie (digest a.password))

  nonempty_key :
      (r : Request)
      → is_empty a.password ≡ false
      → text_eq (get key_name r.query) a.password ≡ true
      → is_empty (get key_name r.query) ≡ false
  nonempty_key r set e = rw ((text_eq_iff (get key_name r.query) a.password).0 e) set

  -- A guest enters only by the password, in the link or in the form; the cookie then set opens every
  -- page of every later request, and the address sent to holds no key.
  pub entered_lem :
      (r later : Request) (c : Cookie) (path : Text) (query : List (Text × Text))
      → require_access digest a r ≡ entered c path query
      → later.cookie ≡ some c.value
      → Presents r
        × (c ≡ access_cookie digest a)
        × (require_access digest a later ≡ through)
        × (any (λ e. text_eq e.0 key_name) query ≡ false)
  unfolding require_access
  entered_lem r later c path query e k = ground (
    arith,
    any-del key_name r.query,
    matches_iff later.cookie (digest a.password),
    text_eq_iff (get key_name r.query) a.password,
    text_eq_iff r.path (bytes "/access"),
    text_eq_iff r.form_password a.password,
  )

  -- With a password set, on a path that is not open and without the cookie: whoever gives the
  -- password enters, where the link pointed or at the start page, and whoever does not is left at
  -- the gate.
  pub behind_gate :
      (r : Request)
      → is_empty a.password ≡ false
      → is_exempt r.path ≡ false
      → r.cookie ≢ some (digest a.password)
      → (Presents r
          × (require_access digest a r ≡ (
              if text_eq (get key_name r.query) a.password
              then entered (access_cookie digest a) r.path (del key_name r.query)
              else entered (access_cookie digest a) (bytes "/") [])))
        ⊎ ((¬ Presents r)
            × ((require_access digest a r ≡ gate 401 true)
                ⊎ (require_access digest a r ≡ gate 200 false)))
  unfolding require_access
  behind_gate r set behind new = elim (Bool-cases (presented r)) [
    | inl e ↦ inl (presented-Presents r e, ground (arith, no_match r new, nonempty_key r set))
    | inr e ↦ inr (not_presented r e, ground (arith, no_match r new))
  ]
