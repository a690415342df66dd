-- ===== src/Oauth/Redirects.antt =====
-- Which redirect URIs a client may use (RFC 8252, section 7.3).
use ullav_user_management.Prelude.{
  String, ◌≡◌, ◌↔◌, ◌⊎◌, inl, inr, refl, Bool, true, false, Option, none, some, List, [], ◌∷◌,
  arith, eq_iff, any, Any, Bool-cases, of_and, to_and, ap, ◌∙◌,
}
use ullav_user_management.Oauth.Grants.{
  Url, is_local_host, is_loopback, matches_loopback, matches_registered, redirect_uri_allowed,
}

abbrev pub IsLoopback : Url → Type 0
IsLoopback url =
    (url.scheme ≡ "http") × ((url.host ≡ some "localhost") ⊎ (url.host ≡ some "127.0.0.1"))

local_host_iff :
    (host : Option String)
    → (is_local_host host ≡ true) ↔ ((host ≡ some "localhost") ⊎ (host ≡ some "127.0.0.1"))
local_host_iff none = ground arith
local_host_iff (some h) = ground (arith, eq_iff h "localhost", eq_iff h "127.0.0.1")

IsLoopback-iff : (url : Url) → (is_loopback url ≡ true) ↔ IsLoopback url
IsLoopback-iff url = ground (arith, eq_iff url.scheme "http", local_host_iff url.host)

any_iff :
    {A : Type 0} (p : A → Bool) (P : A → Type 0)
    → ((x : A) → (p x ≡ true) ↔ P x)
    → (xs : List A) → (any p xs ≡ true) ↔ Any P xs
any_iff p P h [] = ground arith
any_iff p P h (x ∷ xs) = ground (arith, h x, any_iff p P h xs)

matches_iff :
    (url : Url) (o : Option Url)
    → (matches_loopback url o ≡ true)
      ↔ ((r : Url) × (o ≡ some r) × IsLoopback r × (r.path ≡ url.path))
matches_iff url none = (λ h. absurd (ground (arith, h)), λ (r, e, _, _). absurd (ground (arith, e)))
matches_iff url (some s) = (
  λ h. (s, refl, (IsLoopback-iff s).0 (of_and h).0, (eq_iff s.path url.path).0 (of_and h).1),
  λ (r, e, l, p).
      let same_row = some-injective e in
      to_and (ap is_loopback same_row ∙ (IsLoopback-iff r).1 l)
        ((eq_iff s.path url.path).1 (ap (λ (u : Url). u.path) same_row ∙ p)),
)
  where
    some-injective : {a b : Url} → some a ≡ some b → a ≡ b
    some-injective {a = a} {b = b} e = ap (λ o. elim o [ none ↦ a | some u ↦ u ]) e

no_loopback : (url : Url) → url.scheme ≡ "https" → is_loopback url ≡ false
no_loopback url h = rw h refl

module _ (parse_url : String → Option Url) (requested : String) (url : Url) where
  -- The request is for a loopback URI and the registered one is a loopback URI with the same path, of any port, or the
  -- request is for the very URI, of the scheme https.
  abbrev pub Admits : String → Type 0
  Admits registered =
      IsLoopback url
        × ((r : Url) × (parse_url registered ≡ some r) × IsLoopback r × (r.path ≡ url.path))
      ⊎ (url.scheme ≡ "https") × (registered ≡ requested)

  Admits-iff :
      (registered : String)
      → (matches_registered parse_url requested url registered ≡ true) ↔ Admits registered
  Admits-iff registered = elim (Bool-cases (is_loopback url)) [
    | inl e ↦ rw e (
      λ h. inl ((IsLoopback-iff url).0 e, (matches_iff url (parse_url registered)).0 h),
      λ a. elim a [
        | inl (_, m) ↦ (matches_iff url (parse_url registered)).1 m
        | inr (s, _) ↦ absurd (cc (e, no_loopback url s))
      ],
    )
    | inr e ↦ rw e (
      λ h. inr (
        (eq_iff url.scheme "https").0 (of_and h).0,
        (eq_iff registered requested).0 (of_and h).1,
      ),
      λ a. elim a [
        | inl (l, _) ↦ absurd (cc (e, (IsLoopback-iff url).1 l))
        | inr (s, r) ↦ to_and ((eq_iff url.scheme "https").1 s) ((eq_iff registered requested).1 r)
      ],
    )
  ]

  -- A redirect URI that parses is allowed exactly if one of the client's registered URIs admits it.
  pub redirect_uri_allowed_iff :
      (client_uris : List String)
      → parse_url requested ≡ some url
      → (redirect_uri_allowed parse_url client_uris requested ≡ true) ↔ Any Admits client_uris
  unfolding redirect_uri_allowed
  redirect_uri_allowed_iff client_uris parsed =
      rw parsed (any_iff (matches_registered parse_url requested url) Admits Admits-iff client_uris)
