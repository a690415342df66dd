-- ===== src/Oauth/Scopes.antt =====
-- The scope of a service client's token: handlers/oauth2.rs.
use ullav_user_management.Prelude.{
  ℕ, ◌≡◌, ◌∙◌, refl, sym, ap, subst, String, ◌⊎◌, inl, inr, Bool, true, false, not, ◌||◌, same,
  Option, none, some, List, [], ◌∷◌, ◌++◌, any, select, arith, Bool-cases, Chars, codes, same_chars,
  same_chars_iff, if◌then◌else◌, Mem, All, of_any, of_select,
}
use ullav_user_management.Errors.{Result, ok, Result-cases, ◌>>=◌}
use ullav_user_management.Accounts.{User, get_user_by_id}
use ullav_user_management.Words.{is_whitespace, split_whitespace, join}
use ullav_user_management.Words.Laws.{
  IsWord, split_whitespace-join, split_whitespace-IsWord, join-append,
}
use ullav_user_management.Teams.{TeamDb}
use ullav_user_management.Teams.Roles.{user_has_product_access}
use ullav_user_management.Oauth.Clients.{Client, ServiceClient, get_service_client}
use ullav_user_management.Oauth.Service.{
  ServiceContext, ServiceToken, is_empty, with_scope, granted_scopes, gated, product_gate,
  ResourceUrl, host_or_empty, contains, is_port, resource_to_product_gate, client_credentials_grant,
  text_or_empty, gate_of,
}

ok_injective : {A : Type 0} {x y : A} → ok x ≡ ok y → x ≡ y
ok_injective e = cc

select-All :
    (P : Chars → Type 0) (p : Chars → Bool) (ws : List Chars) → All P ws → All P (select p ws)
select-All P p [] h = h
select-All P p (w ∷ ws) h = elim (Bool-cases (p w)) [
  | inl e ↦ rw e (h.0, select-All P p ws h.1)
  | inr e ↦ rw e (select-All P p ws h.1)
]

All-append_one :
    (P : Chars → Type 0) (ws : List Chars) (w : Chars) → All P ws → P w → All P (ws ++ w ∷ [])
All-append_one P [] w h k = (k, tt)
All-append_one P (v ∷ ws) w h k = (h.0, All-append_one P ws w h.1 k)

of_append_one : (w v : Chars) (ws : List Chars) → Mem w (ws ++ v ∷ []) → Mem w ws ⊎ (w ≡ v)
of_append_one w v [] (inl e) = inr (sym e)
of_append_one w v [] (inr i) = absurd i
of_append_one w v (x ∷ ws) (inl e) = inl (inl e)
of_append_one w v (x ∷ ws) (inr i) = elim (of_append_one w v ws i) [
  | inl j ↦ inl (inr j)
  | inr e ↦ inr e
]

split_word : (p : Chars) → IsWord p → split_whitespace p ≡ p ∷ []
unfolding join
split_word p k = split_whitespace-join (p ∷ []) (k, tt)

of_word : (p w : Chars) → IsWord p → Mem w (split_whitespace p) → w ≡ p
of_word p w k i = elim (subst (Mem w) (split_word p k) i) [ inl e ↦ sym e | inr j ↦ absurd j ]

added_words :
    (ws : List Chars) (p w : Chars)
    → All IsWord ws
    → IsWord p
    → Mem w (split_whitespace (if is_empty (join ws) then p else join ws ++ 0x20 ∷ p))
    → Mem w ws ⊎ (w ≡ p)
unfolding join
added_words [] p w h k i = inr (of_word p w k i)
added_words (v ∷ ws) p w h k i = elim (Bool-cases (is_empty (join (v ∷ ws)))) [
  | inl e ↦ inr (of_word p w k (rw e at i))
  | inr e ↦ of_append_one w p (v ∷ ws) (
      subst (Mem w)
        (ap split_whitespace (sym (join-append v ws p))
          ∙ split_whitespace-join ((v ∷ ws) ++ p ∷ []) (All-append_one IsWord (v ∷ ws) p h k))
        (rw e at i))
]

-- The words of a scope to which a product's scope was added.
with_scope_words :
    (ws : List Chars) (p w : Chars)
    → All IsWord ws
    → IsWord p
    → Mem w (split_whitespace (with_scope (join ws) p))
    → Mem w ws ⊎ (w ≡ p)
with_scope_words ws p w h k i =
    elim (Bool-cases (any (λ s. same_chars s p) (split_whitespace (join ws)))) [
      | inl e ↦ inl (subst (Mem w) (split_whitespace-join ws h) (rw e at i))
      | inr e ↦ added_words ws p w h k (rw e at i)
    ]

-- The product scopes are words.
abbrev Worded : Option (String × Chars) → Type 0
Worded none = Unit
Worded (some (product, scope)) = IsWord scope

if-Worded :
    (b : Bool) (x y : Option (String × Chars)) → Worded x → Worded y → Worded (if b then x else y)
if-Worded true x y h k = h
if-Worded false x y h k = k

product_gate-Worded :
    (host : Chars) (port : Option ℕ) (path : String) → Worded (product_gate host port path)
unfolding is_whitespace
product_gate-Worded host port path =
    if-Worded (same path "/cunav/mcp" || contains (codes "cunav") host) _ _ (refl, λ e. cc)
      (if-Worded (same path "/togra/mcp") _ _ (refl, λ e. cc)
        (if-Worded (not (same path "/mcp")) _ _ tt (
          if-Worded
            (contains (codes "comad") host || contains (codes "dam") host || is_port 8080 port) _ _
            (refl, λ e. cc)
            (if-Worded (contains (codes "tack") host) _ _ (refl, λ e. cc)
              (if-Worded (contains (codes "collection") host || is_port 8087 port) _ _
                (refl, λ e. cc) (refl, λ e. cc))))))

gate-Worded :
    (context : ServiceContext) (resource : String)
    → Worded (resource_to_product_gate context resource)
unfolding resource_to_product_gate
gate-Worded context resource = parsed (context.parse_resource resource)
  where
    parsed : (o : Option ResourceUrl) → Worded (gate_of context o)
    parsed none = tt
    parsed (some url) =
        product_gate-Worded (context.to_lowercase (host_or_empty url.host)) url.port url.path

-- The words of a scope after the gate: those before it, or the scope of a product that the user has.
gated_words :
    (context : ServiceContext) (teams : TeamDb) (client_id : String) (user_id : ℕ) (ws : List Chars)
    (gate : Option (String × Chars)) (scope w : Chars)
    → All IsWord ws
    → Worded gate
    → gated context teams client_id user_id (join ws) gate ≡ ok scope
    → Mem w (split_whitespace scope)
    → Mem w ws
      ⊎ ((product : String) × (gate ≡ some (product, w))
          × (user_has_product_access user_id product teams ≡ true))
gated_words context teams client_id user_id ws none scope w h k e i = inl (
    subst (Mem w) (split_whitespace-join ws h)
      (subst (λ s. Mem w (split_whitespace s)) (sym (ok_injective e)) i))
gated_words context teams client_id user_id ws (some (product, p)) scope w h k e i =
    elim (Bool-cases (user_has_product_access user_id product teams)) [
      | inr a ↦ absurd (ground (arith, (rw a at e)))
      | inl a ↦
          elim (with_scope_words ws p w h k
            (subst (λ s. Mem w (split_whitespace s)) (sym (ok_injective (rw a at e))) i)) [
              | inl j ↦ inl j
              | inr q ↦ inr (product, ap (λ s. some (product, s)) (sym q), a)
            ]
    ]

of_granted :
    (allowed : List Chars) (requested w : Chars)
    → Mem w (granted_scopes allowed requested)
    → Mem w allowed
of_granted allowed requested w i =
    let (_, known) =
      of_select (λ s. any (λ a. same_chars a s) allowed) w (split_whitespace requested) i in
    let (a, j, e) = of_any (λ a. same_chars a w) allowed known in
    subst (λ x. Mem x allowed) (ground (arith, e, same_chars_iff a w)) j

-- The end of the grant, from the gate on.
abbrev issue :
    ServiceContext
    → List User
    → TeamDb
    → ServiceClient
    → String
    → String
    → Chars
    → Result ServiceToken
issue context users teams c client_id resource requested =
    gated context teams client_id c.service_account_user_id
      (join (granted_scopes c.allowed_scopes requested)) (resource_to_product_gate context resource)
    >>= λ scope. get_user_by_id users c.service_account_user_id >>= λ user.
        context.mint_access_token user scope resource client_id >>= λ token.
        ok (record { access_token = token; scope = scope })

issued :
    (context : ServiceContext) (users : List User) (teams : TeamDb) (c : ServiceClient)
    (client_id resource : String) (requested : Chars) (token : ServiceToken)
    → issue context users teams c client_id resource requested ≡ ok token
    → gated context teams client_id c.service_account_user_id
        (join (granted_scopes c.allowed_scopes requested))
        (resource_to_product_gate context resource)
      ≡ ok token.scope
issued context users teams c client_id resource requested token h =
    elim (Result-cases (
      gated context teams client_id c.service_account_user_id
        (join (granted_scopes c.allowed_scopes requested))
        (resource_to_product_gate context resource))) [
          | inr (e, g) ↦ absurd (ground (arith, (rw g at h)))
          | inl (scope, g) ↦ elim (Result-cases (get_user_by_id users c.service_account_user_id)) [
            | inr (e, u) ↦ absurd (ground (arith, (rw (g, u) at h)))
            | inl (user, u) ↦
                elim (Result-cases (context.mint_access_token user scope resource client_id)) [
                  | inr (e, m) ↦ absurd (ground (arith, (rw (g, u, m) at h)))
                  | inl (raw, m) ↦
                      g ∙ ap (λ (t : ServiceToken). ok t.scope) (ok_injective (rw (g, u, m) at h))
                ]
          ]
        ]

allowed_words :
    (context : ServiceContext) (users : List User) (teams : TeamDb) (c : ServiceClient)
    (client_id resource : String) (requested : Chars) (token : ServiceToken)
    → issue context users teams c client_id resource requested ≡ ok token
    → (w : Chars) → Mem w (split_whitespace token.scope)
    → Mem w c.allowed_scopes
      ⊎ ((product : String) × (resource_to_product_gate context resource ≡ some (product, w))
          × (user_has_product_access c.service_account_user_id product teams ≡ true))
allowed_words context users teams c client_id resource requested token h w i =
    elim (gated_words context teams client_id c.service_account_user_id
      (granted_scopes c.allowed_scopes requested) (resource_to_product_gate context resource)
      token.scope w
      (select-All IsWord _ (split_whitespace requested) (split_whitespace-IsWord requested))
      (gate-Worded context resource)
      (issued context users teams c client_id resource requested token h) i) [
        | inl j ↦ inl (of_granted c.allowed_scopes requested w j)
        | inr g ↦ inr g
      ]

-- A service client gets a token only for a known client with the right secret. Each word of its scope is one
-- of the scopes allowed to the client, or it is the scope of the product of the resource, and then the client's
-- account is an active member of a team with that product.
pub client_credentials_grant_scope :
    (context : ServiceContext) (clients : List Client) (users : List User) (teams : TeamDb)
    (client_id client_secret resource : String) (form_scope : Option Chars) (token : ServiceToken)
    → client_credentials_grant context clients users teams
        (some client_id)
        (some client_secret)
        (some resource)
        form_scope
      ≡ ok token
    → (c : ServiceClient) × (get_service_client clients client_id ≡ ok c)
      × (context.verify_password client_secret c.client_secret_hash ≡ ok true)
      × ((w : Chars)
          → Mem w (split_whitespace token.scope)
          → Mem w c.allowed_scopes
            ⊎ ((product : String) × (resource_to_product_gate context resource ≡ some (product, w))
                × (user_has_product_access c.service_account_user_id product teams ≡ true)))
unfolding client_credentials_grant
client_credentials_grant_scope context clients users teams client_id client_secret resource
      form_scope token h =
    elim (Result-cases (get_service_client clients client_id)) [
      | inr (e, c) ↦ absurd (ground (arith, (rw c at h)))
      | inl (c, known) ↦
          elim (Result-cases (context.verify_password client_secret c.client_secret_hash)) [
            | inr (e, v) ↦ absurd (ground (arith, (rw (known, v) at h)))
            | inl (false, v) ↦ absurd (ground (arith, (rw (known, v) at h)))
            | inl (true, v) ↦ (
              c,
              known,
              v,
              allowed_words context users teams c client_id resource (text_or_empty form_scope)
                  token (rw (known, v) at h),
            )
          ]
    ]
