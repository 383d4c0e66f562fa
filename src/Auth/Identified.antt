-- ===== src/Auth/Identified.antt =====
-- Whom Identify lets in, and with which status it turns the others away.
use titanium_graph_api.Base.{
  ◌≡◌, ◌≢◌, ◌⊎◌, inl, inr, refl, sym, ap, ◌∙◌, List, [], ◌∷◌, Text, true, false, Option, none, some,
  lookup, member, map, text_eq, Bool-cases,
}
use titanium_graph_api.Value.{Value, str, as_str, Fields, end}
use titanium_graph_api.Results.{
  Result, ok, err, Error, ok-injective, claim_not_text, missing_claim, role_not_configured,
}
use titanium_graph_api.Config.{Config, validate}
use titanium_graph_api.Config.Roles.{Role}
use titanium_graph_api.Config.Valid.{IsUsable, validate_iff}
use titanium_graph_api.Rbac.{Identity, lookup_claim}
use titanium_graph_api.Auth.{
  KeySource, Verifier, RoleResolver, new_verifier, Outcome, identified, rejected, TokenParser,
  anonymous, if_configured, looked_up, text_claim, claimed, bearer_token, with_role, with_claims,
  with_token, identify,
}
use titanium_graph_api.Auth.Pinned.{IsPinned, new_verifier-IsPinned}

some_eq : {o : Option Value} {a b : Value} → o ≡ some a → o ≡ some b → a ≡ b
some_eq e h = cc

as_str_eq : (x : Value) {role : Text} → as_str x ≡ some role → x ≡ str role
as_str_eq (str s) e = cc
as_str_eq _ e = cc

no_text : (x : Value) (role : Text) → as_str x ≡ none → x ≢ str role
no_text (str s) role e h = cc
no_text _ role e h = cc

some_str : {x : Value} {role other : Text} → x ≡ str role → x ≡ str other → other ≡ role
some_str e h = cc

module _ {R : Type 0} (parse : TokenParser) (v : Verifier R) (s : R) where
  -- The role that the claims of a valid token give: from the resolver, where there is one, and
  -- otherwise from the claim at the configured path.
  abbrev pub GivesRole : Option (RoleResolver R) → Fields → Text → Type 0
  GivesRole none claims role = lookup_claim claims v.cfg.role_claim ≡ some (str role)
  GivesRole (some resolve) claims role = (resolve s claims).1 ≡ ok role

  abbrev pub IsValidToken : Text → Fields → Type 0
  IsValidToken header claims =
      (token : Text) × (bearer_token header ≡ some token) × (parse v.parser v.key token ≡ ok claims)

  -- A caller without a header has the anonymous role and no claims; a caller with a valid token has
  -- its claims and the role that they give, which is one of the verifier's.
  abbrev pub MayBe : Option (RoleResolver R) → Text → Identity → Type 0
  MayBe resolver header id =
      ((header ≡ []) × (id.role ≡ v.cfg.anonymous_role) × (id.role ≢ []) × (id.claims ≡ end))
      ⊎ ((header ≢ [])
          × IsValidToken header id.claims
          × GivesRole resolver id.claims id.role
          × (member id.role v.roles ≡ true))

  -- No credentials: neither a header, where nobody is anonymous, nor a valid token in it.
  abbrev pub HasNone : Text → Type 0
  HasNone header =
      ((header ≡ []) × (v.cfg.anonymous_role ≡ []))
      ⊎ ((header ≢ []) × ((claims : Fields) → ¬ IsValidToken header claims))

  -- A valid token that gives none of the verifier's roles.
  abbrev pub HasNoRole : Option (RoleResolver R) → Text → Type 0
  HasNoRole resolver header =
      (header ≢ [])
      × ((claims : Fields) × IsValidToken header claims
          × ((role : Text) → GivesRole resolver claims role → member role v.roles ≡ false))

  abbrev pub Judges : Option (RoleResolver R) → Text → Outcome → Type 0
  Judges resolver header (identified id) = MayBe resolver header id
  Judges resolver header (rejected status e) =
      ((status ≡ 401) × HasNone header) ⊎ ((status ≡ 403) × HasNoRole resolver header)

  -- The lemmas for one valid token.
  module _ (header : Text) (ne : header ≢ []) (claims : Fields)
      (t : IsValidToken header claims) where
    nobody :
        (o : Option (RoleResolver R)) (e : Error)
        → ((role : Text) → GivesRole o claims role → member role v.roles ≡ false)
        → Judges o header (rejected 403 e)
    nobody o e none_given = inr (refl, (ne, (claims, t, none_given)))

    if_configured-Judges :
        (o : Option (RoleResolver R)) (role : Text)
        → GivesRole o claims role
        → ((other : Text) → GivesRole o claims other → other ≡ role)
        → Judges o header (if_configured v.roles claims role)
    if_configured-Judges o role g unique = elim (Bool-cases (member role v.roles)) [
      | inl e ↦ rw e (inr (ne, t, g, e))
      | inr e ↦ rw e (nobody o (role_not_configured role) (λ other h. rw (unique other h) e))
    ]

    claimed-Judges :
        (o : Option Value)
        → lookup_claim claims v.cfg.role_claim ≡ o
        → Judges none header (claimed v.roles claims v.cfg.role_claim o)
    claimed-Judges none e = nobody none (missing_claim v.cfg.role_claim) (λ role h. cc)
    claimed-Judges (some x) e = text_claim-Judges x (as_str x) refl e
      where
        text_claim-Judges :
            (x : Value) (o : Option Text)
            → as_str x ≡ o
            → lookup_claim claims v.cfg.role_claim ≡ some x
            → Judges none header (text_claim v.roles claims v.cfg.role_claim o)
        text_claim-Judges x none n e =
            nobody none (claim_not_text v.cfg.role_claim)
              (λ role h. absurd (no_text x role n (some_eq e h)))
        text_claim-Judges x (some role) n e =
            if_configured-Judges none role (rw (← as_str_eq x n) e)
              (λ other h. some_str (as_str_eq x n) (some_eq e h))

    looked_up-Judges :
        (resolve : RoleResolver R) (r : Result Text)
        → (resolve s claims).1 ≡ r
        → Judges (some resolve) header (looked_up v.roles claims r)
    looked_up-Judges resolve (err x) e = nobody (some resolve) x (λ role h. cc)
    looked_up-Judges resolve (ok role) e =
        if_configured-Judges (some resolve) role e (λ other h. ok-injective (cc))

    with_role-Judges : (o : Option (RoleResolver R)) → Judges o header (with_role v o s claims).1
    with_role-Judges none = claimed-Judges (lookup_claim claims v.cfg.role_claim) refl
    with_role-Judges (some resolve) = looked_up-Judges resolve (resolve s claims).1 refl

  no_token :
      (header : Text)
      → bearer_token header ≡ none
      → (claims : Fields) → ¬ IsValidToken header claims
  no_token header e claims (token, h, p) = cc

  bad_token :
      (header token : Text) (x : Error)
      → bearer_token header ≡ some token
      → parse v.parser v.key token ≡ err x
      → (claims : Fields) → ¬ IsValidToken header claims
  bad_token header token x e p claims (other, h, q) = cc

  with_claims-Judges :
      (header token : Text) (r : Result Fields)
      → bearer_token header ≡ some token
      → parse v.parser v.key token ≡ r
      → header ≢ []
      → Judges v.resolver header (with_claims v s r).1
  with_claims-Judges header token (err x) e p ne =
      inl (refl, inr (ne, bad_token header token x e p))
  with_claims-Judges header token (ok claims) e p ne =
      with_role-Judges header ne claims (token, e, p) v.resolver

  with_token-Judges :
      (header : Text) (o : Option Text)
      → bearer_token header ≡ o
      → header ≢ []
      → Judges v.resolver header (with_token parse v s o).1
  with_token-Judges header none e ne = inl (refl, inr (ne, no_token header e))
  with_token-Judges header (some token) e ne =
      with_claims-Judges header token (parse v.parser v.key token) e refl ne

  anonymous-Judges :
      (role : Text) → v.cfg.anonymous_role ≡ role → Judges v.resolver [] (anonymous role)
  anonymous-Judges [] e = inl (refl, inl (refl, e))
  anonymous-Judges (c ∷ t) e = inl (refl, sym e, (λ n. cc), refl)

  -- A caller without a header is identified as the anonymous role with no claims, where there is
  -- one; a caller with a bearer token that the parser accepts, as the role that the resolver or the
  -- role claim gives for the token's claims, if the verifier knows it. Every other caller is
  -- rejected: with 401 if there is no valid token, and with 403 if there is a valid token, but it
  -- gives none of the known roles.
  pub identify_lem : (header : Text) → Judges v.resolver header (identify parse v s header).1
  unfolding identify
  identify_lem [] = anonymous-Judges v.cfg.anonymous_role refl
  identify_lem (c ∷ t) = with_token-Judges (c ∷ t) (bearer_token (c ∷ t)) refl (λ e. cc)

member-map :
    (k : Text) (m : List (Text × Role)) → member k (map (λ e. e.0) m) ≡ true → lookup k m ≢ none
unfolding member lookup
member-map k [] h e = cc
member-map k ((j, r) ∷ m) h e = elim (Bool-cases (text_eq j k)) [
  | inl same ↦ cc (rw same at e)
  | inr other ↦ member-map k m (rw other at h) (rw other at e)
]

identified-injective : {a b : Identity} → identified a ≡ identified b → b ≡ a
identified-injective e = cc

MayBe-IsConfigured :
    {R : Type 0} (parse : TokenParser) (v : Verifier R) (s : R) (c : Config) (header : Text)
    (id : Identity)
    → IsUsable c
    → IsPinned c.jwt (map (λ e. e.0) c.roles) v
    → MayBe parse v s v.resolver header id
    → lookup id.role c.roles ≢ none
MayBe-IsConfigured parse v s c header id u p (inl (n, r, ne, cl)) =
    let same : id.role ≡ c.jwt.anonymous_role = r ∙ ap (λ j. j.anonymous_role) p.config in
    rw same (u.anonymous (rw same at ne))
MayBe-IsConfigured parse v s c header id u p (inr (n, t, g, m)) =
    member-map id.role c.roles (rw p.roles at m)

IsConfigured-Judges :
    {R : Type 0} (parse : TokenParser) (v : Verifier R) (s : R) (c : Config) (header : Text)
    (o : Outcome) (id : Identity)
    → IsUsable c
    → IsPinned c.jwt (map (λ e. e.0) c.roles) v
    → o ≡ identified id
    → Judges parse v s v.resolver header o
    → lookup id.role c.roles ≢ none
IsConfigured-Judges parse v s c header (rejected status x) id u p e j = cc
IsConfigured-Judges parse v s c header (identified other) id u p e j =
    rw (identified-injective e) (MayBe-IsConfigured parse v s c header other u p j)

-- With the verifier built for a valid configuration and the names of its roles, the role of every
-- identified caller, an anonymous one too, is a role of the configuration.
pub identify-IsConfigured :
    {R : Type 0} (src : KeySource) (c : Config) (resolver : Option (RoleResolver R))
    (v : Verifier R) (parse : TokenParser) (s : R) (header : Text) (id : Identity)
    → validate c ≡ ok tt
    → new_verifier R src c.jwt (map (λ e. e.0) c.roles) resolver ≡ ok v
    → (identify parse v s header).1 ≡ identified id
    → lookup id.role c.roles ≢ none
identify-IsConfigured src c resolver v parse s header id valid built h =
    IsConfigured-Judges parse v s c header (identify parse v s header).1 id
      ((validate_iff c).0 valid)
      (new_verifier-IsPinned src c (map (λ e. e.0) c.roles) resolver valid built) h
      (identify_lem parse v s header)
