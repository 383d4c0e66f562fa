-- ===== src/Config/Valid.antt =====
-- What a configuration satisfies once it has passed `Parse`.
use titanium_graph_api.Base.{
  ℕ, ◌≤◌, ◌≡◌, ◌≢◌, ◌↔◌, refl, List, [], ◌∷◌, Text, Bool, true, false, ◌&&◌, not, Option, none,
  some, length, lookup, member, arith, codes, ltb, Bool-cases, Option-cases, inl, inr,
  if◌then◌else◌,
}
use titanium_graph_api.Base.Int.{ℤ, pos, ◌≤ℤ◌, ltb_ℤ}
use titanium_graph_api.Results.{
  ok, err, guard, ok-injective, guard-eq-ok, >>-eq-ok, page_size_exceeds_max,
  negative_cache_seconds, secret_required, secret_too_short, key_file_required,
}
use titanium_graph_api.Config.Roles.{Role}
use titanium_graph_api.Config.{
  RoleLookup, JwtConfig, Config, is_empty, or_text, or_int, or_column, enabled, is_nil, is_hmac,
  valid_algorithms, lookup_defaults, apply_defaults, Env, apply_env_overrides, validate_key,
  validate_anonymous, validate, finish,
}

-- A key of the kind that the algorithm needs.
abbrev pub HasKey : JwtConfig → Bool → Type 0
HasKey j true = 32 ≤ length j.secret
HasKey j false = j.public_key_file ≢ []

pub record IsUsable (c : Config) : Type 0 where
  pub schema : c.database.schema ≢ []
  pub algorithm : member c.jwt.algorithm valid_algorithms ≡ true
  pub key : HasKey c.jwt (is_hmac c.jwt.algorithm)
  pub roles : c.roles ≢ []
  pub anonymous : c.jwt.anonymous_role ≢ [] → lookup c.jwt.anonymous_role c.roles ≢ none
  pub page_sizes : c.schema_gen.default_page_size ≤ℤ c.schema_gen.max_page_size
  pub cache : enabled c.jwt.role_lookup ≡ true → pos 0 ≤ℤ c.jwt.role_lookup.cache_seconds

is_empty-eq-false : (s : Text) → not (is_empty s) ≡ true → s ≢ []
is_empty-eq-false [] h = cc
is_empty-eq-false (c ∷ s) h = cc

not-is_empty : (s : Text) → s ≢ [] → not (is_empty s) ≡ true
not-is_empty [] h = absurd (h refl)
not-is_empty (c ∷ s) h = refl

secret_iff :
    (s : Text)
    → ((if is_empty s
          then err secret_required
          else if ltb (length s) 32
          then err (secret_too_short (length s))
          else ok tt)
        ≡ ok (tt {0}))
      ↔ (32 ≤ length s)
secret_iff [] = (λ h. cc, λ h. absurd (omega arith))
secret_iff (c ∷ s) = ground arith

file_iff :
    (s : Text) → ((if is_empty s then err key_file_required else ok tt) ≡ ok (tt {0})) ↔ (s ≢ [])
file_iff [] = (λ h. cc, λ h. absurd (h refl))
file_iff (c ∷ s) = (λ h k. cc, λ h. refl)

is_nil-eq-false {ℓ} : {A : Type ℓ} (xs : List A) → not (is_nil xs) ≡ true → xs ≢ []
is_nil-eq-false [] h = cc
is_nil-eq-false (c ∷ s) h = λ e. cc

not-is_nil {ℓ} : {A : Type ℓ} (xs : List A) → xs ≢ [] → not (is_nil xs) ≡ true
not-is_nil [] h = absurd (h refl)
not-is_nil (c ∷ s) h = refl

not-ltb_ℤ_iff : (a b : ℤ) → (not (ltb_ℤ a b) ≡ true) ↔ (b ≤ℤ a)
not-ltb_ℤ_iff a b = ground arith

cache_iff : (b : Bool) (n : ℤ) → (not (b && ltb_ℤ n (pos 0)) ≡ true) ↔ (b ≡ true → pos 0 ≤ℤ n)
cache_iff true n =
    ((λ h _. (not-ltb_ℤ_iff n (pos 0)).0 h), λ h. (not-ltb_ℤ_iff n (pos 0)).1 (h refl))
cache_iff false n = (λ h e. cc, λ h. refl)

validate_key_iff : (j : JwtConfig) → (validate_key j ≡ ok tt) ↔ HasKey j (is_hmac j.algorithm)
unfolding validate_key
validate_key_iff j = elim (Bool-cases (is_hmac j.algorithm)) [
  | inl e ↦ rw e (secret_iff j.secret)
  | inr e ↦ rw e (file_iff j.public_key_file)
]

validate_anonymous_iff :
    (name : Text) (roles : List (Text × Role))
    → (validate_anonymous name roles ≡ ok tt) ↔ (name ≢ [] → lookup name roles ≢ none)
unfolding validate_anonymous
validate_anonymous_iff [] roles = (λ h k. absurd (k refl), λ h. refl)
validate_anonymous_iff (c ∷ s) roles = elim (Option-cases (lookup (c ∷ s) roles)) [
  | inl e ↦ (λ h. cc (rw e at h), λ h. absurd (h (cc) e))
  | inr (r, e) ↦ (λ h k n. cc, λ h. rw e)
]

validate-IsUsable : (c : Config) → validate c ≡ ok tt → IsUsable c
unfolding validate
validate-IsUsable c h =
    let (schema, h1) = >>-eq-ok _ _ h in
    let (alg, h2) = >>-eq-ok _ _ h1 in
    let (key, h3) = >>-eq-ok _ _ h2 in
    let (roles, h4) = >>-eq-ok _ _ h3 in
    let (anon, h5) = >>-eq-ok _ _ h4 in
    let (pages, cache) =
      >>-eq-ok
        (guard (not (ltb_ℤ c.schema_gen.max_page_size c.schema_gen.default_page_size))
          page_size_exceeds_max)
        (guard (not (enabled c.jwt.role_lookup && ltb_ℤ c.jwt.role_lookup.cache_seconds (pos 0)))
          negative_cache_seconds)
        h5 in
    record {
      schema = is_empty-eq-false c.database.schema (guard-eq-ok _ _ schema);
      algorithm = guard-eq-ok _ _ alg;
      key = (validate_key_iff c.jwt).0 key;
      roles = is_nil-eq-false c.roles (guard-eq-ok _ _ roles);
      anonymous = (validate_anonymous_iff _ _).0 anon;
      page_sizes =
          (not-ltb_ℤ_iff c.schema_gen.max_page_size c.schema_gen.default_page_size).0
            (guard-eq-ok _ page_size_exceeds_max pages);
      cache = λ e. (cache_iff _ _).0 (guard-eq-ok _ negative_cache_seconds cache) e;
    }

IsUsable-validate : (c : Config) → IsUsable c → validate c ≡ ok tt
unfolding validate
IsUsable-validate c u = rw (
  not-is_empty c.database.schema u.schema,
  u.algorithm,
  (validate_key_iff c.jwt).1 u.key,
  not-is_nil c.roles u.roles,
  (validate_anonymous_iff _ _).1 u.anonymous,
  (not-ltb_ℤ_iff _ _).1 u.page_sizes,
  (cache_iff (enabled c.jwt.role_lookup) c.jwt.role_lookup.cache_seconds).1 u.cache,
)

-- Validation accepts a configuration exactly if it is usable: there are a database schema, a known
-- signing algorithm with a secret of at least 32 bytes or a public-key file, and some role; the
-- anonymous role, if set, is one of the roles; the default page size is at most the maximum; and the
-- cache time of the role lookup, if that is enabled, is not negative.
pub validate_iff : (c : Config) → (validate c ≡ ok tt) ↔ IsUsable c
validate_iff c = (validate-IsUsable c, IsUsable-validate c)

or_text_twice : (s d : Text) → or_text (or_text s d) d ≡ or_text s d
or_text_twice [] [] = refl
or_text_twice [] (c ∷ d) = refl
or_text_twice (c ∷ s) d = refl

or_int_twice : (n : ℤ) (d : ℕ) → or_int (or_int n d) d ≡ or_int n d
or_int_twice n d = ground arith

or_column_twice : (o : Option Text) (d : Text) → or_column (or_column o d) d ≡ or_column o d
or_column_twice none d = refl
or_column_twice (some c) d = refl

lookup_defaults-enabled :
    (schema : Text) (r : RoleLookup) → enabled (lookup_defaults schema r) ≡ enabled r
unfolding lookup_defaults enabled
lookup_defaults-enabled schema r = elim (Bool-cases (not (is_empty r.table))) [
  | inl e ↦ rw (e, e)
  | inr e ↦ rw (e, e)
]

lookup_defaults_twice :
    (schema : Text) (r : RoleLookup)
    → lookup_defaults schema (lookup_defaults schema r) ≡ lookup_defaults schema r
unfolding lookup_defaults enabled
lookup_defaults_twice schema r = elim (Bool-cases (not (is_empty r.table))) [
  | inl e ↦ rw (e, e) (simp (or_text_twice, or_column_twice))
  | inr e ↦ rw (e, e)
]

-- The defaults fill in missing settings only: a second pass changes nothing.
apply_defaults_idempotent : (c : Config) → apply_defaults (apply_defaults c) ≡ apply_defaults c
unfolding apply_defaults
apply_defaults_idempotent c = simp (lookup_defaults_twice, or_text_twice, or_int_twice)

finish-eq-ok :
    (env : Env) (c : Config) {full : Config}
    → finish env c ≡ ok full
    → (validate full ≡ ok tt) × (apply_defaults (apply_env_overrides env c) ≡ full)
unfolding finish
finish-eq-ok env c h =
    let (valid, same) = >>-eq-ok (validate (apply_defaults (apply_env_overrides env c))) _ h in
    (rw (← ok-injective same) valid, ok-injective same)

or_text_given : (s d : Text) → s ≢ [] → or_text s d ≡ s
or_text_given [] d h = absurd (h refl)
or_text_given (c ∷ s) d h = refl

-- A configuration that `Parse` returns is usable, and the database settings of the environment win
-- over the document: the password whenever it is set, the others unless they are empty.
finish_lem :
    (env : Env) (c : Config) {full : Config}
    → finish env c ≡ ok full
    → IsUsable full
      × ((p : Text) → env (codes "GQLGATE_DB_PASSWORD") ≡ some p → full.database.password ≡ p)
      × ((h : Text) → h ≢ [] → env (codes "GQLGATE_DB_HOST") ≡ some h → full.database.host ≡ h)
      × ((h : Text) → h ≢ [] → env (codes "GQLGATE_DB_USER") ≡ some h → full.database.user ≡ h)
      × ((h : Text) → h ≢ [] → env (codes "GQLGATE_DB_SCHEMA") ≡ some h → full.database.schema ≡ h)
unfolding apply_defaults apply_env_overrides
finish_lem env c h =
    let (valid, same) = finish-eq-ok env c h in
    (
      validate-IsUsable _ valid,
      λ p e. rw (← same) (rw e),
      λ t ne e.
          rw (← same)
            (rw (e, or_text_given t c.database.host ne) (or_text_given t (codes "127.0.0.1") ne)),
      λ t ne e.
          rw (← same)
            (rw (e, or_text_given t c.database.user ne) (or_text_given t (codes "root") ne)),
      λ t ne e. rw (← same) (rw (e, or_text_given t c.database.schema ne)),
    )
