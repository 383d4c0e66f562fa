-- ===== src/Auth/Pinned.antt =====
-- The verifier that New builds fits the configuration.
use titanium_graph_api.Base.{
  ◌≤◌, ◌≡◌, refl, List, [], ◌∷◌, Text, true, false, codes, has_prefix, length, Option,
}
use titanium_graph_api.Results.{
  ok, err, ◌>>=◌, Ensures, Ensures-bind, Ensures-if, Ensures-eq-ok, wrong_key_type,
}
use titanium_graph_api.Schema.Queries.Clauses.{any_Ensures}
use titanium_graph_api.Config.{JwtConfig, Config, is_hmac, validate}
use titanium_graph_api.Config.Valid.{HasKey, validate_iff}
use titanium_graph_api.Auth.{
  PublicKey, rsa, ec, other_key, Key, secret, public, KeySource, load_public_key, check_key,
  choose_key, parser_options, Verifier, new_verifier, RoleResolver,
}

-- The kind of key that an algorithm works with. A secret has 32 bytes or more.
abbrev pub Fits : JwtConfig → Key → Type 0
Fits cfg (secret s) =
    (has_prefix (codes "HS") cfg.algorithm ≡ true) × (s ≡ cfg.secret) × (32 ≤ length s)
Fits cfg (public (rsa k)) =
    (has_prefix (codes "HS") cfg.algorithm ≡ false) × (has_prefix (codes "RS") cfg.algorithm ≡ true)
Fits cfg (public (ec k)) =
    (has_prefix (codes "HS") cfg.algorithm ≡ false) × (has_prefix (codes "ES") cfg.algorithm ≡ true)
Fits cfg (public (other_key k)) = ⊥

pub record IsPinned {R : Type 0} (cfg : JwtConfig) (role_names : List Text) (v : Verifier R)
    : Type 0 where
  pub config : v.cfg ≡ cfg
  pub methods : v.parser.valid_methods ≡ cfg.algorithm ∷ []
  pub expires : v.parser.expiration_required ≡ true
  pub key : Fits cfg v.key
  pub roles : v.roles ≡ role_names

check_key-Fits :
    (cfg : JwtConfig) (key : PublicKey)
    → has_prefix (codes "HS") cfg.algorithm ≡ false
    → Ensures (Fits cfg) (check_key cfg.algorithm key)
unfolding check_key
check_key-Fits cfg (rsa k) h =
    Ensures-if (Fits cfg) (has_prefix (codes "RS") cfg.algorithm) (ok (public (rsa k)))
      (err (wrong_key_type cfg.algorithm)) (λ e. (h, e)) (λ e. tt)
check_key-Fits cfg (ec k) h =
    Ensures-if (Fits cfg) (has_prefix (codes "ES") cfg.algorithm) (ok (public (ec k)))
      (err (wrong_key_type cfg.algorithm)) (λ e. (h, e)) (λ e. tt)
check_key-Fits cfg (other_key k) h = tt

secret_length :
    (cfg : JwtConfig)
    → HasKey cfg (is_hmac cfg.algorithm)
    → has_prefix (codes "HS") cfg.algorithm ≡ true
    → 32 ≤ length cfg.secret
unfolding is_hmac
secret_length cfg h e = rw e at h

choose_key-Fits :
    (src : KeySource) (cfg : JwtConfig)
    → HasKey cfg (is_hmac cfg.algorithm)
    → Ensures (Fits cfg) (choose_key src cfg)
unfolding choose_key
choose_key-Fits src cfg k =
    Ensures-if (Fits cfg) (has_prefix (codes "HS") cfg.algorithm) (ok (secret cfg.secret))
      (load_public_key src cfg.public_key_file >>= λ key. check_key cfg.algorithm key)
      (λ e. (e, refl, secret_length cfg k e))
      (λ e.
        Ensures-bind (λ key. Unit {0}) (Fits cfg) (load_public_key src cfg.public_key_file) _
          (any_Ensures (load_public_key src cfg.public_key_file))
          (λ key h. check_key-Fits cfg key e))

-- The verifier built for a valid configuration makes the token parser accept the configured
-- algorithm only and refuse tokens without an expiry, and its key is of the kind of that algorithm:
-- the configured secret, of at least 32 bytes, for HS, and otherwise an RSA key for RS or an EC key
-- for ES.
pub new_verifier-IsPinned :
    {R : Type 0} (src : KeySource) (c : Config) (role_names : List Text)
    (resolver : Option (RoleResolver R)) {v : Verifier R}
    → validate c ≡ ok tt
    → new_verifier R src c.jwt role_names resolver ≡ ok v
    → IsPinned c.jwt role_names v
unfolding new_verifier parser_options
new_verifier-IsPinned {R = R} src c role_names resolver valid h =
    Ensures-eq-ok (IsPinned {R = R} c.jwt role_names) _
      (Ensures-bind (Fits c.jwt) (IsPinned {R = R} c.jwt role_names) (choose_key src c.jwt) _
        (choose_key-Fits src c.jwt ((validate_iff c).0 valid).key)
        (λ key fits. record {
          config = refl;
          methods = refl;
          expires = refl;
          key = fits;
          roles = refl;
        }))
      h
