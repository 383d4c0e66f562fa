-- ===== src/Config.antt =====
-- config/config.go: the configuration document, its defaults and its validation.
pub mod Roles
pub mod Valid
mod Tests
use titanium_graph_api.Base.{
  ℕ, ◌+◌, ◌-◌, ◌*◌, ◌^◌, List, [], ◌∷◌, Text, Bool, true, false, ◌&&◌, ◌||◌, not, Option, none,
  some, length, ltb, leb, ◌==◌, lookup, member, codes, has_prefix, if◌then◌else◌,
}
use titanium_graph_api.Base.Int.{ℤ, pos, negsuc, ltb_ℤ}
use titanium_graph_api.Results.{
  Result, ok, err, ◌>>=◌, ◌>>◌, guard, schema_required, unsupported_algorithm, secret_required,
  key_file_required, no_roles, secret_too_short, unknown_anonymous_role, page_size_exceeds_max,
  negative_cache_seconds,
}
use titanium_graph_api.Catalog.{is_some}
use titanium_graph_api.Config.Roles.{Role}

pub record Database : Type 0 where
  pub host : Text
  pub port : ℤ
  pub user : Text
  pub password : Text
  pub schema : Text
  pub params : Text
  pub max_open_conns : ℤ
  pub max_idle_conns : ℤ
  pub query_timeout_seconds : ℤ
  pub startup_wait_seconds : ℤ

pub record Server : Type 0 where
  pub host : Text
  pub port : ℤ
  pub path : Text
  pub debug : Bool
  pub max_query_depth : ℤ
  pub hot_reload : Bool
  pub reload_interval_seconds : ℤ

pub record RoleLookup : Type 0 where
  pub table : Text
  pub schema : Text
  pub id_claim : Text
  pub id_column : Text
  pub role_column : Text
  pub username_column : Option Text
  pub password_column : Option Text
  pub cache_seconds : ℤ

pub record JwtConfig : Type 0 where
  pub algorithm : Text
  pub secret : Text
  pub public_key_file : Text
  pub issuer : Text
  pub audience : Text
  pub leeway_seconds : ℤ
  pub role_claim : Text
  pub role_lookup : RoleLookup
  pub anonymous_role : Text

pub record SchemaGen : Type 0 where
  pub include : List Text
  pub exclude : List Text
  pub default_page_size : ℤ
  pub max_page_size : ℤ

pub record Config : Type 0 where
  pub version : ℤ
  pub database : Database
  pub server : Server
  pub jwt : JwtConfig
  pub schema_gen : SchemaGen
  pub roles : List (Text × Role)

abbrev pub is_empty : Text → Bool
is_empty [] = true
is_empty (c ∷ s) = false

-- `if x == "" { x = d }` and `if x == 0 { x = d }`
abbrev pub or_text : Text → Text → Text
or_text [] d = d
or_text (c ∷ s) d = c ∷ s

abbrev pub or_int : ℤ → ℕ → ℤ
or_int (pos n) d = if ltb 0 n then pos n else pos d
or_int (negsuc n) d = negsuc n

abbrev pub or_column : Option Text → Text → Option Text
or_column none d = some d
or_column (some c) d = some c

unfoldable pub enabled : RoleLookup → Bool
enabled r = not (is_empty r.table)

unfoldable pub lookup_defaults : Text → RoleLookup → RoleLookup
lookup_defaults schema r =
    if enabled r
    then record r {
      schema = or_text r.schema schema;
      id_claim = or_text r.id_claim (codes "sub");
      id_column = or_text r.id_column (codes "id");
      role_column = or_text r.role_column (codes "role");
      username_column = or_column r.username_column (codes "username");
      password_column = or_column r.password_column (codes "password");
    }
    else r

unfoldable pub database_defaults : Database → Database
database_defaults d = record d {
  host = or_text d.host (codes "127.0.0.1");
  port = or_int d.port 4000;
  user = or_text d.user (codes "root");
  max_open_conns = or_int d.max_open_conns 10;
  max_idle_conns = or_int d.max_idle_conns 5;
  query_timeout_seconds = or_int d.query_timeout_seconds 30;
}

unfoldable pub server_defaults : Server → Server
server_defaults s = record s {
  host = or_text s.host (codes "127.0.0.1");
  port = or_int s.port 8080;
  path = or_text s.path (codes "/graphql");
  max_query_depth = or_int s.max_query_depth 15;
  reload_interval_seconds = or_int s.reload_interval_seconds 2;
}

unfoldable pub apply_defaults : Config → Config
unfolding database_defaults server_defaults
apply_defaults c = record c {
  database = database_defaults c.database;
  server = server_defaults c.server;
  jwt = record (c.jwt) {
    role_claim = or_text c.jwt.role_claim (codes "role");
    role_lookup = lookup_defaults c.database.schema c.jwt.role_lookup;
  };
  schema_gen = record (c.schema_gen) {
    default_page_size = or_int c.schema_gen.default_page_size 25;
    max_page_size = or_int c.schema_gen.max_page_size 200;
  };
}

-- The environment: `os.LookupEnv`; an unset variable reads as the empty text in `os.Getenv`.
abbrev pub Env : Type 0
Env = Text → Option Text

abbrev pub text_or_empty : Option Text → Text
text_or_empty none = []
text_or_empty (some v) = v

abbrev pub getenv : Env → Text → Text
getenv env name = text_or_empty (env name)

-- `strconv.Atoi` followed by the test `n > 0`: the digits of a positive number below 2^63.
abbrev pub digits_from : ℕ → Text → Option ℕ
digits_from n [] = some n
digits_from n (c ∷ s) =
    let rest = digits_from (n * 10 + (c - b'0')) s in
    if leb b'0' c && leb c b'9' then rest else none

abbrev pub unsigned : Text → Option ℕ
unsigned [] = none
unsigned (c ∷ s) = digits_from 0 (c ∷ s)

abbrev pub drop_plus : Text → Text
drop_plus [] = []
drop_plus (c ∷ s) = if c == b'+' then s else c ∷ s

unfoldable pub positive_int : Text → Option ℕ
positive_int s = elim (unsigned (drop_plus s)) [
  | none ↦ none
  | some n ↦ if ltb 0 n && ltb n (2 ^ 63) then some n else none
]

abbrev pub port_override : Option ℕ → ℤ → ℤ
port_override none port = port
port_override (some n) port = pos n

abbrev pub password_override : Option Text → Text → Text
password_override none password = password
password_override (some v) password = v

unfoldable pub apply_env_overrides : Env → Config → Config
apply_env_overrides env c =
    let d = c.database in
    record c {
      database = record d {
        host = or_text (getenv env (codes "GQLGATE_DB_HOST")) d.host;
        port = port_override (positive_int (getenv env (codes "GQLGATE_DB_PORT"))) d.port;
        user = or_text (getenv env (codes "GQLGATE_DB_USER")) d.user;
        password = password_override (env (codes "GQLGATE_DB_PASSWORD")) d.password;
        schema = or_text (getenv env (codes "GQLGATE_DB_SCHEMA")) d.schema;
      };
    }

abbrev pub valid_algorithms : List Text
valid_algorithms =
    codes "HS256"
    ∷ codes "HS384"
    ∷ codes "HS512"
    ∷ codes "RS256"
    ∷ codes "RS384"
    ∷ codes "RS512"
    ∷ codes "ES256"
    ∷ codes "ES384"
    ∷ codes "ES512"
    ∷ []

abbrev pub is_nil {ℓ} : {A : Type ℓ} → List A → Bool
is_nil [] = true
is_nil (x ∷ xs) = false

unfoldable pub is_hmac : Text → Bool
is_hmac algorithm = has_prefix (codes "HS") algorithm

unfoldable pub validate_key : JwtConfig → Result (Unit {0})
validate_key j =
    if is_hmac j.algorithm
    then if is_empty j.secret
      then err secret_required
      else if ltb (length j.secret) 32
      then err (secret_too_short (length j.secret))
      else ok tt
    else if is_empty j.public_key_file
    then err key_file_required
    else ok tt

unfoldable pub validate_anonymous : Text → List (Text × Role) → Result (Unit {0})
validate_anonymous name roles =
    if is_empty name || is_some (lookup name roles)
    then ok tt
    else err (unknown_anonymous_role name)

unfoldable pub validate : Config → Result (Unit {0})
validate c = do
  guard (not (is_empty c.database.schema)) schema_required
  guard (member c.jwt.algorithm valid_algorithms) unsupported_algorithm
  validate_key c.jwt
  guard (not (is_nil c.roles)) no_roles
  validate_anonymous c.jwt.anonymous_role c.roles
  guard (not (ltb_ℤ c.schema_gen.max_page_size c.schema_gen.default_page_size))
      page_size_exceeds_max
  guard (not (enabled c.jwt.role_lookup && ltb_ℤ c.jwt.role_lookup.cache_seconds (pos 0)))
      negative_cache_seconds

-- What `Parse` does with the decoded document.
unfoldable pub finish : Env → Config → Result Config
finish env c = do let full = apply_defaults (apply_env_overrides env c); validate full; ok full
