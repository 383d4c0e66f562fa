-- ===== src/Config/Tests.antt =====
-- A sample configuration, and the theorems at it.
use titanium_graph_api.Base.{
  ◌≡◌, ◌↔◌, refl, [], ◌∷◌, codes, some, none, false, text_eq, if◌then◌else◌, member, has_prefix,
  lookup,
}
use titanium_graph_api.Base.Int.{pos}
use titanium_graph_api.Results.{ok}
use titanium_graph_api.Config.{
  Config, Env, validate, validate_key, validate_anonymous, is_hmac, apply_defaults,
  apply_env_overrides, finish, enabled, lookup_defaults, positive_int,
}
use titanium_graph_api.Config.Valid.{IsUsable, validate_iff}

run : Unit {0}
unfolding validate validate_key validate_anonymous is_hmac apply_defaults apply_env_overrides finish
    enabled lookup_defaults positive_int text_eq member has_prefix lookup
run = tt

abbrev document : Config
document = record {
  version = pos 1;
  database = record {
    host = [];
    port = pos 0;
    user = [];
    password = codes "old";
    schema = codes "blog";
    params = [];
    max_open_conns = pos 0;
    max_idle_conns = pos 0;
    query_timeout_seconds = pos 0;
    startup_wait_seconds = pos 0;
  };
  server = record {
    host = [];
    port = pos 0;
    path = [];
    debug = false;
    max_query_depth = pos 0;
    hot_reload = false;
    reload_interval_seconds = pos 0;
  };
  jwt = record {
    algorithm = codes "HS256";
    secret = codes "0123456789abcdef0123456789abcdef";
    public_key_file = [];
    issuer = [];
    audience = [];
    leeway_seconds = pos 0;
    role_claim = [];
    role_lookup = record {
      table = [];
      schema = [];
      id_claim = [];
      id_column = [];
      role_column = [];
      username_column = none;
      password_column = none;
      cache_seconds = pos 0;
    };
    anonymous_role = codes "guest";
  };
  schema_gen = record {
    include = [];
    exclude = [];
    default_page_size = pos 0;
    max_page_size = pos 50;
  };
  roles = (codes "guest", record { tables = [] }) ∷ [];
}

abbrev environment : Env
environment name =
    if text_eq name (codes "GQLGATE_DB_PASSWORD")
    then some []
    else if text_eq name (codes "GQLGATE_DB_HOST")
    then some (codes "db")
    else none

abbrev parsed : Config
parsed = apply_defaults (apply_env_overrides environment document)

parses : finish environment document ≡ ok parsed
unfolding run
parses = refl

validate_iff_example : (validate document ≡ ok tt) ↔ IsUsable document
validate_iff_example = validate_iff document
