-- ===== src/Auth/Tests.antt =====
-- Verifiers, requests and a run of the role cache, and the theorems at them.
use titanium_graph_api.Base.{
  ℕ, ◌<◌, ◌+◌, if◌then◌else◌, ◌≡◌, ◌≢◌, refl, [], ◌∷◌, ◌++◌, Text, codes, some, none, true, false,
  lookup, insert, text_eq, member, has_prefix,
}
use titanium_graph_api.Base.Int.{pos, pos_part, negsuc}
use titanium_graph_api.Base.Numbers.{wrap_64, seconds, digits_before, show_int, float_to_int}
use titanium_graph_api.Base.Spaces.{
  space_width, trim_left, trim_right, trim_space, fold_from, equal_fold,
}
use titanium_graph_api.Value.{Value, str, Fields, field, end}
use titanium_graph_api.Results.{
  ok, err, invalid_token, unreadable_file, not_bearer, role_not_configured,
}
use titanium_graph_api.Config.{
  Config, JwtConfig, RoleLookup, validate, validate_key, validate_anonymous, is_hmac, enabled,
}
use titanium_graph_api.Rbac.{lookup_claim, lookup_nested, attempt, try_splits}
use titanium_graph_api.Auth.{
  KeySource, Verifier, new_verifier, choose_key, parser_options, secret, identify, bearer_token,
  rejected, identified, TokenParser,
}
use titanium_graph_api.Auth.Pinned.{IsPinned, new_verifier-IsPinned}
use titanium_graph_api.Auth.Identified.{Judges, identify_lem, identify-IsConfigured}
use titanium_graph_api.Auth.RoleLookup.{
  Cache, cell, consult, cached, caches, id_value, settle, role_of, ttl,
}
use titanium_graph_api.Auth.RoleLookup.Cached.{
  Reachable, empty, settled, Answer, Among, consult-IsGiven,
}

run : Unit {0}
unfolding wrap_64 seconds digits_before show_int float_to_int space_width trim_left trim_right
    trim_space fold_from equal_fold validate validate_key validate_anonymous is_hmac enabled text_eq
    member has_prefix lookup insert lookup_claim lookup_nested attempt try_splits new_verifier
    choose_key parser_options identify bearer_token consult id_value settle role_of ttl
run = tt

abbrev settings : JwtConfig
settings = record {
  algorithm = codes "HS256";
  secret = codes "0123456789abcdef0123456789abcdef";
  public_key_file = [];
  issuer = [];
  audience = [];
  leeway_seconds = pos 5;
  role_claim = codes "role";
  role_lookup = record {
    table = codes "users";
    schema = codes "app";
    id_claim = codes "sub";
    id_column = codes "id";
    role_column = codes "role";
    username_column = none;
    password_column = none;
    cache_seconds = pos 60;
  };
  anonymous_role = codes "guest";
}

abbrev document : Config
document = record {
  version = pos 1;
  database = record {
    host = codes "db";
    port = pos 4000;
    user = codes "root";
    password = [];
    schema = codes "app";
    params = [];
    max_open_conns = pos 10;
    max_idle_conns = pos 5;
    query_timeout_seconds = pos 30;
    startup_wait_seconds = pos 0;
  };
  server = record {
    host = codes "127.0.0.1";
    port = pos 8080;
    path = codes "/graphql";
    debug = false;
    max_query_depth = pos 15;
    hot_reload = false;
    reload_interval_seconds = pos 2;
  };
  jwt = settings;
  schema_gen = record {
    include = [];
    exclude = [];
    default_page_size = pos 25;
    max_page_size = pos 200;
  };
  roles = (codes "guest", record { tables = [] }) ∷ (codes "admin", record { tables = [] }) ∷ [];
}

abbrev no_files : KeySource
no_files = record {
  read_file = λ path. err unreadable_file;
  pem_decode = λ raw. none;
  parse_certificate = λ s. err unreadable_file;
  parse_pkcs1 = λ s. err unreadable_file;
  parse_pkix = λ s. err unreadable_file;
}

abbrev verifier : Verifier (Unit {0})
verifier = record {
  cfg = settings;
  key = secret (codes "0123456789abcdef0123456789abcdef");
  parser = parser_options settings;
  roles = codes "guest" ∷ codes "admin" ∷ [];
  resolver = none;
}

abbrev claims : Text → Fields
claims role = field (codes "role") (str role) (field (codes "sub") (str (codes "7")) end)

-- A parser for two tokens.
abbrev parse : TokenParser
parse options key token =
    if text_eq token (codes "abc")
    then ok (claims (codes "admin"))
    else if text_eq token (codes "xyz")
    then ok (claims (codes "root"))
    else err (invalid_token token)

builds :
    new_verifier (Unit {0}) no_files settings (codes "guest" ∷ codes "admin" ∷ []) none
    ≡ ok verifier
unfolding run
builds = refl

enters :
    (identify parse verifier tt (codes "BEARER  abc ")).1
    ≡ identified (record { role = codes "admin"; claims = claims (codes "admin") })
unfolding run
enters = refl

turned_away :
    (identify parse verifier tt (codes "Bearer xyz")).1
    ≡ rejected 403 (role_not_configured (codes "root"))
unfolding run
turned_away = refl

no_bearer : (identify parse verifier tt (codes "Basic abc")).1 ≡ rejected 401 not_bearer
unfolding run
no_bearer = refl

valid : validate document ≡ ok tt
unfolding run
valid = refl

new_verifier-IsPinned_example : IsPinned settings (codes "guest" ∷ codes "admin" ∷ []) verifier
new_verifier-IsPinned_example =
    new_verifier-IsPinned no_files document (codes "guest" ∷ codes "admin" ∷ []) none valid builds

identify_lem_example :
    Judges parse verifier tt none
      (codes "Bearer xyz")
      (identify parse verifier tt (codes "Bearer xyz")).1
identify_lem_example = identify_lem parse verifier tt (codes "Bearer xyz")

identify-IsConfigured_example : lookup (codes "admin") document.roles ≢ none
identify-IsConfigured_example =
    identify-IsConfigured no_files document none verifier parse tt (codes "BEARER  abc ")
      (record { role = codes "admin"; claims = claims (codes "admin") }) valid builds enters

abbrev show_float : ℕ → Text
show_float v = codes "1.5"

abbrev lookup_settings : RoleLookup
lookup_settings = settings.role_lookup

abbrev stored : Cache
stored = (codes "7", record { role = codes "admin"; expires = 60000000100 }) ∷ []

abbrev answer : Answer
answer = record { key = codes "7"; reply = cell (some (codes "admin")); at = 100 }

reached : Reachable lookup_settings stored (answer ∷ [])
unfolding run
reached = settled (codes "7") (cell (some (codes "admin"))) 100 empty

hit : consult show_float lookup_settings stored 60000000099 (claims []) ≡ cached (codes "admin")
unfolding run
hit = refl

consult-IsGiven_example :
    (key : Text) × (id : Value) × (a : Answer) × (id_value show_float
        (codes "sub")
        (lookup_claim (claims []) (codes "sub"))
      ≡ ok (key, id))
    × Among a (answer ∷ [])
    × (a.key ≡ key)
    × (a.reply ≡ cell (some (codes "admin")))
    × (codes "admin" ≢ [])
    × (60000000099 < a.at + pos_part (ttl lookup_settings))
    × (caches lookup_settings ≡ true)
consult-IsGiven_example =
    consult-IsGiven lookup_settings show_float stored (answer ∷ []) 60000000099 (claims [])
      (codes "admin") reached hit

show_int_test : show_int (negsuc 41) ≡ codes "-42"
unfolding run
show_int_test = refl

-- 2 to the power of 53, and one half.
float_to_int_test : float_to_int 4845873199050653696 ≡ some (pos 9007199254740992)
unfolding run
float_to_int_test = refl

half_test : float_to_int 4602678819172646912 ≡ none
unfolding run
half_test = refl

trim_space_test : trim_space (codes " a b" ++ (194 ∷ 160 ∷ 32 ∷ [])) ≡ codes "a b"
unfolding run
trim_space_test = refl
