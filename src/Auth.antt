-- ===== src/Auth.antt =====
-- auth/auth.go: the verifier of bearer tokens, and the identity of a request.
pub mod RoleLookup
pub mod Pinned
pub mod Identified
mod Tests
use titanium_graph_api.Base.{
  ℕ, List, [], ◌∷◌, Text, Bool, true, false, not, ◌||◌, Option, none, some, codes, has_prefix,
  length, take, drop, text_eq, member, ltb, if◌then◌else◌,
}
use titanium_graph_api.Base.Int.{ℤ, pos, ltb_ℤ}
use titanium_graph_api.Base.Numbers.{seconds}
use titanium_graph_api.Base.Spaces.{equal_fold, trim_space}
use titanium_graph_api.Value.{Value, Fields, end, as_str}
use titanium_graph_api.Results.{
  Result, ok, err, Error, ◌>>=◌, no_pem_block, wrong_key_type, unsupported_key, no_authorization,
  not_bearer, role_not_configured, claim_not_text, missing_claim,
}
use titanium_graph_api.Config.{JwtConfig, is_empty}
use titanium_graph_api.Rbac.{Identity, lookup_claim}

-- A key of one of Go's key types; the key itself is the libraries'.
pub data PublicKey : Type 0 where
  rsa ec other_key : ℕ → PublicKey

pub data Key : Type 0 where
  secret : Text → Key
  public : PublicKey → Key

pub record PemBlock : Type 0 where
  pub kind : Text
  pub content : Text

-- The operating system, encoding/pem and crypto/x509.
pub record KeySource : Type 0 where
  pub read_file : Text → Result Text
  pub pem_decode : Text → Option PemBlock
  pub parse_certificate : Text → Result PublicKey
  pub parse_pkcs1 : Text → Result PublicKey
  pub parse_pkix : Text → Result PublicKey

abbrev pub parse_block : KeySource → Text → Option PemBlock → Result PublicKey
parse_block src path none = err (no_pem_block path)
parse_block src path (some block) =
    if text_eq block.kind (codes "CERTIFICATE")
    then src.parse_certificate block.content
    else if text_eq block.kind (codes "RSA PUBLIC KEY")
    then src.parse_pkcs1 block.content
    else src.parse_pkix block.content

unfoldable pub load_public_key : KeySource → Text → Result PublicKey
load_public_key src path = do raw ← src.read_file path; parse_block src path (src.pem_decode raw)

-- A public key must be of the kind that the algorithm uses.
unfoldable pub check_key : Text → PublicKey → Result Key
check_key algorithm (rsa k) =
    if has_prefix (codes "RS") algorithm
    then ok (public (rsa k))
    else err (wrong_key_type algorithm)
check_key algorithm (ec k) =
    if has_prefix (codes "ES") algorithm then ok (public (ec k)) else err (wrong_key_type algorithm)
check_key algorithm (other_key k) = err (unsupported_key algorithm)

unfoldable pub choose_key : KeySource → JwtConfig → Result Key
unfolding check_key load_public_key
choose_key src cfg =
    if has_prefix (codes "HS") cfg.algorithm
    then ok (secret cfg.secret)
    else (do key ← load_public_key src cfg.public_key_file; check_key cfg.algorithm key)

-- The options given to the parser of the JWT library.
pub record ParserOptions : Type 0 where
  pub valid_methods : List Text
  pub expiration_required : Bool
  pub leeway : Option ℤ
  pub issuer : Option Text
  pub audience : Option Text

abbrev pub if_given : Text → Option Text
if_given [] = none
if_given (c ∷ s) = some (c ∷ s)

unfoldable pub parser_options : JwtConfig → ParserOptions
parser_options cfg = record {
  valid_methods = cfg.algorithm ∷ [];
  expiration_required = true;
  leeway = if ltb_ℤ (pos 0) cfg.leeway_seconds then some (seconds cfg.leeway_seconds) else none;
  issuer = if_given cfg.issuer;
  audience = if_given cfg.audience;
}

-- A role resolver works on a state of its own.
abbrev pub RoleResolver : Type 0 → Type 0
RoleResolver R = R → Fields → R × Result Text

module _ (R : Type 0) where
  pub record Verifier : Type 0 where
    pub cfg : JwtConfig
    pub key : Key
    pub parser : ParserOptions
    pub roles : List Text
    pub resolver : Option (RoleResolver R)

  unfoldable pub new_verifier :
      KeySource → JwtConfig → List Text → Option (RoleResolver R) → Result Verifier
  unfolding choose_key parser_options
  new_verifier src cfg role_names resolver = do
    key ← choose_key src cfg
    ok (record {
      cfg = cfg;
      key = key;
      parser = parser_options cfg;
      roles = role_names;
      resolver = resolver;
    })

-- What Identify returns: an identity, or a status with an error.
pub data Outcome : Type 0 where
  identified : Identity → Outcome
  rejected : ℕ → Error → Outcome

abbrev pub unauthorized : ℕ
unauthorized = 401

abbrev pub forbidden : ℕ
forbidden = 403

abbrev pub bearer_prefix : Text
bearer_prefix = codes "bearer "

-- The token behind the prefix of the header.
unfoldable pub bearer_token : Text → Option Text
bearer_token header =
    if ltb (length header) 7 || not (equal_fold (take 7 header) bearer_prefix)
    then none
    else some (trim_space (drop 7 header))

-- `ParseWithClaims` of the JWT library: the claims of a token that is valid for the key.
abbrev pub TokenParser : Type 0
TokenParser = ParserOptions → Key → Text → Result Fields

abbrev pub anonymous : Text → Outcome
anonymous [] = rejected unauthorized no_authorization
anonymous (c ∷ s) = identified (record { role = c ∷ s; claims = end })

abbrev pub if_configured : List Text → Fields → Text → Outcome
if_configured roles claims role =
    if member role roles
    then identified (record { role = role; claims = claims })
    else rejected forbidden (role_not_configured role)

abbrev pub looked_up : List Text → Fields → Result Text → Outcome
looked_up roles claims (err e) = rejected forbidden e
looked_up roles claims (ok role) = if_configured roles claims role

abbrev pub text_claim : List Text → Fields → Text → Option Text → Outcome
text_claim roles claims path none = rejected forbidden (claim_not_text path)
text_claim roles claims path (some role) = if_configured roles claims role

abbrev pub claimed : List Text → Fields → Text → Option Value → Outcome
claimed roles claims path none = rejected forbidden (missing_claim path)
claimed roles claims path (some v) = text_claim roles claims path (as_str v)

abbrev pub respond : {X : Type 0} → (Identity → X) → (ℕ → Error → X) → Outcome → X
respond next write_error (identified id) = next id
respond next write_error (rejected status e) = write_error status e

module _ {R : Type 0} where
  abbrev pub with_role : Verifier R → Option (RoleResolver R) → R → Fields → R × Outcome
  with_role v none s claims =
      (s, claimed v.roles claims v.cfg.role_claim (lookup_claim claims v.cfg.role_claim))
  with_role v (some resolve) s claims =
      let (s', role) = resolve s claims in (s', looked_up v.roles claims role)

  abbrev pub with_claims : Verifier R → R → Result Fields → R × Outcome
  with_claims v s (err e) = (s, rejected unauthorized e)
  with_claims v s (ok claims) = with_role v v.resolver s claims

  abbrev pub with_token : TokenParser → Verifier R → R → Option Text → R × Outcome
  with_token parse v s none = (s, rejected unauthorized not_bearer)
  with_token parse v s (some token) = with_claims v s (parse v.parser v.key token)

  -- An absent header reads as the empty text.
  unfoldable pub identify : TokenParser → Verifier R → R → Text → R × Outcome
  unfolding bearer_token
  identify parse v s header =
      if is_empty header
      then (s, anonymous v.cfg.anonymous_role)
      else with_token parse v s (bearer_token header)

  -- The handler that runs `next` for an identified caller only.
  unfoldable pub middleware :
      {X : Type 0} → TokenParser → Verifier R → (Identity → X) → (ℕ → Error → X) → R → Text → R × X
  unfolding identify
  middleware parse v next write_error s header =
      let (s', outcome) = identify parse v s header in (s', respond next write_error outcome)
