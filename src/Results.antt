-- ===== src/Results.antt =====
-- Go's (value, error) results. An error is the place that reports it, with the names that its
-- message shows.
use mathlib.Core.Path.{subst}
use titanium_graph_api.Base.{◌≡◌, refl, Bool, true, false, Text, ℕ, if◌then◌else◌}

pub data Error : Type 0 where
  missing_claim not_scalar_claim non_scalar_elements not_bindable_claim : Text → Error
  filter_empty : Error
  unknown_table : Text → Error
  unknown_column unknown_preset bad_claim_path : Text → Text → Error
  not_a_list not_an_object not_a_bool not_a_string : Text → Error
  unknown_filter_column unknown_order_column bad_direction : Text → Error
  null_comparison unsupported_operator : Text → Text → Error
  negative_limit negative_offset slice_bounds : Error
  not_permitted : Text → Error
  empty_objects no_columns empty_set : Error
  not_writable : Text → Error
  missing_key : Text → Error
  encode_failed : Text → Error
  database_error no_rows : Error
  hook_failed : ℕ → Error
  name_collision column_collision generated_collision : Text → Text → Error
  schema_required unsupported_algorithm secret_required key_file_required no_roles : Error
  secret_too_short : ℕ → Error
  unknown_anonymous_role : Text → Error
  page_size_exceeds_max negative_cache_seconds : Error
  too_deep : ℕ → Error
  unreadable_file bad_key : Error
  no_pem_block wrong_key_type unsupported_key : Text → Error
  no_authorization not_bearer : Error
  invalid_token : Text → Error
  role_not_configured claim_not_text : Text → Error
  invalid_cursor foreign_cursor : Error
  unknown_metric : Text → Error
  negative_first : Error
  bad_number bad_json : Text → Error
  no_tables nil_table : Error
  empty_claim bad_claim_type no_identity no_role : Text → Error

pub data Result {ℓ} (A : Type ℓ) : Type ℓ where
  ok : A → Result A
  err : Error → Result A

pub ok-injective {ℓ} : {A : Type ℓ} {a b : A} → ok a ≡ ok b → a ≡ b
ok-injective e = cc

-- `if err != nil { return err }`
module _ {ℓ κ} {A : Type ℓ} {B : Type κ} where
  infixl 5 ◌>>=◌
  abbrev pub ◌>>=◌ : Result A → (A → Result B) → Result B
  err e >>= next = err e
  ok a >>= next = next a

  pub >>=-eq-ok :
      (r : Result A) (next : A → Result B) {b : B}
      → (r >>= next) ≡ ok b
      → (a : A) × (r ≡ ok a) × (next a ≡ ok b)
  >>=-eq-ok (err e) next h = cc
  >>=-eq-ok (ok a) next h = (a, refl, h)

module _ {ℓ} {B : Type ℓ} where
  infixl 5 ◌>>◌
  abbrev pub ◌>>◌ : Result (Unit {0}) → Result B → Result B
  check >> next = check >>= λ _. next

  pub >>-eq-ok :
      (check : Result (Unit {0})) (next : Result B) {b : B}
      → (check >> next) ≡ ok b
      → (check ≡ ok tt) × (next ≡ ok b)
  >>-eq-ok (err e) next h = cc
  >>-eq-ok (ok u) next h = (refl, h)

-- `if !test { return err }`
abbrev pub guard : Bool → Error → Result (Unit {0})
guard test e = if test then ok tt else err e

pub guard-eq-ok : (test : Bool) (e : Error) {u : Unit {0}} → guard test e ≡ ok u → test ≡ true
guard-eq-ok false e h = cc
guard-eq-ok true e h = refl

-- What holds of the value, if there is one.
abbrev pub Ensures {ℓ κ} : {A : Type ℓ} → (A → Type κ) → Result A → Type κ
Ensures P (ok a) = P a
Ensures P (err e) = Unit

pub Ensures-eq-ok {ℓ κ} :
    {A : Type ℓ} (P : A → Type κ) (r : Result A) {a : A} → Ensures P r → r ≡ ok a → P a
Ensures-eq-ok P (ok b) h e = subst P (ok-injective e) h
Ensures-eq-ok P (err x) h e = cc

pub Ensures-bind {ℓ κ ℓ' κ'} :
    {A : Type ℓ} {B : Type κ} (P : A → Type ℓ') (Q : B → Type κ') (m : Result A) (f : A → Result B)
    → Ensures P m
    → ((a : A) → P a → Ensures Q (f a))
    → Ensures Q (m >>= f)
Ensures-bind P Q (ok a) f h k = k a h
Ensures-bind P Q (err e) f h k = tt

Ensures-guard {κ ℓ} :
    {A : Type ℓ} (Q : A → Type κ) (b : Bool) (e : Error) (m : Result A)
    → (b ≡ true → Ensures Q m)
    → Ensures Q (guard b e >> m)
Ensures-guard Q true e m k = k refl
Ensures-guard Q false e m k = tt

pub Ensures-if {κ ℓ} :
    {A : Type ℓ} (Q : A → Type κ) (b : Bool) (m n : Result A)
    → (b ≡ true → Ensures Q m)
    → (b ≡ false → Ensures Q n)
    → Ensures Q (if b then m else n)
Ensures-if Q true m n h k = h refl
Ensures-if Q false m n h k = k refl

pub Ensures-map {ℓ κ κ'} :
    {A : Type ℓ} (P : A → Type κ) (Q : A → Type κ') (r : Result A)
    → Ensures P r
    → ((a : A) → P a → Q a)
    → Ensures Q r
Ensures-map P Q (ok a) h f = f a h
Ensures-map P Q (err e) h f = tt
