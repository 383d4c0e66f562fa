-- ===== src/Naming/Tests.antt =====
-- Identifiers of a sample schema, and the theorems at them.
use titanium_graph_api.Base.{◌≡◌, refl, codes}
use titanium_graph_api.Naming.{graphql_name, sanitize_byte, lead, strip, is_name_byte, is_digit}
use titanium_graph_api.Naming.Valid.{IsName}

spaced : graphql_name (codes "order items") ≡ codes "order_items"
unfolding graphql_name sanitize_byte lead strip
spaced = refl

leading_digit : graphql_name (codes "2fa") ≡ codes "_2fa"
unfolding graphql_name sanitize_byte lead strip
leading_digit = refl

dashes : graphql_name (codes "--") ≡ codes "_"
unfolding graphql_name sanitize_byte lead strip
dashes = refl

user_IsName : IsName (codes "user")
unfolding is_name_byte is_digit
user_IsName = (refl, refl, (refl, (refl, (refl, tt))))
