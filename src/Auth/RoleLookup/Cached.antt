-- ===== src/Auth/RoleLookup/Cached.antt =====
-- The role cache over any interleaving of calls: every call that reaches the database stores at
-- some later time, and calls of other requests may come in between.
use titanium_graph_api.Base.{
  ℕ, ◌+◌, ◌<◌, ◌≡◌, ◌≢◌, refl, List, [], ◌∷◌, Text, true, Option, none, some, lookup, insert,
  lookup-insert, text_eq, text_eq_iff, ltb, ltb→lt, Bool-cases, ◌⊎◌, inl, inr, arith,
}
use titanium_graph_api.Base.Int.{pos_part}
use titanium_graph_api.Value.{Value, Fields}
use titanium_graph_api.Results.{Result, ok, err}
use titanium_graph_api.Config.{is_empty}
use titanium_graph_api.Config as Config
use titanium_graph_api.Rbac.{lookup_claim}
use titanium_graph_api.Auth.RoleLookup.{
  CacheEntry, Cache, Reply, failed, no_row, cell, ttl, caches, id_value, cached, fresh_entry,
  consult_id, consult, role_of, store, settle,
}

-- An answer of the database: for which key, what, and when it was stored.
pub record Answer : Type 0 where
  pub key : Text
  pub reply : Reply
  pub at : ℕ

-- The caches that any sequence of stored answers leads to, with those answers, the latest first.
-- Reading the cache does not change it, so the reads stand between any two of them.
pub data Reachable (cfg : Config.RoleLookup) : Cache → List Answer → Type 0 where
  empty : Reachable cfg [] []
  settled :
      {cache : Cache} {answers : List Answer} (key : Text) (reply : Reply) (now : ℕ)
      → Reachable cfg cache answers
      → Reachable cfg
          (settle cfg cache now key reply).0
          (record { key = key; reply = reply; at = now } ∷ answers)

abbrev pub Among : Answer → List Answer → Type 0
Among a [] = ⊥
Among a (b ∷ bs) = (a ≡ b) ⊎ Among a bs

-- The database gave the role for the key, within the lifetime of a cache entry before `expires`.
abbrev pub IsGiven : Config.RoleLookup → List Answer → Text → Text → ℕ → Type 0
IsGiven cfg answers key role expires =
    (a : Answer) × Among a answers
    × (a.key ≡ key)
    × (a.reply ≡ cell (some role))
    × (role ≢ [])
    × (expires ≡ a.at + pos_part (ttl cfg))

entry_eq : {a b : CacheEntry} → ◌≡◌ {A = Option CacheEntry} (some a) (some b) → a ≡ b
entry_eq e = cc

module _ (cfg : Config.RoleLookup) where
  Holds : Cache → List Answer → Type 0
  Holds cache answers =
      (key : Text) (e : CacheEntry)
      → lookup key cache ≡ some e
      → IsGiven cfg answers key e.role e.expires

  later :
      (answers : List Answer) (a : Answer) (key role : Text) (n : ℕ)
      → IsGiven cfg answers key role n
      → IsGiven cfg (a ∷ answers) key role n
  later answers a key role n (b, i, k, r, ne, t) = (b, inr i, k, r, ne, t)

  role_of-eq-ok :
      (key : Text) (reply : Reply) (role : Text)
      → role_of key reply ≡ ok role
      → (reply ≡ cell (some role)) × (role ≢ [])
  unfolding role_of
  role_of-eq-ok key (failed e) role h = cc
  role_of-eq-ok key no_row role h = cc
  role_of-eq-ok key (cell none) role h = cc
  role_of-eq-ok key (cell (some [])) role h = cc
  role_of-eq-ok key (cell (some (c ∷ s))) role h = (cc, λ e. cc)

  inserted :
      (cache : Cache) (answers : List Answer) (key : Text) (reply : Reply) (now : ℕ) (role : Text)
      → role_of key reply ≡ ok role
      → Holds cache answers
      → Holds
          (insert key (record { role = role; expires = now + pos_part (ttl cfg) }) cache)
          (record { key = key; reply = reply; at = now } ∷ answers)
  unfolding Holds
  inserted cache answers key reply now role h k j e l = elim (Bool-cases (text_eq key j)) [
    | inl same ↦
        let (r, ne) = role_of-eq-ok key reply role h in
        let at = entry_eq (
          rw
            (
              lookup-insert key j (record { role = role; expires = now + pos_part (ttl cfg) })
                  cache,
              same,
            )
            at l) in
        rw (← at) (
          record { key = key; reply = reply; at = now },
          inl refl,
          (text_eq_iff key j).0 same,
          r,
          ne,
          refl,
        )
    | inr other ↦ later answers _ j e.role e.expires (
        k j e (
          rw
            (
              lookup-insert key j (record { role = role; expires = now + pos_part (ttl cfg) })
                  cache,
              other,
            )
            at l))
  ]

  stored :
      (cache : Cache) (answers : List Answer) (key : Text) (reply : Reply) (now : ℕ)
      (r : Result Text)
      → role_of key reply ≡ r
      → Holds cache answers
      → Holds (store cfg cache now key r) (record { key = key; reply = reply; at = now } ∷ answers)
  unfolding Holds
  stored cache answers key reply now (err x) h k j e l =
      later answers _ j e.role e.expires (k j e l)
  stored cache answers key reply now (ok role) h k j e l = elim (Bool-cases (caches cfg)) [
    | inl on ↦ inserted cache answers key reply now role h k j e (rw on at l)
    | inr off ↦ later answers _ j e.role e.expires (k j e (rw off at l))
  ]

  Reachable-Holds :
      {cache : Cache} {answers : List Answer} → Reachable cfg cache answers → Holds cache answers
  unfolding settle Holds lookup
  Reachable-Holds empty = λ key e l. cc
  Reachable-Holds (settled key reply now r) =
      stored _ _ key reply now (role_of key reply) refl (Reachable-Holds r)

  cached_inj : {a b : Text} → cached a ≡ cached b → a ≡ b
  cached_inj e = cc

  fresh_entry-eq-cached :
      (now : ℕ) (key : Text) (id : Value) (o : Option CacheEntry) (role : Text)
      → fresh_entry now key id o ≡ cached role
      → (e : CacheEntry) × (o ≡ some e) × (e.role ≡ role) × (now < e.expires)
  fresh_entry-eq-cached now key id none role h = cc
  fresh_entry-eq-cached now key id (some e) role h = elim (Bool-cases (ltb now e.expires)) [
    | inl lt ↦ (e, refl, cached_inj (rw lt at h), ltb→lt now e.expires lt)
    | inr ge ↦ cc (rw ge at h)
  ]

  consult_id-eq-cached :
      (cache : Cache) (now : ℕ) (r : Result (Text × Value)) (role : Text)
      → consult_id cfg cache now r ≡ cached role
      → (key : Text) × (id : Value) × (e : CacheEntry) × (r ≡ ok (key, id))
        × (lookup key cache ≡ some e)
        × (e.role ≡ role)
        × (now < e.expires)
        × (caches cfg ≡ true)
  consult_id-eq-cached cache now (err x) role h = cc
  consult_id-eq-cached cache now (ok (key, id)) role h = elim (Bool-cases (caches cfg)) [
    | inl on ↦
        let (e, l, r, lt) = fresh_entry-eq-cached now key id (lookup key cache) role (rw on at h) in
        (key, id, e, refl, l, r, lt, on)
    | inr off ↦ cc (rw off at h)
  ]

  -- After any sequence of stored answers, with calls of other requests in between, a role that the
  -- resolver takes from its cache is one that the database gave for the text of the same id; it is
  -- not empty, and it was stored less than the configured lifetime ago. With no lifetime configured,
  -- no role is taken from the cache.
  pub consult-IsGiven :
      (show_float : ℕ → Text) (cache : Cache) (answers : List Answer) (now : ℕ) (claims : Fields)
      (role : Text)
      → Reachable cfg cache answers
      → consult show_float cfg cache now claims ≡ cached role
      → (key : Text) × (id : Value) × (a : Answer) × (id_value show_float cfg.id_claim
            (lookup_claim claims cfg.id_claim)
          ≡ ok (key, id))
        × Among a answers
        × (a.key ≡ key)
        × (a.reply ≡ cell (some role))
        × (role ≢ [])
        × (now < a.at + pos_part (ttl cfg))
        × (caches cfg ≡ true)
  unfolding consult Holds
  consult-IsGiven show_float cache answers now claims role r h =
      let (key, id, e, v, l, same, lt, on) =
        consult_id-eq-cached cache now
          (id_value show_float cfg.id_claim (lookup_claim claims cfg.id_claim)) role h in
      let (a, i, k, reply, ne, t) = Reachable-Holds r key e l in
      (key, id, a, v, i, k, rw same at reply, rw same at ne, omega arith, on)
