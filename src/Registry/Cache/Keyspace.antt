-- ===== src/Registry/Cache/Keyspace.antt =====
-- What internal/registry/cache.go uses of Redis: GET, SET with a time to live, and DEL, under a
-- schedule that says of each command whether the server fails it.
use storage_gateway.Prelude.{
  ℕ, ◌+◌, ◌≡◌, ◌∙◌, refl, Bool, true, false, Option, none, some, List, [], ◌∷◌, Str, str_eq,
  str_eq_iff, ltb, ◌==◌, if◌then◌else◌, arith,
}
use storage_gateway.Registry.{BackendType, PresignedMode}

pub record CachedAccessKey : Type 0 where
  pub tenant_id : Str
  pub secret_key_enc : Str
  pub readonly : Bool
  pub created_at : ℕ

pub record CachedBucket : Type 0 where
  pub store_id : Str
  pub tenant_id : Str
  pub backend_type : BackendType
  pub backend_config_enc : Str
  pub backend_bucket : Str
  pub presigned_mode : PresignedMode
  pub allowed_origins : List Str

-- The text NOT_FOUND, the JSON of a cached struct, and any other text.
pub data Value : Type 0 where
  not_found_text : Value
  access_key_json : CachedAccessKey → Value
  bucket_json : CachedBucket → Value
  other_text : Str → Value

-- json.Unmarshal into the struct. The two structs share no key of Redis, so that one of them is
-- never read as the other.
abbrev pub decode_access_key : Value → Option CachedAccessKey
decode_access_key (access_key_json c) = some c
decode_access_key _ = none

abbrev pub decode_bucket : Value → Option CachedBucket
decode_bucket (bucket_json c) = some c
decode_bucket _ = none

pub record Item : Type 0 where
  pub key : Str
  pub value : Value
  pub expires : Option ℕ

pub record Redis : Type 0 where
  pub items : List Item
  pub clock : ℕ
  pub faults : List Bool

-- A key is gone from the moment of its expiry on.
unfoldable pub is_live : ℕ → Item → Bool
is_live clock i = elim i.expires [ none ↦ true | some t ↦ ltb clock t ]

unfoldable pub lookup_items : ℕ → Str → List Item → Option Value
lookup_items clock k [] = none
lookup_items clock k (i ∷ is) =
    if str_eq i.key k
    then (if is_live clock i then some i.value else none)
    else lookup_items clock k is

unfoldable pub remove_items : Str → List Item → List Item
remove_items k [] = []
remove_items k (i ∷ is) = let rest = remove_items k is in if str_eq i.key k then rest else i ∷ rest

-- The value of a key, as a command would see it.
unfoldable pub value_at : Redis → Str → Option Value
value_at r k = lookup_items r.clock k r.items

abbrev skip_fault : Redis → Redis
skip_fault r = elim r.faults [ [] ↦ r | _ ∷ fs ↦ record r { faults = fs } ]

abbrev fails : Redis → Bool
fails r = elim r.faults [ [] ↦ false | b ∷ fs ↦ b ]

-- rdb.Get(ctx, key).Bytes(): an error is a missing key or a failed command.
unfoldable pub fetch : Str → Redis → Option Value × Redis
fetch k r = (if fails r then none else value_at r k, skip_fault r)

-- A time to live of 0 keeps the key for ever.
abbrev pub deadline : ℕ → ℕ → Option ℕ
deadline clock ttl = if ttl == 0 then none else some (clock + ttl)

unfoldable pub set : Str → Value → ℕ → Redis → Redis
unfolding remove_items
set k v ttl r = if fails r then skip_fault r else record (skip_fault r) {
  items = record { key = k; value = v; expires = deadline r.clock ttl } ∷ remove_items k r.items;
}

unfoldable pub del : Str → Redis → Redis
unfolding remove_items
del k r = if fails r then skip_fault r else record (skip_fault r) { items = remove_items k r.items }

lookup-remove :
    (clock : ℕ) (k j : Str) (is : List Item)
    → lookup_items clock j (remove_items k is)
      ≡ (if str_eq k j then none else lookup_items clock j is)
unfolding lookup_items remove_items
lookup-remove clock k j [] = ground arith
lookup-remove clock k j (i ∷ is) =
    ground
      (arith, lookup-remove clock k j is, str_eq_iff i.key k, str_eq_iff i.key j, str_eq_iff k j)

module _ (r : Redis) where
  pub value_at-fetch : (k j : Str) → value_at (fetch k r).1 j ≡ value_at r j
  unfolding fetch value_at
  value_at-fetch k j = ground arith

  -- Either the command failed and nothing changed, or the key is gone.
  pub value_at-del :
      (k j : Str)
      → value_at (del k r) j
        ≡ (if fails r then value_at r j else if str_eq k j then none else value_at r j)
  unfolding del value_at
  value_at-del k j = ground (arith, lookup-remove r.clock k j r.items)

  pub value_at-set :
      (k j : Str) (v : Value) (ttl : ℕ)
      → value_at (set k v ttl r) j
        ≡ (if fails r then value_at r j else if str_eq k j then some v else value_at r j)
  unfolding set value_at lookup_items is_live
  value_at-set k j v ttl = ground (arith, lookup-remove r.clock k j r.items, str_eq_iff k j)

-- With no fault scheduled, the commands do what they are for.
module _ (r : Redis) (up : r.faults ≡ []) where
  pub fetch-up : (k : Str) → fetch k r ≡ (value_at r k, r)
  unfolding fetch
  fetch-up k = rw up refl

  pub faults-set : (k : Str) (v : Value) (ttl : ℕ) → (set k v ttl r).faults ≡ []
  unfolding set
  faults-set k v ttl = ground arith

  pub faults-del : (k : Str) → (del k r).faults ≡ []
  unfolding del
  faults-del k = ground arith

  pub value_at-set_up :
      (k j : Str) (v : Value) (ttl : ℕ)
      → value_at (set k v ttl r) j ≡ (if str_eq k j then some v else value_at r j)
  value_at-set_up k j v ttl = value_at-set r k j v ttl ∙ rw up refl

  pub value_at-del_up :
      (k j : Str) → value_at (del k r) j ≡ (if str_eq k j then none else value_at r j)
  value_at-del_up k j = value_at-del r k j ∙ rw up refl
