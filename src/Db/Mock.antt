-- ===== src/Db/Mock.antt =====
-- db/mock.go: MockStore, the in-memory store. Each method but Flush, which only reads `closed`, holds
-- the store's lock from its first to its last line, so a method is one step from state to state. A
-- method that returns an error returns `none` for nil. `buckets` is the field `data`, and `[]`
-- stands for its nil map.
pub mod Batch
pub mod Iterator
pub mod Refines
use brewery_bitcoin.Db.Base.{
  DbError, closed, column_family_not_found, key_not_found, nil_key, default_column_family,
}
use brewery_bitcoin.Prelude.{
  Bool, true, false, Option, none, some, List, [], ◌∷◌, if◌then◌else◌, is_some, length, ℤ, pos,
  negsuc, Bytes, same, Dict, lookup, insert, remove, Result, ok, err, ◌>>=◌,
}

pub record MockStore : Type 0 where
  pub buckets : Dict (Dict Bytes)
  pub is_closed : Bool

-- the loop of NewMockStore
unfoldable pub register : Dict (Dict Bytes) → List Bytes → Dict (Dict Bytes)
register buckets [] = buckets
register buckets (cf ∷ cfs) =
    register (if same cf default_column_family then buckets else insert cf [] buckets) cfs

unfoldable pub new_mock_store : List Bytes → MockStore
unfolding register
new_mock_store cfs = record {
  buckets = register ((default_column_family, []) ∷ []) cfs;
  is_closed = false;
}

-- The checks that Get, Put, Delete and Has start with: the key, and the bucket of the family.
unfoldable pub checked : MockStore → Bytes → Option Bytes → Result DbError (Bytes × Dict Bytes)
checked m cf key = if m.is_closed then err closed else elim key [
  | none ↦ err nil_key
  | some k ↦ elim (lookup cf m.buckets) [
    | none ↦ err (column_family_not_found cf)
    | some bucket ↦ ok (k, bucket)
  ]
]

-- `v, ok := bucket[string(key)]; if !ok { return nil, ErrKeyNotFound }`
abbrev pub or_key_not_found : Option Bytes → Result DbError Bytes
or_key_not_found none = err key_not_found
or_key_not_found (some v) = ok v

unfoldable pub get : MockStore → Bytes → Option Bytes → Result DbError Bytes
unfolding checked
get m cf key = do (k, bucket) ← checked m cf key; or_key_not_found (lookup k bucket)

unfoldable pub has : MockStore → Bytes → Option Bytes → Result DbError Bool
unfolding checked
has m cf key = do (k, bucket) ← checked m cf key; ok (is_some (lookup k bucket))

-- A write to the bucket that `m.data[cf]` refers to.
abbrev pub update :
    MockStore
    → Bytes
    → (Bytes → Dict Bytes → Dict Bytes)
    → Result DbError (Bytes × Dict Bytes)
    → MockStore × Option DbError
update m cf write (err e) = (m, some e)
update m cf write (ok (k, bucket)) =
    (record m { buckets = insert cf (write k bucket) m.buckets }, none)

unfoldable pub put : MockStore → Bytes → Option Bytes → Bytes → MockStore × Option DbError
unfolding checked
put m cf key value = update m cf (λ k. insert k value) (checked m cf key)

unfoldable pub delete : MockStore → Bytes → Option Bytes → MockStore × Option DbError
unfolding checked
delete m cf key = update m cf remove (checked m cf key)

unfoldable pub flush : MockStore → Option DbError
flush m = if m.is_closed then some closed else none

unfoldable pub close : MockStore → MockStore × Option DbError
close m =
    if m.is_closed then (m, some closed) else (record { buckets = []; is_closed = true }, none)

-- Len: the number of keys, or -1
unfoldable pub len : MockStore → Bytes → ℤ
len m cf =
    if m.is_closed
    then negsuc 0
    else elim (lookup cf m.buckets) [ none ↦ negsuc 0 | some bucket ↦ pos (length bucket) ]

-- the loop of Reset
emptied : Dict (Dict Bytes) → Dict (Dict Bytes)
emptied [] = []
emptied ((cf, bucket) ∷ rest) = (cf, []) ∷ emptied rest

unfoldable pub reset : MockStore → MockStore
unfolding emptied
reset m = record m { buckets = emptied m.buckets }
