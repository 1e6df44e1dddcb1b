-- ===== src/Db/Keys.antt =====
-- The storage keys of db/pebble.go: a column family is a key prefix `cf\x00`, and an iterator
-- over it runs from `cf\x00` up to, not including, `cf\x01`.
pub mod Scope
use brewery_bitcoin.Prelude.{ℕ, zero, suc, Option, none, some, [], ◌∷◌, ◌++◌, Bytes}

-- cfPrefix
unfoldable pub cf_prefix : Bytes → Bytes
cf_prefix cf = cf ++ 0 ∷ []

-- cfUpperBound
unfoldable pub cf_upper_bound : Bytes → Bytes
cf_upper_bound cf = cf ++ 1 ∷ []

-- prefixedKey
unfoldable pub prefixed_key : Bytes → Bytes → Bytes
prefixed_key prefix key = prefix ++ key

-- `raw[n:]`, with `none` where `len(raw) < n`: the prefix stripping of pebbleIterator.Key
unfoldable pub strip : ℕ → Bytes → Option Bytes
strip zero raw = some raw
strip (suc n) [] = none
strip (suc n) (b ∷ raw) = strip n raw
