-- ===== src/Db/Mock/Iterator/Snapshot.antt =====
-- db/mock.go: the snapshot that NewIterator takes against the bucket.
use brewery_bitcoin.Stdlib.Sort.{
  sort_strings, IsAscending, sort_strings-IsAscending, length-sort_strings, occurs,
  occurs-sort_strings,
}
use brewery_bitcoin.Db.Mock.Iterator.{MockEntry, bytes_of, entry_of, snapshot}
use brewery_bitcoin.Prelude.{
  suc, ◌≡◌, refl, sym, ap, ◌∙◌, subst, inl, inr, Option, none, some, List, [], ◌∷◌, map, arith,
  if◌then◌else◌, Bool-cases, is_some, length, length-map, IsDistinct, Bytes, same, same_iff, Dict,
  lookup, keys,
}

abbrev pub entry_keys : List MockEntry → List Bytes
entry_keys = map (λ e. e.key)

-- what a reader of the snapshot finds at a key
abbrev pub find : Bytes → List MockEntry → Option Bytes
find k [] = none
find k (e ∷ es) = if same e.key k then some e.value else find k es

keys-entry_of : (bucket : Dict Bytes) (ks : List Bytes) → entry_keys (map (entry_of bucket) ks) ≡ ks
unfolding entry_of
keys-entry_of bucket [] = refl
keys-entry_of bucket (k ∷ ks) = ap (◌∷◌ k) (keys-entry_of bucket ks)

find-entry_of :
    (bucket : Dict Bytes) (k : Bytes) (ks : List Bytes)
    → find k (map (entry_of bucket) ks)
      ≡ (if occurs k ks then some (bytes_of (lookup k bucket)) else none)
unfolding entry_of
find-entry_of bucket k [] = refl
find-entry_of bucket k (j ∷ ks) = elim (Bool-cases (same j k)) [
  | inl e ↦ rw (e, (same_iff j k).0 e)
  | inr n ↦ rw n (find-entry_of bucket k ks)
]

occurs-keys : (k : Bytes) (bucket : Dict Bytes) → occurs k (keys bucket) ≡ is_some (lookup k bucket)
unfolding lookup
occurs-keys k [] = refl
occurs-keys k ((j, v) ∷ bucket) = ground (arith, occurs-keys k bucket)

-- From a bucket with distinct keys, as every Go map has, the entries are strictly ascending.
pub snapshot-IsAscending :
    (bucket : Dict Bytes) → IsDistinct (keys bucket) → IsAscending (entry_keys (snapshot bucket))
unfolding snapshot
snapshot-IsAscending bucket h =
    subst IsAscending (sym (keys-entry_of bucket (sort_strings (keys bucket))))
      (sort_strings-IsAscending (keys bucket) h)

read-back :
    (k : Bytes) (bucket : Dict Bytes)
    → (if is_some (lookup k bucket) then some (bytes_of (lookup k bucket)) else none)
      ≡ lookup k bucket
read-back k bucket = ground arith

-- The snapshot holds exactly the bucket's keys, with the bucket's values.
pub find-snapshot : (bucket : Dict Bytes) (k : Bytes) → find k (snapshot bucket) ≡ lookup k bucket
unfolding snapshot
find-snapshot bucket k =
    rw
      (
        find-entry_of bucket k (sort_strings (keys bucket)),
        occurs-sort_strings k (keys bucket),
        occurs-keys k bucket,
      )
      (read-back k bucket)

-- and as many entries as the bucket has keys
pub length-snapshot : (bucket : Dict Bytes) → length (snapshot bucket) ≡ length bucket
unfolding snapshot
length-snapshot bucket =
    length-map (sort_strings (keys bucket)) (entry_of bucket)
    ∙ length-sort_strings (keys bucket)
    ∙ length-keys bucket
  where
    length-keys : (b : Dict Bytes) → length (keys b) ≡ length b
    length-keys [] = refl
    length-keys (e ∷ b) = ap suc (length-keys b)
