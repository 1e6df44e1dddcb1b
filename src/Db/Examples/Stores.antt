-- ===== src/Db/Examples/Stores.antt =====
-- A concrete database: an engine over a read-only file of one entry, whose iterators are those of the
-- engine in memory, and stores that hold that entry.
use brewery_bitcoin.Stdlib.Sort.{IsAscending}
use brewery_bitcoin.Db.Base.{default_column_family}
use brewery_bitcoin.Db.Contract.{Spec}
use brewery_bitcoin.Db.Keys.{cf_prefix, prefixed_key}
use brewery_bitcoin.Db.Keys.Scope.{HasNoNul, same-prefixed_key}
use brewery_bitcoin.Db.Engine.{Engine, as_found}
use brewery_bitcoin.Db.Cursor.{IsReliableIterator}
use brewery_bitcoin.Db.Mock.{MockStore}
use brewery_bitcoin.Db.Mock.Refines as MockRefines
use brewery_bitcoin.Db.Mock.Batch.Commit.{stored}
use brewery_bitcoin.Db.Mock.Iterator.{
  MockEntry, MockIterator, entry_at, entry_of, snapshot, valid, key, value, bytes_of, next,
  seek_to_first,
}
use brewery_bitcoin.Db.Mock.Iterator as MockCalls
use brewery_bitcoin.Db.Mock.Iterator.Snapshot.{
  entry_keys, find, find-snapshot, snapshot-IsAscending,
}
use brewery_bitcoin.Db.Mock.Iterator.Seek.{seek-IsFirstAt}
use brewery_bitcoin.Db.Mock.Iterator.Reachable.{IsTidy}
use brewery_bitcoin.Db.Pebble.{PebbleDb}
use brewery_bitcoin.Db.Pebble.Refines as PebbleRefines
use brewery_bitcoin.Db.Examples.Memory.{dict_engine, within}
use brewery_bitcoin.Prelude.{
  ◌≡◌, refl, ap, ◌∙◌, subst, inl, inr, true, false, ◌&&◌, not, List, [], ◌∷◌, ◌++◌, arith,
  Bool-cases, is_some, All, IsDistinct, negsuc, Bytes, codes, same, same_iff, less, Dict, lookup,
  keys, ok,
}

abbrev pub tx : Bytes
tx = codes "tx"

abbrev pub file : Dict Bytes
file = (codes "tx" ++ 0 ∷ codes "a", codes "1") ∷ []

abbrev pub file_engine : Engine
file_engine = record dict_engine {
  get = λ d k. as_found (lookup k file);
  new_iter = λ d lower upper.
      ok (record { entries = within lower upper (snapshot file); position = negsuc 0 });
}

All-within :
    (P : Bytes → Type 0) (l u : Bytes) (xs : List MockEntry)
    → All P (entry_keys xs)
    → All P (entry_keys (within l u xs))
unfolding within
All-within P l u [] h = tt
All-within P l u (x ∷ xs) h = elim (Bool-cases (not (less x.key l) && less x.key u)) [
  | inl inside ↦ rw inside (h.0, All-within P l u xs h.1)
  | inr outside ↦ rw outside (All-within P l u xs h.1)
]

within-IsAscending :
    (l u : Bytes) (xs : List MockEntry)
    → IsAscending (entry_keys xs)
    → IsAscending (entry_keys (within l u xs))
unfolding within
within-IsAscending l u [] h = tt
within-IsAscending l u (x ∷ xs) h = elim (Bool-cases (not (less x.key l) && less x.key u)) [
  | inl inside ↦
      rw inside (All-within (λ j. less x.key j ≡ true) l u xs h.0, within-IsAscending l u xs h.1)
  | inr outside ↦ rw outside (within-IsAscending l u xs h.1)
]

within-bounds :
    (l u : Bytes) (xs : List MockEntry)
    → All (λ k. (less k l ≡ false) × (less k u ≡ true)) (entry_keys (within l u xs))
unfolding within
within-bounds l u [] = tt
within-bounds l u (x ∷ xs) = elim (Bool-cases (not (less x.key l) && less x.key u)) [
  | inl inside ↦ rw inside ((ground (arith, inside), ground (arith, inside)), within-bounds l u xs)
  | inr outside ↦ rw outside (within-bounds l u xs)
]

find-within :
    (l u k : Bytes) (xs : List MockEntry)
    → less k l ≡ false
    → less k u ≡ true
    → find k (within l u xs) ≡ find k xs
unfolding within
find-within l u k [] low high = refl
find-within l u k (x ∷ xs) low high =
    ground (arith, low, high, same_iff x.key k, find-within l u k xs low high)

pub file_engine-IsReliableIterator : IsReliableIterator file_engine
unfolding valid key value next seek_to_first MockCalls.seek_to_last MockCalls.prev
file_engine-IsReliableIterator = record {
  entries = λ it. it.entries;
  position = λ it. it.position;
  new_ascends = λ d l u it made.
      let same_entries : within l u (snapshot file) ≡ it.entries = ground (arith, made) in
      subst (λ xs. IsAscending (entry_keys xs)) same_entries
        (within-IsAscending l u (snapshot file) (snapshot-IsAscending file (tt, tt)));
  new_bounds = λ d l u it made.
      let same_entries : within l u (snapshot file) ≡ it.entries = ground (arith, made) in
      subst (λ xs. All (λ k. (less k l ≡ false) × (less k u ≡ true)) (entry_keys xs)) same_entries
        (within-bounds l u (snapshot file));
  new_find = λ d l u it k made low high.
      let same_entries : it.entries ≡ within l u (snapshot file) = ground (arith, made) in
      ap (find k) same_entries
      ∙ find-within l u k (snapshot file) low high
      ∙ find-snapshot file k
      ∙ ground arith;
  new_position = λ d l u it made. ground (arith, made);
  first_moves = λ it. (refl, refl);
  next_moves = λ it h. (refl, refl);
  last_moves = λ it. (refl, refl);
  prev_moves = λ it h. (refl, refl);
  seek_moves = seek-IsFirstAt;
  no_error = λ it. refl;
  valid_is = λ it. refl;
  key_is = λ it x at. ground (arith, at);
  value_is = λ it x at. ground (arith, at);
}

abbrev pub mock : MockStore
mock = record {
  buckets = (default_column_family, []) ∷ (tx, (codes "a", codes "1") ∷ []) ∷ [];
  is_closed = false;
}

abbrev pub pebble : PebbleDb file_engine
pebble = record {
  db = [];
  prefixes = (default_column_family, cf_prefix default_column_family) ∷ (tx, cf_prefix tx) ∷ [];
  write_opts = false;
  path = codes "/db";
  is_closed = false;
}

-- what both hold
abbrev pub state : Spec
state = record {
  is_closed = false;
  registered = λ cf. is_some (lookup cf mock.buckets);
  stored = λ cf k. stored mock.buckets cf k;
}

pub mock-Represents : MockRefines.Represents mock state
mock-Represents = record {
  same_closed = refl;
  families = λ o cf. refl;
  values = λ o cf bucket k at. ground (arith, at);
}

state_names : (cf : Bytes) → state.registered cf ≡ true → HasNoNul cf
unfolding lookup
state_names cf known = elim (Bool-cases (same default_column_family cf)) [
  | inl here ↦ subst HasNoNul ((same_iff default_column_family cf).0 here) (omega arith)
  | inr apart ↦ elim (Bool-cases (same tx cf)) [
    | inl there ↦ subst HasNoNul ((same_iff tx cf).0 there) (omega arith)
    | inr unknown ↦ absurd (ground (arith, known, apart, unknown))
  ]
]

file_key :
    (cf k : Bytes)
    → HasNoNul cf
    → same (codes "tx" ++ 0 ∷ codes "a") (prefixed_key (cf_prefix cf) k)
      ≡ (same tx cf && same (codes "a") k)
unfolding cf_prefix prefixed_key
file_key cf k h = same-prefixed_key tx cf (codes "a") k (omega arith) h

pub pebble-Represents : PebbleRefines.Represents pebble state
unfolding lookup
pebble-Represents = record {
  same_closed = refl;
  prefixes = λ cf. ground (arith, same_iff default_column_family cf, same_iff tx cf);
  names = state_names;
  values = λ o cf k known. ground (
    arith,
    known,
    file_key cf k (state_names cf known),
    same_iff default_column_family cf,
    same_iff tx cf,
  );
}

pub mock-IsTidy : IsTidy mock.buckets
unfolding lookup
mock-IsTidy cf bucket at = elim (Bool-cases (same default_column_family cf)) [
  | inl here ↦
      let e : [] ≡ bucket = ground (arith, at, here) in subst (λ b. IsDistinct (keys b)) e tt
  | inr apart ↦ elim (Bool-cases (same tx cf)) [
    | inl there ↦
        let e : (codes "a", codes "1") ∷ [] ≡ bucket = ground (arith, at, apart, there) in
        subst (λ b. IsDistinct (keys b)) e (tt, tt)
    | inr unknown ↦ absurd (ground (arith, at, apart, unknown))
  ]
]
