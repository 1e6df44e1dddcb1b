-- ===== src/Db/Cursor.antt =====
-- db/pebble.go: pebbleIterator over an engine whose iterators are cursors on a list of entries,
-- against mockIterator of db/mock.go.
pub mod Entries
pub mod Opened
pub mod View
pub mod Moves
pub mod Sought
pub mod Followed
use brewery_bitcoin.Stdlib.Sort.{IsAscending}
use brewery_bitcoin.Db.Engine.{Engine, Found, found}
use brewery_bitcoin.Db.Mock.Iterator.{MockEntry, entry_at, valid_at}
use brewery_bitcoin.Db.Mock.Iterator.Seek.{IsFirstAt}
use brewery_bitcoin.Db.Mock.Iterator.Snapshot.{entry_keys, find}
use brewery_bitcoin.Prelude.{
  ℕ, ◌≡◌, refl, sym, ◌∙◌, subst, inl, inr, true, false, Option, none, some, List, [], ◌∷◌, arith,
  Bool-cases, length, All, ℤ, pos, negsuc, max_int64, increment, decrement, Bytes, same, same_iff,
  same_self, less, less_irrefl, less_trans, less_total, keys, ok,
}

abbrev pub option_of : Found → Option Bytes
option_of (found v) = some v
option_of _ = none

-- Iterators of the engine as cursors: the entries of the range in ascending order, and a position.
pub record IsReliableIterator (e : Engine) : Type 0 where
  pub entries : e.Iter → List MockEntry
  pub position : e.Iter → ℤ
  pub new_ascends :
      (d : e.Db) (lower upper : Bytes) (it : e.Iter)
      → e.new_iter d lower upper ≡ ok it
      → IsAscending (entry_keys (entries it))
  pub new_bounds :
      (d : e.Db) (lower upper : Bytes) (it : e.Iter)
      → e.new_iter d lower upper ≡ ok it
      → All (λ k. (less k lower ≡ false) × (less k upper ≡ true)) (entry_keys (entries it))
  pub new_find :
      (d : e.Db) (lower upper : Bytes) (it : e.Iter) (k : Bytes)
      → e.new_iter d lower upper ≡ ok it
      → less k lower ≡ false
      → less k upper ≡ true
      → find k (entries it) ≡ option_of (e.get d k)
  pub new_position :
      (d : e.Db) (lower upper : Bytes) (it : e.Iter)
      → e.new_iter d lower upper ≡ ok it
      → position it ≡ negsuc 0
  pub first_moves :
      (it : e.Iter) → (entries (e.first it) ≡ entries it) × (position (e.first it) ≡ pos 0)
  pub next_moves :
      (it : e.Iter)
      → valid_at (entries it) (position it) ≡ true
      → (entries (e.next it) ≡ entries it)
        × (position (e.next it) ≡ increment max_int64 (position it))
  pub last_moves :
      (it : e.Iter)
      → (entries (e.last it) ≡ entries it)
        × (position (e.last it) ≡ decrement max_int64 (pos (length (entries it))))
  pub prev_moves :
      (it : e.Iter)
      → valid_at (entries it) (position it) ≡ true
      → (entries (e.prev it) ≡ entries it)
        × (position (e.prev it) ≡ decrement max_int64 (position it))
  pub seek_moves :
      (k : Bytes) (it : e.Iter)
      → IsAscending (entry_keys (entries it))
      → (n : ℕ) × (position (e.seek_ge it k) ≡ pos n)
        × (entries (e.seek_ge it k) ≡ entries it)
        × IsFirstAt k (entries it) n
  pub no_error : (it : e.Iter) → e.iter_error it ≡ none
  pub valid_is : (it : e.Iter) → e.valid it ≡ valid_at (entries it) (position it)
  pub key_is :
      (it : e.Iter) (x : MockEntry)
      → entry_at (entries it) (position it) ≡ some x
      → e.iter_key it ≡ x.key
  pub value_is :
      (it : e.Iter) (x : MockEntry)
      → entry_at (entries it) (position it) ≡ some x
      → e.value_and_err it ≡ ok x.value

find-none :
    (k : Bytes) (xs : List MockEntry)
    → All (λ j. less k j ≡ true) (entry_keys xs)
    → find k xs ≡ none
find-none k [] h = refl
find-none k (x ∷ xs) h = ground (arith, h, same_iff x.key k, less_irrefl k, find-none k xs h.1)

All-less :
    (a b : Bytes) (ks : List Bytes)
    → less a b ≡ true
    → All (λ j. less b j ≡ true) ks
    → All (λ j. less a j ≡ true) ks
All-less a b [] lt h = tt
All-less a b (k ∷ ks) lt h = (less_trans a b k lt h.0, All-less a b ks lt h.1)

-- a key below the first is not found
find-below :
    (k : Bytes) (y : MockEntry) (ys : List MockEntry)
    → IsAscending (entry_keys (y ∷ ys))
    → less k y.key ≡ true
    → find k (y ∷ ys) ≡ none
find-below k y ys h lt = find-none k (y ∷ ys) (lt, All-less k y.key (entry_keys ys) lt h.0)

heads_equal :
    (x y : MockEntry) (xs ys : List MockEntry)
    → IsAscending (entry_keys (x ∷ xs))
    → IsAscending (entry_keys (y ∷ ys))
    → ((k : Bytes) → find k (x ∷ xs) ≡ find k (y ∷ ys))
    → x ≡ y
heads_equal x y xs ys h h' e = elim (Bool-cases (less x.key y.key)) [
  | inl lt ↦ absurd (ground (arith, e x.key, find-below x.key y ys h' lt, same_self x.key))
  | inr ge ↦ elim (Bool-cases (less y.key x.key)) [
    | inl gt ↦ absurd (ground (arith, e y.key, find-below y.key x xs h gt, same_self y.key))
    | inr le ↦
        let keys : x.key ≡ y.key = less_total x.key y.key ge le in
        let reads : some x.value ≡ some y.value =
          ground (arith, e x.key, keys, same_self x.key, same_self y.key, same_iff y.key x.key) in
        cc (keys, reads)
  ]
]

tails_agree :
    (x : MockEntry) (xs ys : List MockEntry)
    → IsAscending (entry_keys (x ∷ xs))
    → IsAscending (entry_keys (x ∷ ys))
    → ((k : Bytes) → find k (x ∷ xs) ≡ find k (x ∷ ys))
    → (k : Bytes) → find k xs ≡ find k ys
tails_agree x xs ys h h' e k = elim (Bool-cases (same x.key k)) [
  | inl here ↦
      let at : x.key ≡ k = (same_iff x.key k).0 here in
      find-none k xs (subst (λ a. All (λ j. less a j ≡ true) (entry_keys xs)) at h.0)
      ∙ sym (find-none k ys (subst (λ a. All (λ j. less a j ≡ true) (entry_keys ys)) at h'.0))
  | inr apart ↦ ground (arith, e k, apart)
]

-- Ascending lists that read the same at every key are equal.
pub ascending_unique :
    (xs ys : List MockEntry)
    → IsAscending (entry_keys xs)
    → IsAscending (entry_keys ys)
    → ((k : Bytes) → find k xs ≡ find k ys)
    → xs ≡ ys
ascending_unique [] [] h h' e = refl
ascending_unique [] (y ∷ ys) h h' e = absurd (ground (arith, e y.key, same_self y.key))
ascending_unique (x ∷ xs) [] h h' e = absurd (ground (arith, e x.key, same_self x.key))
ascending_unique (x ∷ xs) (y ∷ ys) h h' e =
    let head : y ≡ x = sym (heads_equal x y xs ys h h' e) in
    let h'' : IsAscending (entry_keys (x ∷ ys)) =
      subst (λ z. IsAscending (entry_keys (z ∷ ys))) head h' in
    let e' : (k : Bytes) → find k (x ∷ xs) ≡ find k (x ∷ ys) =
      subst (λ z. (k : Bytes) → find k (x ∷ xs) ≡ find k (z ∷ ys)) head e in
    cc (head, ascending_unique xs ys h.1 h'.1 (tails_agree x xs ys h h'' e'))
