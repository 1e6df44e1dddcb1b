-- ===== src/Db/SeekAgreement.antt =====
-- db/mock.go and db/pebble.go: Seek of an iterator against Get of the store.
use brewery_bitcoin.Db.Contract.{Spec}
use brewery_bitcoin.Db.Engine.{Engine, as_found}
use brewery_bitcoin.Db.Cursor.{IsReliableIterator}
use brewery_bitcoin.Db.Cursor.Moves.{Reading, to, mock_read, mock_moves, pebble_moves}
use brewery_bitcoin.Db.MoveAgreement.{moves_agree_lem}
use brewery_bitcoin.Db.Mock.{MockStore}
use brewery_bitcoin.Db.Mock.Refines as MockRefines
use brewery_bitcoin.Db.Mock.Iterator as MockCalls
use brewery_bitcoin.Db.Mock.Iterator.{MockEntry, MockIterator, entry_at, valid_at}
use brewery_bitcoin.Db.Mock.Iterator.Snapshot.{
  find, find-snapshot, snapshot-IsAscending, entry_keys,
}
use brewery_bitcoin.Db.Mock.Iterator.Found.{seek-find}
use brewery_bitcoin.Db.Mock.Iterator.Reachable.{IsTidy}
use brewery_bitcoin.Stdlib.Sort.{IsAscending}
use brewery_bitcoin.Db.Pebble.{PebbleDb}
use brewery_bitcoin.Db.Pebble
use brewery_bitcoin.Db.Pebble.Refines as PebbleRefines
use brewery_bitcoin.Db.Pebble.Iterator as PebbleCalls
use brewery_bitcoin.Db.Pebble.Iterator.{PebbleIterator}
use brewery_bitcoin.Prelude.{
  ◌≡◌, refl, sym, ap, ◌∙◌, subst, ◌↔◌, inl, inr, true, false, Option, none, some, [], ◌∷◌, arith,
  ltb, if◌then◌else◌, ltb→lt, Bool-cases, Option-cases, length, get_elem?-lt, ℤ, pos, negsuc, Bytes,
  lookup, ok,
}

-- what is read of an entry
abbrev reading_of : Option MockEntry → Reading
reading_of none = none
reading_of (some x) = some (some x.key, some x.value)

mock_read-entry : (it : MockIterator) → mock_read it ≡ reading_of (entry_at it.entries it.position)
unfolding MockCalls.valid MockCalls.key MockCalls.value
mock_read-entry it = at it.position
  where
    at :
        (p : ℤ)
        → (if valid_at it.entries p
            then some (
              elim (entry_at it.entries p) [ none ↦ none | some e ↦ some e.key ],
              elim (entry_at it.entries p) [ none ↦ none | some e ↦ some e.value ],
            )
            else none)
          ≡ reading_of (entry_at it.entries p)
    at (negsuc n) = refl
    at (pos n) = elim (Bool-cases (ltb n (length it.entries))) [
      | inl lt ↦
          let (e, there) = get_elem?-lt it.entries n (ltb→lt n (length it.entries) lt) in
          rw (lt, there) refl
      | inr ge ↦ rw ge refl
    ]

reading_of-inv :
    (o : Option MockEntry) (k v : Bytes)
    → (o ≡ some (record { key = k; value = v })) ↔ (reading_of o ≡ some (some k, some v))
reading_of-inv none k v = (λ h. absurd (cc h), λ h. absurd (cc h))
reading_of-inv (some x) k v = (λ h. ap reading_of h, λ h. ground (arith, h))

got :
    {e : Engine} (p : PebbleDb e) (s : Spec) (cf k : Bytes)
    → PebbleRefines.Represents p s
    → s.is_closed ≡ false
    → s.registered cf ≡ true
    → Pebble.get p cf (some k) ≡ Pebble.get_outcome (as_found (s.stored cf k))
unfolding Pebble.get Pebble.checked
got p s cf k h open' known =
    ground (arith, h.same_closed, open', h.prefixes cf, known, h.values open' cf k known)

outcome-inv :
    (o : Option Bytes) (v : Bytes) → (Pebble.get_outcome (as_found o) ≡ ok v) ↔ (o ≡ some v)
outcome-inv none v = (λ h. absurd (cc h), λ h. absurd (cc h))
outcome-inv (some w) v = (λ h. cc h, λ h. cc h)

-- what the mock's iterator was made of
record IsSnapshot (m : MockStore) (s : Spec) (cf : Bytes) (mit : MockIterator) : Type 0 where
  known : s.registered cf ≡ true
  ascends : IsAscending (entry_keys mit.entries)
  finds : (k : Bytes) → find k mit.entries ≡ s.stored cf k

made_of :
    (m : MockStore) (s : Spec) (cf : Bytes) (mit : MockIterator)
    → MockRefines.Represents m s
    → s.is_closed ≡ false
    → IsTidy m.buckets
    → MockCalls.new_iterator m cf ≡ ok mit
    → IsSnapshot m s cf mit
unfolding MockCalls.new_iterator
made_of m s cf mit h open' tidy made = elim (Option-cases (lookup cf m.buckets)) [
  | inl absent ↦ absurd (ground (arith, made, absent))
  | inr (bucket, there) ↦
      let entries : MockCalls.snapshot bucket ≡ mit.entries = ground (arith, made, there) in
      record {
        known = sym (h.families open' cf) ∙ ground (arith, there);
        ascends =
            subst (λ l. IsAscending (entry_keys l)) entries
              (snapshot-IsAscending bucket (tidy cf bucket there));
        finds = λ k.
            ap (find k) (sym entries) ∙ find-snapshot bucket k ∙ h.values open' cf bucket k there;
      }
]

-- Let a MockStore, whose buckets hold each key once, and a PebbleDB represent one open state, over an
-- engine whose iterators are cursors on the entries of their range, and let NewIterator of each return
-- an iterator over a family. Then Get of the PebbleDB returns a value for a key of that family exactly
-- if, after Seek to the key, the iterator of the PebbleDB is valid and its Key and Value are the key,
-- without the prefix it is stored under, and the value.
pub get-seek :
    {e : Engine} (rel : IsReliableIterator e) (m : MockStore) (p : PebbleDb e) (s : Spec)
    (cf k v : Bytes) (it : PebbleIterator e) (mit : MockIterator)
    → MockRefines.Represents m s
    → PebbleRefines.Represents p s
    → s.is_closed ≡ false
    → IsTidy m.buckets
    → PebbleCalls.new_iterator p cf ≡ ok it
    → MockCalls.new_iterator m cf ≡ ok mit
    → (Pebble.get p cf (some k) ≡ ok v)
      ↔ ((pebble_moves (to k ∷ []) it).0 ≡ some (some k, some v) ∷ [])
unfolding mock_moves MockCalls.seek
get-seek rel m p s cf k v it mit hm hp open' tidy made_p made_m =
    let o = made_of m s cf mit hm open' tidy made_m in
    let get = got p s cf k hp open' o.known in
    let stored = outcome-inv (s.stored cf k) v in
    let stands = seek-find k v mit o.ascends in
    let sought = MockCalls.seek k mit in
    let read = reading_of-inv (entry_at mit.entries sought.position) k v in
    let moves : (pebble_moves (to k ∷ []) it).0 ≡ mock_read sought ∷ [] =
      (moves_agree_lem rel m p s cf it mit (to k ∷ []) hm hp open' tidy made_p made_m).0 in
    (
      λ h.
          moves
          ∙ ap (λ r. r ∷ [])
              (mock_read-entry sought ∙ read.0 (stands.0 (o.finds k ∙ stored.0 (sym get ∙ h)))),
      λ h.
          get
          ∙ stored.1 (
              sym (o.finds k)
              ∙ stands.1 (read.1 (sym (mock_read-entry sought) ∙ cc (sym moves ∙ h)))),
    )
