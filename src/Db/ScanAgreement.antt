-- ===== src/Db/ScanAgreement.antt =====
-- db/pebble.go: a caller's scan of a PebbleDB iterator against that of a MockStore's iterator.
use brewery_bitcoin.Db.Cursor.{IsReliableIterator}
use brewery_bitcoin.Db.Mock.Iterator as MockCalls
use brewery_bitcoin.Db.Pebble.Iterator as PebbleCalls
use brewery_bitcoin.Db.Contract.{Spec}
use brewery_bitcoin.Db.Engine.{Engine}
use brewery_bitcoin.Db.Cursor.Entries.{stripped}
use brewery_bitcoin.Db.Cursor.Opened.{opened}
use brewery_bitcoin.Db.Cursor.View.{
  view, entry_at-valid, value-view, key-view, visited-view, next-view, valid-view,
}
use mathlib.Core.Path.{ap₂}
use brewery_bitcoin.Db.Mock.{MockStore}
use brewery_bitcoin.Db.Mock.Refines as MockRefines
use brewery_bitcoin.Db.Mock.Iterator.{
  MockEntry, MockIterator, entry_at, valid_at, bytes_of, snapshot,
}
use brewery_bitcoin.Db.Mock.Iterator.Scan.{walk, walk_from_first}
use brewery_bitcoin.Db.Mock.Iterator.Reachable.{IsTidy}
use brewery_bitcoin.Db.Pebble.{PebbleDb}
use brewery_bitcoin.Db.Pebble.Refines as PebbleRefines
use brewery_bitcoin.Db.Pebble.Iterator.{PebbleIterator, iterator_of}
use brewery_bitcoin.Prelude.{
  ℕ, zero, suc, ◌+◌, ◌≤◌, ◌≡◌, refl, ap, ◌∙◌, inl, inr, false, Option, none, some, List, [], ◌∷◌,
  map, arith, if◌then◌else◌, Bool-cases, length, max_int64, Bytes, ok,
}

-- A caller's loop `for it.SeekToFirst(); it.Valid(); it.Next()` over an iterator of PebbleDB, whose
-- body reads Key and Value; `none` means that the fuel ran out.
unfoldable pub scan : {e : Engine} → ℕ → PebbleIterator e → Option (List MockEntry)
scan zero it = none
scan (suc fuel) it =
    let (it', v) = PebbleCalls.value it in
    let rest = scan fuel (PebbleCalls.next it') in
    if PebbleCalls.valid it
    then elim rest [
      | none ↦ none
      | some es ↦ some (record { key = bytes_of (PebbleCalls.key it); value = bytes_of v } ∷ es)
    ]
    else some []

module _ {e : Engine} (rel : IsReliableIterator e) where
  scan-walk :
      (fuel : ℕ) (it : PebbleIterator e) → scan fuel it ≡ walk MockCalls.next fuel (view rel it)
  unfolding scan walk
  scan-walk zero it = refl
  scan-walk (suc fuel) it =
      let (pebble_valid, mock_valid) = valid-view rel it in
      elim (Bool-cases (valid_at (rel.entries it.iter) (rel.position it.iter))) [
        | inl h ↦
            let (x, at) = entry_at-valid (rel.entries it.iter) (rel.position it.iter) h in
            ground (
              arith,
              h,
              pebble_valid,
              mock_valid,
              value-view rel it x at,
              key-view rel it x at,
              visited-view rel it x at,
              next-view rel it h,
              scan-walk fuel (PebbleCalls.next it),
            )
        | inr h ↦ ground (arith, h, pebble_valid, mock_valid)
      ]

-- Let a MockStore, whose buckets hold each key once, and a PebbleDB represent one open state, over an
-- engine whose iterators are cursors on the entries of their range, and let NewIterator of each return
-- an iterator over a family with at most 2^63 - 1 entries. Then a forward loop from SeekToFirst over
-- either ends, and both visit the same keys and values in the same order.
pub scan_agrees :
    {e : Engine} (rel : IsReliableIterator e) (m : MockStore) (p : PebbleDb e) (s : Spec)
    (cf : Bytes) (it : PebbleIterator e) (mit : MockIterator)
    → MockRefines.Represents m s
    → PebbleRefines.Represents p s
    → s.is_closed ≡ false
    → IsTidy m.buckets
    → PebbleCalls.new_iterator p cf ≡ ok it
    → MockCalls.new_iterator m cf ≡ ok mit
    → length mit.entries ≤ max_int64
    → (scan (length mit.entries + 1) (PebbleCalls.seek_to_first it) ≡ some mit.entries)
      × (walk MockCalls.next (length mit.entries + 1) (MockCalls.seek_to_first mit)
          ≡ some mit.entries)
unfolding PebbleCalls.seek_to_first MockCalls.seek_to_first
scan_agrees {e = e} rel m p s cf it mit hm hp open' tidy made_p made_m fits =
    let o = opened rel m p s cf it mit hm hp open' tidy made_p made_m in
    let (kept, at_first) = rel.first_moves it.iter in
    let same_entries : map (stripped it.prefix_len) (rel.entries (e.first it.iter)) ≡ mit.entries =
      ap₂ (λ n. map (stripped n)) o.len kept ∙ o.same_entries in
    let start : view rel (PebbleCalls.seek_to_first it) ≡ MockCalls.seek_to_first mit =
      cc (same_entries, at_first) in
    (
      scan-walk rel (length mit.entries + 1) (PebbleCalls.seek_to_first it)
          ∙ ap (walk MockCalls.next (length mit.entries + 1)) start
          ∙ walk_from_first mit fits,
      walk_from_first mit fits,
    )
