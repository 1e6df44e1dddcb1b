-- ===== src/Db/Examples/Iterators.antt =====
-- The theorems on the iterator of the in-memory store.
use mathlib.Core.List.{reverse}
use brewery_bitcoin.Stdlib.Sort.{sort_strings, IsAscending}
use brewery_bitcoin.Db.Base.{default_column_family}
use brewery_bitcoin.Db.Mock.{MockStore, new_mock_store, register}
use brewery_bitcoin.Db.Mock.Batch.{MockBatch, new_batch, put, stage, commit, apply_op, apply_ops}
use brewery_bitcoin.Db.Mock.Batch.Commit.{stored}
use brewery_bitcoin.Db.Mock.Batch.Interleaved.{play, play_event, stage_put, commit_batch, Event}
use brewery_bitcoin.Db.Mock.Iterator.{
  entry_of, MockEntry, MockIterator, seek, seek_to_first, seek_to_last, next, prev, new_iterator,
  valid, snapshot,
}
use brewery_bitcoin.Db.Mock.Iterator.Snapshot.{entry_keys, find}
use brewery_bitcoin.Db.Mock.Iterator.Seek.{seek-IsFirstAt, IsFirstAt}
use brewery_bitcoin.Db.Mock.Iterator.Scan.{walk, walks_visit_all}
use brewery_bitcoin.Db.Mock.Iterator.Reachable.{new_iterator_lem}
use brewery_bitcoin.Prelude.{
  ℕ, String, ◌≡◌, refl, false, some, List, [], ◌∷◌, arith, pos, negsuc, Bytes, codes, same, less,
  lookup, insert,
}

abbrev tx : Bytes
tx = codes "tx"

abbrev store : MockStore
store = new_mock_store (tx ∷ [])

abbrev batch : MockBatch
batch = (put store (new_batch store) tx (some (codes "a")) (codes "1")).0

abbrev entry : String → MockEntry
entry s = record { key = codes s; value = codes s }

abbrev iterator : MockIterator
iterator = record { entries = entry "a" ∷ entry "c" ∷ entry "d" ∷ []; position = negsuc 0 }

walks_visit_all_example :
    (walk next 4 (seek_to_first iterator) ≡ some iterator.entries)
    × (walk prev 4 (seek_to_last iterator) ≡ some (reverse iterator.entries))
walks_visit_all_example = walks_visit_all iterator (omega arith)

seek-IsFirstAt_example :
    (n : ℕ) × ((seek (codes "b") iterator).position ≡ pos n)
    × ((seek (codes "b") iterator).entries ≡ iterator.entries)
    × IsFirstAt (codes "b") iterator.entries n
unfolding less
seek-IsFirstAt_example =
    seek-IsFirstAt (codes "b") iterator ((refl, (refl, tt)), ((refl, tt), (tt, tt)))

-- a write through a batch, and the store, the batch and the iterator after it
abbrev writes : List Event
writes = stage_put tx (some (codes "a")) (codes "1") ∷ commit_batch ∷ []

abbrev written : MockStore
written = record {
  buckets = (default_column_family, []) ∷ (tx, (codes "a", codes "1") ∷ []) ∷ [];
  is_closed = false;
}

abbrev over_written : MockIterator
over_written = record {
  entries = record { key = codes "a"; value = codes "1" } ∷ [];
  position = negsuc 0;
}

new_iterator_lem_example :
    (valid over_written ≡ false)
    × IsAscending (entry_keys over_written.entries)
    × ((k : Bytes) → find k over_written.entries ≡ stored written.buckets tx k)
unfolding new_iterator play play_event commit apply_ops apply_op put stage new_mock_store register
    lookup insert snapshot entry_of same sort_strings new_batch
new_iterator_lem_example = new_iterator_lem (tx ∷ []) writes written batch tx over_written refl refl
