-- ===== src/Db/Examples/Scans.antt =====
-- The theorems on iterators at the concrete database.
use brewery_bitcoin.Stdlib.Search.{search_index}
use brewery_bitcoin.Stdlib.Sort.{sort_strings}
use brewery_bitcoin.Db.Keys.{cf_prefix, cf_upper_bound}
use brewery_bitcoin.Db.Mock.Iterator.{
  MockEntry, MockIterator, entry_at, entry_of, snapshot, valid, key, value, bytes_of, next,
  seek_to_first,
}
use brewery_bitcoin.Db.Mock.Iterator as MockCalls
use brewery_bitcoin.Db.Mock.Iterator.Scan.{walk}
use brewery_bitcoin.Db.Pebble
use brewery_bitcoin.Db.SeekAgreement.{get-seek}
use brewery_bitcoin.Db.Pebble.Iterator.{PebbleIterator}
use brewery_bitcoin.Db.Pebble.Iterator as PebbleCalls
use brewery_bitcoin.Db.ScanAgreement.{scan, scan_agrees}
use brewery_bitcoin.Db.Examples.Memory.{within}
use brewery_bitcoin.Db.Cursor.Moves.{
  Move, to_first, to_last, forward, backward, to, mock_moves, pebble_moves,
}
use brewery_bitcoin.Db.MoveAgreement.{moves_agree_lem}
use brewery_bitcoin.Db.Examples.Stores.{
  tx, file, file_engine, file_engine-IsReliableIterator, mock, pebble, state, mock-Represents,
  pebble-Represents, mock-IsTidy,
}
use brewery_bitcoin.Prelude.{
  ◌≡◌, refl, ◌↔◌, false, none, some, List, [], ◌∷◌, arith, negsuc, codes, same, less, lookup, ok,
}

abbrev expected : List MockEntry
expected = record { key = codes "a"; value = codes "1" } ∷ []

abbrev pebble_iterator : PebbleIterator file_engine
pebble_iterator = record {
  iter = record { entries = snapshot file; position = negsuc 0 };
  prefix = cf_prefix tx;
  prefix_len = 3;
  is_closed = false;
  failure = none;
}

abbrev mock_iterator : MockIterator
mock_iterator = record { entries = expected; position = negsuc 0 }

scan_agrees_example :
    (scan 2 (PebbleCalls.seek_to_first pebble_iterator) ≡ some expected)
    × (walk MockCalls.next 2 (MockCalls.seek_to_first mock_iterator) ≡ some expected)
unfolding PebbleCalls.new_iterator MockCalls.new_iterator lookup same snapshot entry_of sort_strings
    within less cf_prefix cf_upper_bound
scan_agrees_example =
    scan_agrees file_engine-IsReliableIterator mock pebble state tx pebble_iterator mock_iterator
      mock-Represents pebble-Represents refl mock-IsTidy refl refl (omega arith)

abbrev calls : List Move
calls = to_first ∷ forward ∷ to (codes "A") ∷ backward ∷ to_last ∷ []

moves_agree_lem_example :
    ((pebble_moves calls pebble_iterator).0 ≡ mock_moves calls mock_iterator)
    × (PebbleCalls.failure_of (pebble_moves calls pebble_iterator).1 ≡ none)
unfolding PebbleCalls.new_iterator MockCalls.new_iterator lookup same snapshot entry_of sort_strings
    within less cf_prefix cf_upper_bound
moves_agree_lem_example =
    moves_agree_lem file_engine-IsReliableIterator mock pebble state tx pebble_iterator
      mock_iterator calls mock-Represents pebble-Represents refl mock-IsTidy refl refl

-- What the calls read.
calls_read :
    mock_moves calls mock_iterator
    ≡ some (some (codes "a"), some (codes "1"))
      ∷ none
      ∷ some (some (codes "a"), some (codes "1"))
      ∷ none
      ∷ some (some (codes "a"), some (codes "1"))
      ∷ []
unfolding mock_moves MockCalls.valid MockCalls.key MockCalls.value MockCalls.next MockCalls.prev
    MockCalls.seek MockCalls.seek_to_first MockCalls.seek_to_last MockCalls.at_or_after less
    search_index
calls_read = refl

get-seek_example : (Pebble.get pebble tx (some (codes "a")) ≡ ok (codes "1")) ↔ (
    (pebble_moves (to (codes "a") ∷ []) pebble_iterator).0
    ≡ some (some (codes "a"), some (codes "1")) ∷ [])
unfolding PebbleCalls.new_iterator MockCalls.new_iterator lookup same snapshot entry_of sort_strings
    within less cf_prefix cf_upper_bound
get-seek_example =
    get-seek file_engine-IsReliableIterator mock pebble state tx (codes "a") (codes "1")
      pebble_iterator mock_iterator mock-Represents pebble-Represents refl mock-IsTidy refl refl
