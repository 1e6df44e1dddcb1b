-- ===== src/Db/Mock/Iterator.antt =====
-- db/mock.go: NewIterator and mockIterator, an ascending snapshot of one bucket with a position
-- of type int. The position moves by `++` and `--` with no bound.
pub mod Snapshot
pub mod Seek
pub mod Found
pub mod Scan
pub mod Reachable
use brewery_bitcoin.Db.Base.{DbError, closed, column_family_not_found}
use brewery_bitcoin.Db.Mock.{MockStore}
use brewery_bitcoin.Stdlib.Search.{search_index}
use brewery_bitcoin.Stdlib.Sort.{sort_strings}
use brewery_bitcoin.Prelude.{
  ℕ, Bool, true, false, not, Option, none, some, List, [], map, ltb, if◌then◌else◌, length,
  get_elem?, ℤ, pos, negsuc, max_int64, increment, decrement, Bytes, less, Dict, lookup, keys,
  Result, ok, err,
}

pub record MockEntry : Type 0 where
  pub key : Bytes
  pub value : Bytes

pub record MockIterator : Type 0 where
  pub entries : List MockEntry
  pub position : ℤ

-- `mockEntry{key: []byte(k), value: copy of bucket[k]}`; a missing key would read as nil
abbrev pub bytes_of : Option Bytes → Bytes
bytes_of none = []
bytes_of (some v) = v

unfoldable pub entry_of : Dict Bytes → Bytes → MockEntry
entry_of bucket k = record { key = k; value = bytes_of (lookup k bucket) }

unfoldable pub snapshot : Dict Bytes → List MockEntry
unfolding entry_of
snapshot bucket = map (entry_of bucket) (sort_strings (keys bucket))

unfoldable pub new_iterator : MockStore → Bytes → Result DbError MockIterator
new_iterator m cf = if m.is_closed then err closed else elim (lookup cf m.buckets) [
  | none ↦ err (column_family_not_found cf)
  | some bucket ↦ ok (record { entries = snapshot bucket; position = negsuc 0 })
]

-- `bytes.Compare(entries[i].key, target) >= 0`. The search asks for indices in range only.
unfoldable pub at_or_after : Bytes → List MockEntry → ℕ → Bool
at_or_after target entries i = elim (get_elem? entries i) [
  | none ↦ true
  | some e ↦ not (less e.key target)
]

unfoldable pub seek : Bytes → MockIterator → MockIterator
seek target it = record it {
  position = pos (search_index (length it.entries) (at_or_after target it.entries));
}

unfoldable pub seek_to_first : MockIterator → MockIterator
seek_to_first it = record it { position = pos 0 }

unfoldable pub seek_to_last : MockIterator → MockIterator
unfolding decrement
seek_to_last it = record it { position = decrement max_int64 (pos (length it.entries)) }

unfoldable pub next : MockIterator → MockIterator
unfolding increment
next it = record it { position = increment max_int64 it.position }

unfoldable pub prev : MockIterator → MockIterator
unfolding decrement
prev it = record it { position = decrement max_int64 it.position }

-- `pos >= 0 && pos < len(entries)`, and then the entry there
abbrev pub entry_at : List MockEntry → ℤ → Option MockEntry
entry_at entries (pos n) = if ltb n (length entries) then get_elem? entries n else none
entry_at entries (negsuc n) = none

abbrev pub valid_at : List MockEntry → ℤ → Bool
valid_at entries (pos n) = ltb n (length entries)
valid_at entries (negsuc n) = false

unfoldable pub valid : MockIterator → Bool
valid it = valid_at it.entries it.position

-- Key and Value, `none` for nil
unfoldable pub key : MockIterator → Option Bytes
key it = elim (entry_at it.entries it.position) [ none ↦ none | some e ↦ some e.key ]

unfoldable pub value : MockIterator → Option Bytes
value it = elim (entry_at it.entries it.position) [ none ↦ none | some e ↦ some e.value ]
