-- ===== src/Db/Cursor/Moves.antt =====
-- db/pebble.go: a caller's calls on an iterator of PebbleDB against the same calls on a MockStore's.
-- The caller asks Valid before it calls Next, Prev, Key or Value, as the interface wants.
use brewery_bitcoin.Db.Engine.{Engine}
use brewery_bitcoin.Db.Mock.Iterator as MockCalls
use brewery_bitcoin.Db.Mock.Iterator.{MockEntry, MockIterator, entry_at, valid_at}
use brewery_bitcoin.Db.Pebble.Iterator as PebbleCalls
use brewery_bitcoin.Db.Pebble.Iterator.{PebbleIterator}
use brewery_bitcoin.Prelude.{Option, none, some, List, [], ◌∷◌, if◌then◌else◌, Bytes}

pub data Move : Type 0 where
  to_first to_last forward backward : Move
  to : Bytes → Move

-- one move, and what is read afterwards: Key and Value, if Valid
abbrev pub mock_move : Move → MockIterator → MockIterator
mock_move to_first it = MockCalls.seek_to_first it
mock_move to_last it = MockCalls.seek_to_last it
mock_move forward it = if MockCalls.valid it then MockCalls.next it else it
mock_move backward it = if MockCalls.valid it then MockCalls.prev it else it
mock_move (to target) it = MockCalls.seek target it

abbrev pub Reading : Type 0
Reading = Option (Option Bytes × Option Bytes)

abbrev pub mock_read : MockIterator → Reading
mock_read it = if MockCalls.valid it then some (MockCalls.key it, MockCalls.value it) else none

unfoldable pub mock_moves : List Move → MockIterator → List Reading
mock_moves [] it = []
mock_moves (x ∷ xs) it = mock_read (mock_move x it) ∷ mock_moves xs (mock_move x it)

module _ {e : Engine} where
  abbrev pub pebble_move : Move → PebbleIterator e → PebbleIterator e
  pebble_move to_first it = PebbleCalls.seek_to_first it
  pebble_move to_last it = PebbleCalls.seek_to_last it
  pebble_move forward it = if PebbleCalls.valid it then PebbleCalls.next it else it
  pebble_move backward it = if PebbleCalls.valid it then PebbleCalls.prev it else it
  pebble_move (to target) it = PebbleCalls.seek target it

  abbrev pub pebble_read : PebbleIterator e → PebbleIterator e × Reading
  pebble_read it =
      let (it', v) = PebbleCalls.value it in
      if PebbleCalls.valid it then (it', some (PebbleCalls.key it, v)) else (it, none)

  -- the readings, and the iterator after them
  unfoldable pub pebble_moves : List Move → PebbleIterator e → List Reading × PebbleIterator e
  pebble_moves [] it = ([], it)
  pebble_moves (x ∷ xs) it =
      let (it', r) = pebble_read (pebble_move x it) in
      let (rs, last) = pebble_moves xs it' in (r ∷ rs, last)
