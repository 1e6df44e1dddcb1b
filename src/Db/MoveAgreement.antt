-- ===== src/Db/MoveAgreement.antt =====
-- db/mock.go and db/pebble.go: any use of the iterators of the two stores against each other.
use brewery_bitcoin.Db.Contract.{Spec}
use brewery_bitcoin.Db.Keys.{cf_prefix}
use brewery_bitcoin.Db.Engine.{Engine}
use brewery_bitcoin.Db.Cursor.{IsReliableIterator}
use brewery_bitcoin.Db.Cursor.Entries.{stripped, All-scope}
use brewery_bitcoin.Db.Cursor.Moves.{Move, mock_read, mock_moves, pebble_move, pebble_moves}
use brewery_bitcoin.Db.Cursor.Opened.{opened}
use brewery_bitcoin.Db.Cursor.View.{view}
use brewery_bitcoin.Db.Cursor.Followed.{IsScoped, follow, read-view, same_iterator}
use brewery_bitcoin.Db.Mock.{MockStore}
use brewery_bitcoin.Db.Mock.Refines as MockRefines
use brewery_bitcoin.Db.Mock.Iterator as MockCalls
use brewery_bitcoin.Db.Mock.Iterator.{MockIterator}
use brewery_bitcoin.Db.Mock.Iterator.Snapshot.{entry_keys}
use brewery_bitcoin.Db.Mock.Iterator.Reachable.{IsTidy}
use brewery_bitcoin.Db.Pebble.{PebbleDb}
use brewery_bitcoin.Db.Pebble.Refines as PebbleRefines
use brewery_bitcoin.Db.Pebble.Iterator as PebbleCalls
use brewery_bitcoin.Db.Pebble.Iterator.{PebbleIterator}
use brewery_bitcoin.Prelude.{
  ◌≡◌, refl, sym, ap, ◌∙◌, false, none, List, [], ◌∷◌, map, arith, Bytes, ok,
}

module _ {e : Engine} (rel : IsReliableIterator e) where
  -- The readings agree, and no error is kept.
  moves_agree :
      (prefix : Bytes) (xs : List Move) (it : PebbleIterator e)
      → IsScoped rel prefix it
      → ((pebble_moves xs it).0 ≡ mock_moves xs (view rel it))
        × ((pebble_moves xs it).1.failure ≡ none)
  unfolding pebble_moves mock_moves
  moves_agree prefix [] it h = (refl, h.no_failure)
  moves_agree prefix (x ∷ xs) it h =
      let (h', seen) = follow rel prefix x it h in
      let (agree, sound) = moves_agree prefix xs (pebble_move x it) h' in
      let read = read-view rel prefix (pebble_move x it) h' in
      rw read (
        ap (λ rs. mock_read (view rel (pebble_move x it)) ∷ rs) agree
            ∙ ap (λ (v : MockIterator). mock_read v ∷ mock_moves xs v) seen,
        sound,
      )

-- Let a MockStore, whose buckets hold each key once, and a PebbleDB represent one open state, over an
-- engine whose iterators are cursors on the entries of their range, and let NewIterator of each return
-- an iterator over a family. Then after each of any calls of Seek, SeekToFirst, SeekToLast, Next and
-- Prev, the last two made only while Valid holds, both are valid or neither is, with equal Key and
-- Value in the first case; and Err of the PebbleDB iterator at the end is nil, as always for the
-- mock's.
pub moves_agree_lem :
    {e : Engine} (rel : IsReliableIterator e) (m : MockStore) (p : PebbleDb e) (s : Spec)
    (cf : Bytes) (it : PebbleIterator e) (mit : MockIterator) (xs : List Move)
    → MockRefines.Represents m s
    → PebbleRefines.Represents p s
    → s.is_closed ≡ false
    → IsTidy m.buckets
    → PebbleCalls.new_iterator p cf ≡ ok it
    → MockCalls.new_iterator m cf ≡ ok mit
    → ((pebble_moves xs it).0 ≡ mock_moves xs mit)
      × (PebbleCalls.failure_of (pebble_moves xs it).1 ≡ none)
unfolding PebbleCalls.failure_of
moves_agree_lem {e = e} rel m p s cf it mit xs hm hp open' tidy made_p made_m =
    let o = opened rel m p s cf it mit hm hp open' tidy made_p made_m in
    let scoped : IsScoped rel (cf_prefix cf) it = record {
      same_prefix = o.prefix;
      len = o.len;
      scope = All-scope cf (entry_keys (rel.entries it.iter)) (rel.new_bounds _ _ _ it.iter o.made);
      ascends = rel.new_ascends _ _ _ it.iter o.made;
      no_failure = o.no_failure;
    } in
    let start : view rel it ≡ mit =
      same_iterator _ _ (ap (λ n. map (stripped n) (rel.entries it.iter)) o.len ∙ o.same_entries)
        (rel.new_position _ _ _ it.iter o.made ∙ sym o.start) in
    let (agree, sound) = moves_agree rel (cf_prefix cf) xs it scoped in
    (
      agree ∙ ap (mock_moves xs) start,
      ground (arith, sound, rel.no_error (pebble_moves xs it).1.iter),
    )
