-- ===== src/Db/Cursor/View.antt =====
-- db/pebble.go: an iterator of PebbleDB as its caller sees it, a mockIterator over the entries without
-- their prefix.
use brewery_bitcoin.Db.Keys.{strip}
use brewery_bitcoin.Db.Engine.{Engine}
use brewery_bitcoin.Db.Cursor.{IsReliableIterator}
use brewery_bitcoin.Db.Cursor.Entries.{stripped}
use brewery_bitcoin.Db.Mock.Iterator as MockCalls
use brewery_bitcoin.Db.Mock.Iterator.{MockEntry, MockIterator, entry_at, valid_at, bytes_of}
use brewery_bitcoin.Db.Mock.Iterator.Scan.{visited}
use brewery_bitcoin.Db.Pebble.Iterator as PebbleCalls
use brewery_bitcoin.Db.Pebble.Iterator.{PebbleIterator}
use brewery_bitcoin.Prelude.{
  ℕ, zero, suc, ◌≡◌, refl, ap, ◌∙◌, true, some, List, [], ◌∷◌, map, arith, ltb→lt, length,
  get_elem?, get_elem?-lt, length-map, ℤ, pos, negsuc, map_option,
}

pub get_elem?-map :
    (f : MockEntry → MockEntry) (ys : List MockEntry) (i : ℕ)
    → get_elem? (map f ys) i ≡ map_option f (get_elem? ys i)
get_elem?-map f [] i = refl
get_elem?-map f (y ∷ ys) zero = refl
get_elem?-map f (y ∷ ys) (suc i) = get_elem?-map f ys i

pub entry_at-map :
    (f : MockEntry → MockEntry) (xs : List MockEntry) (p : ℤ)
    → entry_at (map f xs) p ≡ map_option f (entry_at xs p)
entry_at-map f xs (negsuc n) = refl
entry_at-map f xs (pos n) = ground (arith, length-map xs f, get_elem?-map f xs n)

pub valid_at-map :
    (f : MockEntry → MockEntry) (xs : List MockEntry) (p : ℤ)
    → valid_at (map f xs) p ≡ valid_at xs p
valid_at-map f xs (pos n) = rw (length-map xs f) refl
valid_at-map f xs (negsuc n) = refl

pub entry_at-valid :
    (xs : List MockEntry) (p : ℤ)
    → valid_at xs p ≡ true
    → (x : MockEntry) × (entry_at xs p ≡ some x)
entry_at-valid xs (pos n) h =
    let (x, at) = get_elem?-lt xs n (ltb→lt n (length xs) h) in (x, rw h at)
entry_at-valid xs (negsuc n) h = absurd (cc h)

module _ {e : Engine} (rel : IsReliableIterator e) where
  -- the iterator as the caller sees it
  abbrev pub view : PebbleIterator e → MockIterator
  view it = record {
    entries = map (stripped it.prefix_len) (rel.entries it.iter);
    position = rel.position it.iter;
  }

  pub value-view :
      (it : PebbleIterator e) (x : MockEntry)
      → entry_at (rel.entries it.iter) (rel.position it.iter) ≡ some x
      → PebbleCalls.value it ≡ (it, some x.value)
  unfolding PebbleCalls.value
  value-view it x at = ap (PebbleCalls.value_of it) (rel.value_is it.iter x at)

  pub key-view :
      (it : PebbleIterator e) (x : MockEntry)
      → entry_at (rel.entries it.iter) (rel.position it.iter) ≡ some x
      → PebbleCalls.key it ≡ strip it.prefix_len x.key
  unfolding PebbleCalls.key
  key-view it x at = ap (strip it.prefix_len) (rel.key_is it.iter x at)

  pub visited-view :
      (it : PebbleIterator e) (x : MockEntry)
      → entry_at (rel.entries it.iter) (rel.position it.iter) ≡ some x
      → visited (view it) ≡ stripped it.prefix_len x
  unfolding MockCalls.key MockCalls.value
  visited-view it x at =
      let there : entry_at (view it).entries (view it).position ≡ some (stripped it.prefix_len x) =
        entry_at-map (stripped it.prefix_len) (rel.entries it.iter) (rel.position it.iter)
        ∙ ap (map_option (stripped it.prefix_len)) at in
      ground (arith, there)

  pub next-view :
      (it : PebbleIterator e)
      → valid_at (rel.entries it.iter) (rel.position it.iter) ≡ true
      → view (PebbleCalls.next it) ≡ MockCalls.next (view it)
  unfolding PebbleCalls.next MockCalls.next
  next-view it h = let (same_entries, moved) = rel.next_moves it.iter h in cc (same_entries, moved)

  pub valid-view :
      (it : PebbleIterator e)
      → (PebbleCalls.valid it ≡ valid_at (rel.entries it.iter) (rel.position it.iter))
        × (MockCalls.valid (view it) ≡ valid_at (rel.entries it.iter) (rel.position it.iter))
  unfolding PebbleCalls.valid MockCalls.valid
  valid-view it = (
    rel.valid_is it.iter,
    valid_at-map (stripped it.prefix_len) (rel.entries it.iter) (rel.position it.iter),
  )
