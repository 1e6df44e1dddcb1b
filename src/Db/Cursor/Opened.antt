-- ===== src/Db/Cursor/Opened.antt =====
-- db/mock.go and db/pebble.go: the iterators that NewIterator of both stores returns, when the stores
-- represent one open state.
use brewery_bitcoin.Db.Contract.{Spec}
use brewery_bitcoin.Db.Keys.{cf_prefix, cf_upper_bound}
use brewery_bitcoin.Db.Engine.{Engine, as_found}
use brewery_bitcoin.Db.Cursor.{IsReliableIterator}
use brewery_bitcoin.Db.Cursor.Entries.{stripped, entries_agree}
use brewery_bitcoin.Db.Mock.{MockStore}
use brewery_bitcoin.Db.Mock.Refines as MockRefines
use brewery_bitcoin.Db.Mock.Iterator as MockCalls
use brewery_bitcoin.Db.Mock.Iterator.{MockIterator, snapshot}
use brewery_bitcoin.Db.Mock.Iterator.Reachable.{IsTidy}
use brewery_bitcoin.Db.Pebble.{PebbleDb}
use brewery_bitcoin.Db.Pebble.Refines as PebbleRefines
use brewery_bitcoin.Db.Pebble.Iterator as PebbleCalls
use brewery_bitcoin.Db.Pebble.Iterator.{PebbleIterator, iterator_of}
use brewery_bitcoin.Prelude.{
  ◌≡◌, sym, ap, ◌∙◌, inl, inr, true, false, none, some, map, arith, Option-cases, length, negsuc,
  Bytes, lookup, Result, ok, err,
}

-- what the engine returned when NewIterator succeeded
made_by :
    {e : Engine} (prefix : Bytes) (r : Result Bytes e.Iter) (it : PebbleIterator e)
    → iterator_of prefix r ≡ ok it
    → (r ≡ ok it.iter)
      × (it.prefix ≡ prefix)
      × (it.prefix_len ≡ length prefix)
      × (it.failure ≡ none)
made_by prefix (err x) it h = absurd (cc h)
made_by prefix (ok i) it h = ground (arith, h)

-- Both iterators stand before the first entry, and their entries are the same but for the prefix.
pub record IsOpened {e : Engine} (rel : IsReliableIterator e) (d : e.Db) (cf : Bytes)
    (it : PebbleIterator e) (mit : MockIterator) : Type 0 where
  pub made : e.new_iter d (cf_prefix cf) (cf_upper_bound cf) ≡ ok it.iter
  pub prefix : it.prefix ≡ cf_prefix cf
  pub len : it.prefix_len ≡ length (cf_prefix cf)
  pub no_failure : it.failure ≡ none
  pub start : mit.position ≡ negsuc 0
  pub same_entries : map (stripped (length (cf_prefix cf))) (rel.entries it.iter) ≡ mit.entries

pub opened :
    {e : Engine} (rel : IsReliableIterator e) (m : MockStore) (p : PebbleDb e) (s : Spec)
    (cf : Bytes) (it : PebbleIterator e) (mit : MockIterator)
    → MockRefines.Represents m s
    → PebbleRefines.Represents p s
    → s.is_closed ≡ false
    → IsTidy m.buckets
    → PebbleCalls.new_iterator p cf ≡ ok it
    → MockCalls.new_iterator m cf ≡ ok mit
    → IsOpened rel p.db cf it mit
unfolding PebbleCalls.new_iterator MockCalls.new_iterator
opened {e = e} rel m p s cf it mit hm hp open' tidy made_p made_m =
    elim (Option-cases (lookup cf m.buckets)) [
      | inl absent ↦ absurd (ground (arith, made_m, absent))
      | inr (bucket, there) ↦
          let known : s.registered cf ≡ true = sym (hm.families open' cf) ∙ ground (arith, there) in
          let prefix : lookup cf p.prefixes ≡ some (cf_prefix cf) =
            ground (arith, hp.prefixes cf, known) in
          let made = e.new_iter p.db (cf_prefix cf) (cf_upper_bound cf) in
          let opens : PebbleCalls.new_iterator p cf ≡ iterator_of (cf_prefix cf) made =
            ground (arith, hp.same_closed, open', prefix) in
          let (result, same_prefix, len, no_failure) =
            made_by (cf_prefix cf) made it (sym opens ∙ made_p) in
          record {
            made = result;
            prefix = same_prefix;
            len = len;
            no_failure = no_failure;
            start = ground (arith, made_m, there);
            same_entries =
                entries_agree rel p.db cf bucket it.iter result (tidy cf bucket there) (λ k.
                  hp.values open' cf k known
                  ∙ ap as_found (sym (hm.values open' cf bucket k there)))
                ∙ ground (arith, made_m, there);
          }
    ]
