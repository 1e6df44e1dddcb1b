-- ===== src/Db/Pebble/Iterator.antt =====
-- db/pebble.go: NewIterator and pebbleIterator, the engine's iterator over one family's range.
use brewery_bitcoin.Db.Base.{DbError, closed, wrapped, iterator_verb}
use brewery_bitcoin.Db.Keys.{cf_upper_bound, prefixed_key, strip}
use brewery_bitcoin.Db.Engine.{Engine}
use brewery_bitcoin.Db.Pebble.{PebbleDb, registered_prefix}
use brewery_bitcoin.Prelude.{
  ℕ, Bool, true, false, Option, none, some, if◌then◌else◌, length, Bytes, Result, ok, err, ◌>>=◌,
}

module _ (e : Engine) where
  pub record PebbleIterator : Type 0 where
    pub iter : e.Iter
    pub prefix : Bytes
    pub prefix_len : ℕ
    pub is_closed : Bool
    pub failure : Option Bytes  -- the field err

module _ {e : Engine} where
  abbrev pub iterator_of : Bytes → Result Bytes e.Iter → Result DbError (PebbleIterator e)
  iterator_of prefix (err x) = err (wrapped iterator_verb x)
  iterator_of prefix (ok iter) = ok (record {
    iter = iter;
    prefix = prefix;
    prefix_len = length prefix;
    is_closed = false;
    failure = none;
  })

  unfoldable pub new_iterator : PebbleDb e → Bytes → Result DbError (PebbleIterator e)
  new_iterator p cf = if p.is_closed then err closed else do
    prefix ← registered_prefix p.prefixes cf
    iterator_of prefix (e.new_iter p.db prefix (cf_upper_bound cf))

  unfoldable pub seek : Bytes → PebbleIterator e → PebbleIterator e
  seek target it = record it { iter = e.seek_ge it.iter (prefixed_key it.prefix target) }

  unfoldable pub seek_to_first : PebbleIterator e → PebbleIterator e
  seek_to_first it = record it { iter = e.first it.iter }

  unfoldable pub seek_to_last : PebbleIterator e → PebbleIterator e
  seek_to_last it = record it { iter = e.last it.iter }

  unfoldable pub next : PebbleIterator e → PebbleIterator e
  next it = record it { iter = e.next it.iter }

  unfoldable pub prev : PebbleIterator e → PebbleIterator e
  prev it = record it { iter = e.prev it.iter }

  unfoldable pub valid : PebbleIterator e → Bool
  valid it = e.valid it.iter

  unfoldable pub key : PebbleIterator e → Option Bytes
  key it = strip it.prefix_len (e.iter_key it.iter)

  -- Value: an error is kept for Err, and the value is nil
  abbrev pub value_of : PebbleIterator e → Result Bytes Bytes → PebbleIterator e × Option Bytes
  value_of it (err x) = (record it { failure = some x }, none)
  value_of it (ok v) = (it, some v)

  unfoldable pub value : PebbleIterator e → PebbleIterator e × Option Bytes
  value it = value_of it (e.value_and_err it.iter)

  unfoldable pub failure_of : PebbleIterator e → Option Bytes
  failure_of it = elim it.failure [ none ↦ e.iter_error it.iter | some x ↦ some x ]

  unfoldable pub close : PebbleIterator e → PebbleIterator e
  close it =
      if it.is_closed then it else record it { iter = e.iter_close it.iter; is_closed = true }
