-- ===== src/Db/AfterClose.antt =====
-- db/mock.go and db/pebble.go: batches of a store that has been closed.
use brewery_bitcoin.Db.Base.{column_family_not_found}
use brewery_bitcoin.Db.Engine.{Engine}
use brewery_bitcoin.Db.Keys.{prefixed_key}
use brewery_bitcoin.Db.Mock.{MockStore}
use brewery_bitcoin.Db.Mock
use brewery_bitcoin.Db.Mock.Batch.{MockBatch}
use brewery_bitcoin.Db.Mock.Batch as MockBatchCalls
use brewery_bitcoin.Db.Pebble.{PebbleDb, registered_prefix, wrap}
use brewery_bitcoin.Db.Pebble
use brewery_bitcoin.Db.Pebble.Batch.{PebbleBatch}
use brewery_bitcoin.Db.Pebble.Batch as PebbleBatchCalls
use brewery_bitcoin.Prelude.{◌≡◌, false, none, some, arith, Bytes, lookup, ok}

-- On a batch that is still open, of a store that has been closed, Put of a key names the family as
-- unknown when the store is a MockStore, and succeeds when it is a PebbleDB that knows the family
-- and whose engine stages the write.
pub put_after_close :
    {e : Engine} (m : MockStore) (b : MockBatch) (p : PebbleDb e) (q : PebbleBatch e)
    (cf key value prefix : Bytes)
    → m.is_closed ≡ false
    → b.is_closed ≡ false
    → q.is_closed ≡ false
    → registered_prefix p.prefixes cf ≡ ok prefix
    → ((k : Bytes) → (e.batch_set q.batch k value).1 ≡ none)
    → ((MockBatchCalls.put (Mock.close m).0 b cf (some key) value).1
        ≡ some (column_family_not_found cf))
      × ((PebbleBatchCalls.put (Pebble.close p).0 q cf (some key) value).1 ≡ none)
unfolding MockBatchCalls.put MockBatchCalls.stage Mock.close PebbleBatchCalls.put
    PebbleBatchCalls.checked Pebble.close lookup
put_after_close m b p q cf key value prefix alive open_m open_p known stages =
    (ground (arith, alive, open_m), ground (arith, open_p, known, stages (prefixed_key prefix key)))
