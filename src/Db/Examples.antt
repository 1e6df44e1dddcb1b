-- ===== src/Db/Examples.antt =====
-- The storage theorems at concrete stores: a reliable engine over an association list, two
-- families, and a few keys.
pub mod Memory
mod Iterators
mod Stores
mod Scans
use mathlib.Core.List.{foldl}
use brewery_bitcoin.Db.Base.{
  default_column_family, closed, column_family_not_found, batch_closed, DbError,
}
use brewery_bitcoin.Db.Contract.{Spec, serve, Request}
use brewery_bitcoin.Db.Keys.{cf_prefix, prefixed_key}
use brewery_bitcoin.Db.Keys.Scope.{scope_exact, prefixed_key-injective, InBounds}
use brewery_bitcoin.Db.Options as DbOptions
use brewery_bitcoin.Db.Options.{with_column_families, apply_options, default_config}
use brewery_bitcoin.Db.Mock
use brewery_bitcoin.Db.Mock.{MockStore, new_mock_store}
use brewery_bitcoin.Db.Mock.Refines as MockRefines
use brewery_bitcoin.Db.Mock.Batch as MockBatchCalls
use brewery_bitcoin.Db.Mock.Batch.{MockBatch, new_batch, put, commit}
use brewery_bitcoin.Db.Mock.Batch.Commit.{
  new_batch-IsStaged, put-IsStaged, commit_lem, stored, effect,
}
use brewery_bitcoin.Db.Mock.Batch.Interleaved.{
  play, stage_put, on_store, reset_store, commit_batch, play_never_panics, Event,
}
use brewery_bitcoin.Db.Pebble.{PebbleDb, open_pebble, register_prefixes}
use brewery_bitcoin.Db.Pebble
use brewery_bitcoin.Db.Pebble.Batch as PebbleBatchCalls
use brewery_bitcoin.Db.Pebble.Refines as PebbleRefines
use brewery_bitcoin.Db.Agreement.{
  pebble_agrees_with_mock, initial, open_pebble-Represents, new_mock_store-Represents,
}
use brewery_bitcoin.Db.Staging.{Staging, mock_stages, pebble_stages}
use brewery_bitcoin.Db.BatchAgreement.{batch_agrees_with_mock}
use brewery_bitcoin.Db.AfterClose.{put_after_close}
use brewery_bitcoin.Db.Examples.Memory.{
  dict_engine, dict_engine-IsReliable, dict_engine-IsReliableBatch,
}
use brewery_bitcoin.Prelude.{
  ◌≡◌, refl, ◌≢◌, ◌↔◌, false, ◌||◌, Option, none, some, List, [], ◌∷◌, arith, if◌then◌else◌,
  is_some, pos, Bytes, codes, same, lookup, insert,
}

abbrev tx : Bytes
tx = codes "tx"

abbrev options : List (DbOptions.Config → DbOptions.Config)
options = with_column_families (tx ∷ []) ∷ []

abbrev database : PebbleDb dict_engine
database = record {
  db = [];
  prefixes = (default_column_family, cf_prefix default_column_family) ∷ (tx, cf_prefix tx) ∷ [];
  write_opts = false;
  path = codes "/db";
  is_closed = false;
}

abbrev requests : List Request
requests =
    Request.put tx (some (codes "a")) (codes "1")
    ∷ Request.get tx (some (codes "a"))
    ∷ Request.has tx (some (codes "b"))
    ∷ Request.get (codes "utxo") (some (codes "a"))
    ∷ Request.put tx none (codes "1")
    ∷ Request.delete tx (some (codes "a"))
    ∷ Request.get tx (some (codes "a"))
    ∷ Request.close
    ∷ Request.flush
    ∷ []

pebble_agrees_with_mock_example :
    serve PebbleRefines.run database requests
    ≡ serve MockRefines.run (new_mock_store (tx ∷ [])) requests
unfolding open_pebble register_prefixes apply_options with_column_families DbOptions.default_config
    lookup insert cf_prefix same
pebble_agrees_with_mock_example =
    pebble_agrees_with_mock (pos 8) (codes "/db") options database refl dict_engine-IsReliable
      (λ k. refl) (omega arith, tt) requests

scope_exact_example : InBounds tx (prefixed_key (cf_prefix tx) (codes "a")) ↔ (
    (rest : Bytes) × (prefixed_key (cf_prefix tx) (codes "a") ≡ prefixed_key (cf_prefix tx) rest))
scope_exact_example = scope_exact tx (prefixed_key (cf_prefix tx) (codes "a"))

prefixed_key-injective_example : (tx ≡ tx) × (codes "a" ≡ codes "a")
prefixed_key-injective_example =
    prefixed_key-injective tx tx (codes "a") (codes "a") (omega arith) (omega arith) refl

abbrev store : MockStore
store = new_mock_store (tx ∷ [])

-- a batch with one write
abbrev batch : MockBatch
batch = (put store (new_batch store) tx (some (codes "a")) (codes "1")).0

commit_lem_example :
    (m' : MockStore) × (e : Option DbError) × (commit store batch ≡ some (m', e))
    × (e ≡ (
        if batch.is_closed
        then some batch_closed
        else if store.is_closed
        then some closed
        else none))
    × (m'.is_closed ≡ store.is_closed)
    × ((cf : Bytes) → is_some (lookup cf m'.buckets) ≡ is_some (lookup cf store.buckets))
    × ((cf k : Bytes)
        → stored m'.buckets cf k ≡ (
            if batch.is_closed || store.is_closed
            then stored store.buckets cf k
            else foldl (effect cf k) (stored store.buckets cf k) batch.ops))
commit_lem_example = commit_lem store batch (
    put-IsStaged store (new_batch store) tx (some (codes "a")) (codes "1")
      (new_batch-IsStaged store))

abbrev events : List Event
events =
    stage_put tx (some (codes "a")) (codes "1")
    ∷ on_store Request.close
    ∷ commit_batch
    ∷ reset_store
    ∷ commit_batch
    ∷ []

play_never_panics_example : play (store, new_batch store) events ≢ none
play_never_panics_example = play_never_panics store events

put_after_close_example :
    ((MockBatchCalls.put (Mock.close store).0 (new_batch store) tx (some (codes "a")) (codes "1")).1
      ≡ some (column_family_not_found tx))
    × ((PebbleBatchCalls.put
          (Pebble.close database).0
          (PebbleBatchCalls.new_batch database)
          tx
          (some (codes "a"))
          (codes "1")).1
        ≡ none)
unfolding new_mock_store MockBatchCalls.new_batch PebbleBatchCalls.new_batch lookup same cf_prefix
put_after_close_example =
    put_after_close store (new_batch store) database (PebbleBatchCalls.new_batch database) tx
      (codes "a") (codes "1") (cf_prefix tx) refl refl refl refl (λ k. refl)

abbrev stagings : List Staging
stagings =
    Staging.stage_put tx (some (codes "a")) (codes "1")
    ∷ Staging.stage_put (codes "utxo") (some (codes "a")) (codes "1")
    ∷ Staging.stage_delete tx (some (codes "b"))
    ∷ Staging.stage_put tx none (codes "1")
    ∷ []

-- the state of both stores just made
abbrev state : Spec
state = initial (tx ∷ [])

database-Represents : PebbleRefines.Represents database state
unfolding open_pebble register_prefixes apply_options with_column_families DbOptions.default_config
    lookup insert cf_prefix same
database-Represents =
    open_pebble-Represents (pos 8) (codes "/db") options database refl (λ k. refl) (omega arith, tt)

batch_agrees_with_mock_example :
    let (mb, replies) = mock_stages store (MockBatchCalls.new_batch store) stagings in
    let (pb, replies') = pebble_stages database (PebbleBatchCalls.new_batch database) stagings in
    (replies' ≡ replies)
    × (PebbleBatchCalls.count pb ≡ MockBatchCalls.count mb)
    × ((PebbleBatchCalls.commit database pb).1 ≡ none)
    × (m'' : MockStore) × (MockBatchCalls.commit store mb ≡ some (m'', none))
    × (serve PebbleRefines.run (PebbleBatchCalls.commit database pb).0 requests
        ≡ serve MockRefines.run m'' requests)
batch_agrees_with_mock_example =
    batch_agrees_with_mock store store database database state state stagings requests
      dict_engine-IsReliable dict_engine-IsReliableBatch (new_mock_store-Represents (tx ∷ []))
      database-Represents refl (new_mock_store-Represents (tx ∷ [])) database-Represents refl
      (λ cf. refl)
