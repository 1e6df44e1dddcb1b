-- ===== src/Db/Pebble/Batch.antt =====
-- db/pebble.go: pebbleBatch, the engine's batch behind the checks of the families. A batch's
-- methods take the database that owns it.
use brewery_bitcoin.Db.Base.{
  DbError, closed, nil_key, batch_closed, batch_put_verb, batch_delete_verb, batch_commit_verb,
  Verb,
}
use brewery_bitcoin.Db.Keys.{prefixed_key}
use brewery_bitcoin.Db.Engine.{Engine}
use brewery_bitcoin.Db.Pebble.{PebbleDb, registered_prefix, wrap}
use brewery_bitcoin.Prelude.{
  ℕ, Bool, true, false, Option, none, some, if◌then◌else◌, Bytes, Result, ok, err, ◌>>=◌,
}

module _ (e : Engine) where
  pub record PebbleBatch : Type 0 where
    pub batch : e.Batch
    pub is_closed : Bool

module _ {e : Engine} where
  unfoldable pub new_batch : PebbleDb e → PebbleBatch e
  new_batch p = record { batch = e.new_batch p.db; is_closed = false }

  -- The checks of Put and Delete, and the storage key.
  unfoldable pub checked : PebbleDb e → PebbleBatch e → Bytes → Option Bytes → Result DbError Bytes
  checked p b cf none = if b.is_closed then err batch_closed else err nil_key
  checked p b cf (some key) =
      if b.is_closed
      then err batch_closed
      else do prefix ← registered_prefix p.prefixes cf; ok (prefixed_key prefix key)

  abbrev pub stage :
      PebbleBatch e
      → Verb
      → (Bytes → e.Batch × Option Bytes)
      → Result DbError Bytes
      → PebbleBatch e × Option DbError
  stage b verb call (err x) = (b, some x)
  stage b verb call (ok k) = let (batch', x) = call k in (record b { batch = batch' }, wrap verb x)

  unfoldable pub put :
      PebbleDb e → PebbleBatch e → Bytes → Option Bytes → Bytes → PebbleBatch e × Option DbError
  unfolding checked
  put p b cf key v = stage b batch_put_verb (λ k. e.batch_set b.batch k v) (checked p b cf key)

  unfoldable pub delete :
      PebbleDb e → PebbleBatch e → Bytes → Option Bytes → PebbleBatch e × Option DbError
  unfolding checked
  delete p b cf key = stage b batch_delete_verb (λ k. e.batch_delete b.batch k) (checked p b cf key)

  unfoldable pub count : PebbleBatch e → ℕ
  count b = e.batch_count b.batch

  unfoldable pub commit : PebbleDb e → PebbleBatch e → PebbleDb e × Option DbError
  commit p b =
      if b.is_closed
      then (p, some batch_closed)
      else if p.is_closed
      then (p, some closed)
      else let (db', x) = e.batch_commit b.batch p.db p.write_opts in
        (record p { db = db' }, wrap batch_commit_verb x)

  unfoldable pub close : PebbleBatch e → PebbleBatch e
  close b = if b.is_closed then b else record { batch = e.batch_close b.batch; is_closed = true }
