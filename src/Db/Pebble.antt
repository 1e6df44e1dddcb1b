-- ===== src/Db/Pebble.antt =====
-- db/pebble.go: PebbleDB over the engine. Operations hold the read lock and Close the write lock,
-- so each is one step; log lines are left out, since no result depends on them.
pub mod Batch
pub mod Iterator
pub mod Refines
use brewery_bitcoin.Db.Base.{
  DbError, Verb, closed, column_family_not_found, key_not_found, nil_key, wrapped,
  default_column_family, get_verb, put_verb, delete_verb, has_verb, flush_verb, close_verb,
}
use brewery_bitcoin.Db.Keys.{cf_prefix, prefixed_key}
use brewery_bitcoin.Db.Options.{Config, ConfigOption, default_config, apply_options}
use brewery_bitcoin.Db.Engine.{Engine, Found, found, not_found, failed}
use brewery_bitcoin.Prelude.{
  Bool, true, false, Option, none, some, List, [], ◌∷◌, if◌then◌else◌, ℤ, Bytes, same, Dict, lookup,
  insert, Result, ok, err, ◌>>=◌,
}

-- the loop of Open that fills the map of prefixes
unfoldable pub register_prefixes : Dict Bytes → List Bytes → Dict Bytes
register_prefixes prefixes [] = prefixes
register_prefixes prefixes (cf ∷ cfs) =
    register_prefixes
      (if same cf default_column_family then prefixes else insert cf (cf_prefix cf) prefixes) cfs

-- the method cfPrefix
abbrev pub registered_prefix : Dict Bytes → Bytes → Result DbError Bytes
registered_prefix prefixes cf = elim (lookup cf prefixes) [
  | none ↦ err (column_family_not_found cf)
  | some prefix ↦ ok prefix
]

abbrev pub get_outcome : Found → Result DbError Bytes
get_outcome (found v) = ok v
get_outcome not_found = err key_not_found
get_outcome (failed x) = err (wrapped get_verb x)

abbrev pub has_outcome : Found → Result DbError Bool
has_outcome (found v) = ok true
has_outcome not_found = ok false
has_outcome (failed x) = err (wrapped has_verb x)

-- `if err := …; err != nil { return fmt.Errorf("db: … failed: %w", err) }; return nil`
abbrev pub wrap : Verb → Option Bytes → Option DbError
wrap verb none = none
wrap verb (some x) = some (wrapped verb x)

module _ (e : Engine) where
  pub record PebbleDb : Type 0 where
    pub db : e.Db
    pub prefixes : Dict Bytes
    pub write_opts : Bool  -- pebble.Sync or pebble.NoSync
    pub path : Bytes
    pub is_closed : Bool

module _ {e : Engine} where
  -- Open; the error is "db: failed to open %s: %w"
  unfoldable pub open_pebble : ℤ → Bytes → List ConfigOption → Result Bytes (PebbleDb e)
  unfolding register_prefixes apply_options
  open_pebble cpus path opts =
      let cfg = apply_options (default_config cpus) opts in
      do
        db ← e.open_db path cfg
        ok (record {
          db = db;
          prefixes =
              register_prefixes ((default_column_family, cf_prefix default_column_family) ∷ [])
                cfg.column_families;
          write_opts = cfg.sync_writes;
          path = path;
          is_closed = false;
        })

  -- The checks that Get, Put, Delete and Has start with, and the storage key.
  unfoldable pub checked : PebbleDb e → Bytes → Option Bytes → Result DbError Bytes
  checked p cf none = if p.is_closed then err closed else err nil_key
  checked p cf (some key) =
      if p.is_closed
      then err closed
      else do prefix ← registered_prefix p.prefixes cf; ok (prefixed_key prefix key)

  unfoldable pub get : PebbleDb e → Bytes → Option Bytes → Result DbError Bytes
  unfolding checked
  get p cf key = do k ← checked p cf key; get_outcome (e.get p.db k)

  unfoldable pub has : PebbleDb e → Bytes → Option Bytes → Result DbError Bool
  unfolding checked
  has p cf key = do k ← checked p cf key; has_outcome (e.get p.db k)

  -- A write to the engine at the storage key, if the checks pass.
  abbrev pub write :
      PebbleDb e
      → Verb
      → (Bytes → e.Db × Option Bytes)
      → Result DbError Bytes
      → PebbleDb e × Option DbError
  write p verb call (err x) = (p, some x)
  write p verb call (ok k) = let (db', x) = call k in (record p { db = db' }, wrap verb x)

  unfoldable pub put : PebbleDb e → Bytes → Option Bytes → Bytes → PebbleDb e × Option DbError
  unfolding checked
  put p cf key v = write p put_verb (λ k. e.set p.db k v p.write_opts) (checked p cf key)

  unfoldable pub delete : PebbleDb e → Bytes → Option Bytes → PebbleDb e × Option DbError
  unfolding checked
  delete p cf key = write p delete_verb (λ k. e.delete p.db k p.write_opts) (checked p cf key)

  unfoldable pub flush : PebbleDb e → PebbleDb e × Option DbError
  flush p =
      if p.is_closed
      then (p, some closed)
      else let (db', x) = e.flush p.db in (record p { db = db' }, wrap flush_verb x)

  -- Close: an error of the flush is logged, and the engine is closed all the same.
  unfoldable pub close : PebbleDb e → PebbleDb e × Option DbError
  close p =
      if p.is_closed
      then (p, some closed)
      else let (flushed, _) = e.flush p.db in
        let (db', x) = e.close flushed in
        (record p { db = db'; is_closed = true }, wrap close_verb x)
