-- ===== src/Db/Agreement.antt =====
-- db/mock.go and db/pebble.go: MockStore and PebbleDB against each other, started with the same
-- families.
use brewery_bitcoin.Stdlib.Sort.{occurs}
use brewery_bitcoin.Db.Base.{default_column_family}
use brewery_bitcoin.Db.Contract.{Request, Spec, serve, serve-eq-spec}
use brewery_bitcoin.Db.Keys.{cf_prefix, prefixed_key}
use brewery_bitcoin.Db.Keys.Scope.{HasNoNul}
use brewery_bitcoin.Db.Registered.{is_registered, lookup-register_prefixes, lookup-register}
use brewery_bitcoin.Db.Options.{ConfigOption, default_config, apply_options}
use brewery_bitcoin.Db.Engine.{Engine, not_found, IsReliable}
use brewery_bitcoin.Db.Mock.{new_mock_store}
use brewery_bitcoin.Db.Mock.Refines as MockRefines
use brewery_bitcoin.Db.Pebble.{PebbleDb, open_pebble, register_prefixes}
use brewery_bitcoin.Db.Pebble.Refines as PebbleRefines
use brewery_bitcoin.Prelude.{
  ◌≡◌, refl, sym, ◌∙◌, subst, inl, inr, true, false, none, List, [], ◌∷◌, arith, Bool-cases, All, ℤ,
  Bytes, same, same_iff, Dict, lookup, Result, ok, err, ◌>>=◌,
}

-- a store just made for the families
abbrev pub initial : List Bytes → Spec
initial cfs = record { is_closed = false; registered = is_registered cfs; stored = λ cf k. none }

empty_bucket : (bucket : Dict Bytes) (k : Bytes) → bucket ≡ [] → lookup k bucket ≡ none
unfolding lookup
empty_bucket bucket k h = rw h

pub new_mock_store-Represents :
    (cfs : List Bytes) → MockRefines.Represents (new_mock_store cfs) (initial cfs)
unfolding new_mock_store
new_mock_store-Represents cfs = record {
  same_closed = refl;
  families = λ o cf. ground (arith, lookup-register cfs cf);
  values = λ o cf bucket k at. empty_bucket bucket k (ground (arith, lookup-register cfs cf, at));
}

default_HasNoNul : HasNoNul default_column_family
default_HasNoNul = omega arith

registered_HasNoNul :
    (cfs : List Bytes) (cf : Bytes) → All HasNoNul cfs → occurs cf cfs ≡ true → HasNoNul cf
registered_HasNoNul [] cf h t = absurd (cc t)
registered_HasNoNul (x ∷ cfs) cf h t = elim (Bool-cases (same x cf)) [
  | inl here ↦ subst HasNoNul ((same_iff x cf).0 here) h.0
  | inr other ↦ registered_HasNoNul cfs cf h.1 (ground (arith, t, other))
]

-- the families that the options of Open ask for
abbrev pub families : ℤ → List ConfigOption → List Bytes
families cpus opts = (apply_options (default_config cpus) opts).column_families

module _ {e : Engine} (cpus : ℤ) (path : Bytes) (opts : List ConfigOption) (p : PebbleDb e)
    (opened : open_pebble cpus path opts ≡ ok p) where
  opened_with :
      (p.is_closed ≡ false)
      × (p.prefixes
          ≡ register_prefixes
              ((default_column_family, cf_prefix default_column_family) ∷ [])
              (families cpus opts))
  unfolding open_pebble
  opened_with = from (e.open_db path (apply_options (default_config cpus) opts)) opened
    where
      from :
          (r : Result Bytes e.Db)
          → (r >>= λ db. ok (record {
            db = db;
            prefixes =
                register_prefixes
                  ((default_column_family, cf_prefix default_column_family) ∷ [])
                  (families cpus opts);
            write_opts = (apply_options (default_config cpus) opts).sync_writes;
            path = path;
            is_closed = false;
          }))
            ≡ ok p
          → (p.is_closed ≡ false)
            × (p.prefixes
                ≡ register_prefixes
                    ((default_column_family, cf_prefix default_column_family) ∷ [])
                    (families cpus opts))
      from (err x) h = absurd (cc h)
      from (ok db) h = ground (arith, h)

  pub open_pebble-Represents :
      ((k : Bytes) → e.get p.db k ≡ not_found)
      → All HasNoNul (families cpus opts)
      → PebbleRefines.Represents p (initial (families cpus opts))
  open_pebble-Represents fresh names = record {
    same_closed = opened_with.0;
    prefixes = λ cf. rw opened_with.1 (lookup-register_prefixes (families cpus opts) cf);
    names = λ cf.
        registered_HasNoNul (default_column_family ∷ families cpus opts) cf
          (default_HasNoNul, names);
    values = λ o cf k known. fresh (prefixed_key (cf_prefix cf) k);
  }

  -- Over a reliable engine, a database opened empty for families whose names hold no NUL byte, and
  -- a MockStore made for the same families, give equal replies to every list of requests.
  pub pebble_agrees_with_mock :
      IsReliable e
      → ((k : Bytes) → e.get p.db k ≡ not_found)
      → All HasNoNul (families cpus opts)
      → (rs : List Request)
      → serve PebbleRefines.run p rs
        ≡ serve MockRefines.run (new_mock_store (families cpus opts)) rs
  pebble_agrees_with_mock reliable fresh names rs =
      serve-eq-spec (PebbleRefines.simulation reliable) rs p (initial (families cpus opts))
        (open_pebble-Represents fresh names)
      ∙ sym (
          serve-eq-spec MockRefines.simulation rs (new_mock_store (families cpus opts))
            (initial (families cpus opts)) (new_mock_store-Represents (families cpus opts)))
