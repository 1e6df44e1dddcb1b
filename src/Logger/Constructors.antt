-- ===== src/Logger/Constructors.antt =====
-- pkg/logger/logger.go and zap.go: the two implementations of Logger, and the constructors. The name
-- of the package's interface is that of the type here, and a method is a function by its cases.
use brewery_bitcoin.Logger.Zap.{Zap, Severity, fatal}
use brewery_bitcoin.Logger.Options.{Config}
use brewery_bitcoin.Prelude.{List, [], ◌∷◌, ◌++◌, Bytes, codes, Result, ok, err}

pub data Logger (Sugar : Type 0) : Type 0 where
  nop : Logger Sugar
  zap_logger : Sugar → Logger Sugar

-- A log call returns, or ends the process.
pub data After (World : Type 0) : Type 0 where
  continues : World → After World
  exits : World → After World

-- The result of MustProduction and MustDevelopment.
pub data Must (L : Type 0) : Type 0 where
  returned : L → Must L
  panicked : Bytes → Must L

module _ (zap : Zap) where
  -- the loop over the options
  unfoldable pub apply_options : List (Config zap → Config zap) → Config zap → Config zap
  apply_options [] cfg = cfg
  apply_options (opt ∷ opts) cfg = apply_options opts (opt cfg)

  abbrev pub built : Result Bytes zap.Sugar → Result Bytes (Logger zap.Sugar)
  built (ok sugar) = ok (zap_logger sugar)
  built (err e) = err e

  unfoldable pub new_production : List (Config zap → Config zap) → Result Bytes (Logger zap.Sugar)
  unfolding apply_options
  new_production opts =
      let cfg = record zap.new_production_config {
        time_key = codes "ts";
        encode_time = zap.iso8601;
        encode_duration = zap.string_duration;
      } in
      built (zap.build (apply_options opts cfg) 1)

  unfoldable pub new_development : List (Config zap → Config zap) → Result Bytes (Logger zap.Sugar)
  unfolding apply_options
  new_development opts =
      let cfg = record zap.new_development_config {
        encode_level = zap.capital_color;
        encode_duration = zap.string_duration;
      } in
      built (zap.build (apply_options opts cfg) 1)

  abbrev pub must : Bytes → Result Bytes (Logger zap.Sugar) → Must (Logger zap.Sugar)
  must message (ok l) = returned l
  must message (err e) = panicked (message ++ e)

  unfoldable pub must_production : List (Config zap → Config zap) → Must (Logger zap.Sugar)
  unfolding new_production
  must_production opts =
      must (codes "logger: failed to create production logger: ") (new_production opts)

  unfoldable pub must_development : List (Config zap → Config zap) → Must (Logger zap.Sugar)
  unfolding new_development
  must_development opts =
      must (codes "logger: failed to create development logger: ") (new_development opts)

  -- Debug, Info, Warn, Error and Fatal: Fatal of zap ends the process, that of nopLogger does not.
  unfoldable pub log :
      Severity → Logger zap.Sugar → Bytes → zap.Fields → zap.World → After zap.World
  log s nop msg kvs w = continues w
  log fatal (zap_logger sugar) msg kvs w = exits (zap.write fatal sugar msg kvs w)
  log s (zap_logger sugar) msg kvs w = continues (zap.write s sugar msg kvs w)

  -- With
  unfoldable pub with_fields : zap.Fields → Logger zap.Sugar → Logger zap.Sugar
  with_fields kvs nop = nop
  with_fields kvs (zap_logger sugar) = zap_logger (zap.sugar_with sugar kvs)
