-- ===== src/Logger/Options.antt =====
-- pkg/logger/options.go: the options of the constructors.
use brewery_bitcoin.Logger.Zap.{Zap, ZapConfig}
use brewery_bitcoin.Prelude.{true, none, some, List, Bytes}

module _ (zap : Zap) where
  abbrev pub Config : Type 0
  Config = ZapConfig zap.Level zap.TimeEncoder zap.DurationEncoder zap.LevelEncoder

  -- WithLevel: a text that is no level changes nothing
  unfoldable pub with_level : Bytes → Config → Config
  with_level level cfg = elim (zap.parse_level level) [
    | none ↦ cfg
    | some l ↦ record cfg { level = l }
  ]

  unfoldable pub with_output_paths : List Bytes → Config → Config
  with_output_paths paths cfg = record cfg { output_paths = paths }

  unfoldable pub with_disable_caller : Config → Config
  with_disable_caller cfg = record cfg { disable_caller = true }

  unfoldable pub with_disable_stacktrace : Config → Config
  with_disable_stacktrace cfg = record cfg { disable_stacktrace = true }
