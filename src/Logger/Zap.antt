-- ===== src/Logger/Zap.antt =====
-- What the program uses of go.uber.org/zap, which the repository does not contain: some fields of its
-- Config, and calls of it.
use brewery_bitcoin.Prelude.{ℕ, Bool, Option, List, Bytes, Result}

pub record ZapConfig (Level TimeEncoder DurationEncoder LevelEncoder : Type 0) : Type 0 where
  pub level : Level
  pub output_paths : List Bytes
  pub disable_caller : Bool
  pub disable_stacktrace : Bool
  pub time_key : Bytes
  pub encode_time : TimeEncoder
  pub encode_duration : DurationEncoder
  pub encode_level : LevelEncoder

pub data Severity : Type 0 where
  debug info warn error fatal : Severity

-- `World` is all that a call may write to. `build` is Config.Build with a caller skip, and Sugar; an
-- error is its text. `write` is the method of SugaredLogger for a severity, without the exit of Fatalw.
pub record Zap : Type 1 where
  pub Level : Type 0
  pub TimeEncoder : Type 0
  pub DurationEncoder : Type 0
  pub LevelEncoder : Type 0
  pub Sugar : Type 0
  pub Fields : Type 0
  pub World : Type 0
  pub parse_level : Bytes → Option Level
  pub new_production_config : ZapConfig Level TimeEncoder DurationEncoder LevelEncoder
  pub new_development_config : ZapConfig Level TimeEncoder DurationEncoder LevelEncoder
  pub iso8601 : TimeEncoder
  pub string_duration : DurationEncoder
  pub capital_color : LevelEncoder
  pub build : ZapConfig Level TimeEncoder DurationEncoder LevelEncoder → ℕ → Result Bytes Sugar
  pub sugar_with : Sugar → Fields → Sugar
  pub write : Severity → Sugar → Bytes → Fields → World → World
  pub sync : Sugar → World → World
