-- ===== src/Logger/Examples.antt =====
-- The loggers at a zap whose levels are the severities, and whose world is the list of its messages.
use brewery_bitcoin.Logger.Zap.{Zap, ZapConfig, Severity, debug, info, warn, fatal}
use brewery_bitcoin.Logger.Constructors.{zap_logger, returned, continues, exits, must_production}
use brewery_bitcoin.Logger.Global.{first_global, set_default, log_default, with_default}
use brewery_bitcoin.Logger.Configured.{
  Setting, level, output_paths, no_caller, option_of, must_production_lem,
}
use brewery_bitcoin.Prelude.{
  ℕ, ◌+◌, ◌≡◌, refl, Bool, true, false, none, some, List, [], ◌∷◌, ◌++◌, map, if◌then◌else◌, Bytes,
  codes, same, ok, err,
}

abbrev pub plain : ZapConfig Severity Bool Bool Bool
plain = record {
  level = info;
  output_paths = codes "stderr" ∷ [];
  disable_caller = false;
  disable_stacktrace = false;
  time_key = codes "T";
  encode_time = false;
  encode_duration = false;
  encode_level = false;
}

-- A logger is its configuration with the count of the fields that With has added.
abbrev pub listing : Zap
listing = record {
  Level = Severity;
  TimeEncoder = Bool;
  DurationEncoder = Bool;
  LevelEncoder = Bool;
  Sugar = ZapConfig Severity Bool Bool Bool × ℕ;
  Fields = ℕ;
  World = List Bytes;
  parse_level = λ t. if same t (codes "warn") then some warn else none;
  new_production_config = plain;
  new_development_config = record plain { level = debug };
  iso8601 = true;
  string_duration = true;
  capital_color = true;
  build = λ cfg skip. if same cfg.time_key [] then err (codes "no time key") else ok (cfg, 0);
  sugar_with = λ s kvs. (s.0, s.1 + kvs);
  write = λ severity s msg kvs w. w ++ msg ∷ [];
  sync = λ s w. w;
}

abbrev settings : List Setting
settings = level (codes "warn") ∷ no_caller ∷ level (codes "loud") ∷ output_paths [] ∷ []

abbrev expected : ZapConfig Severity Bool Bool Bool
expected = record {
  level = warn;
  output_paths = [];
  disable_caller = true;
  disable_stacktrace = false;
  time_key = codes "ts";
  encode_time = true;
  encode_duration = true;
  encode_level = false;
}

must_production_lem_example :
    must_production listing (map (option_of listing) settings) ≡ returned (zap_logger (expected, 0))
unfolding same
must_production_lem_example = must_production_lem listing settings

-- Before SetDefault a message is dropped, and Fatal goes on; afterwards Fatal ends the process.
first_messages : log_default listing fatal (codes "a") 0 (first_global listing) [] ≡ continues []
unfolding log_default
first_messages = refl

later_messages :
    log_default listing fatal
      (codes "b")
      0
      (set_default listing (zap_logger (plain, 0)) (first_global listing))
      []
    ≡ exits (codes "b" ∷ [])
unfolding log_default set_default
later_messages = refl

extended_default :
    with_default listing 2 (set_default listing (zap_logger (plain, 1)) (first_global listing))
    ≡ zap_logger (plain, 3)
unfolding with_default set_default
extended_default = refl
