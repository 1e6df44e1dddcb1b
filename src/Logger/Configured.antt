-- ===== src/Logger/Configured.antt =====
-- pkg/logger: the configuration that a constructor gives to zap.
use brewery_bitcoin.Logger.Zap.{Zap}
use brewery_bitcoin.Logger.Options.{
  Config, with_level, with_output_paths, with_disable_caller, with_disable_stacktrace,
}
use brewery_bitcoin.Logger.Constructors.{
  zap_logger, must, returned, panicked, apply_options, built, new_production, must_production,
}
use brewery_bitcoin.Prelude.{
  ◌≡◌, refl, ap, ◌∙◌, inl, inr, Bool, true, false, ◌||◌, none, some, List, [], ◌∷◌, ◌++◌, map,
  arith, Option-cases, Bytes, codes, Result, ok, err,
}

-- a call of one of the option functions
pub data Setting : Type 0 where
  level : Bytes → Setting
  output_paths : List Bytes → Setting
  no_caller no_stacktrace : Setting

module _ (zap : Zap) where
  abbrev pub option_of : Setting → Config zap → Config zap
  option_of (level l) = with_level zap l
  option_of (output_paths ps) = with_output_paths zap ps
  option_of no_caller = with_disable_caller zap
  option_of no_stacktrace = with_disable_stacktrace zap

  -- What the settings make of each field: the last level that zap reads, the last paths, and whether a
  -- flag is set anywhere.
  abbrev pub last_level : List Setting → zap.Level → zap.Level
  last_level [] l = l
  last_level (level t ∷ xs) l = last_level xs (elim (zap.parse_level t) [ none ↦ l | some l' ↦ l' ])
  last_level (x ∷ xs) l = last_level xs l

abbrev pub last_paths : List Setting → List Bytes → List Bytes
last_paths [] ps = ps
last_paths (output_paths ps ∷ xs) _ = last_paths xs ps
last_paths (x ∷ xs) ps = last_paths xs ps

abbrev pub has_no_caller : List Setting → Bool
has_no_caller [] = false
has_no_caller (no_caller ∷ xs) = true
has_no_caller (x ∷ xs) = has_no_caller xs

abbrev pub has_no_stacktrace : List Setting → Bool
has_no_stacktrace [] = false
has_no_stacktrace (no_stacktrace ∷ xs) = true
has_no_stacktrace (x ∷ xs) = has_no_stacktrace xs

module _ (zap : Zap) where
  abbrev pub configured : List Setting → Config zap → Config zap
  configured xs cfg = record cfg {
    level = last_level zap xs cfg.level;
    output_paths = last_paths xs cfg.output_paths;
    disable_caller = cfg.disable_caller || has_no_caller xs;
    disable_stacktrace = cfg.disable_stacktrace || has_no_stacktrace xs;
  }

  apply_options_lem :
      (xs : List Setting) (cfg : Config zap)
      → apply_options zap (map (option_of zap) xs) cfg ≡ configured xs cfg
  unfolding apply_options with_level with_output_paths with_disable_caller with_disable_stacktrace
  apply_options_lem [] cfg = ground (arith, cfg.disable_caller, cfg.disable_stacktrace)
  apply_options_lem (level t ∷ xs) cfg = elim (Option-cases (zap.parse_level t)) [
    | inl unread ↦ rw (unread, with_level) (apply_options_lem xs cfg)
    | inr (l, given) ↦ rw (given, with_level) (apply_options_lem xs (record cfg { level = l }))
  ]
  apply_options_lem (output_paths ps ∷ xs) cfg = apply_options_lem xs _
  apply_options_lem (no_caller ∷ xs) cfg =
      apply_options_lem xs _
      ∙ ap (λ (b : Bool). record (configured xs cfg) { disable_caller = b })
          (ground (arith, cfg.disable_caller))
  apply_options_lem (no_stacktrace ∷ xs) cfg =
      apply_options_lem xs _
      ∙ ap (λ (b : Bool). record (configured xs cfg) { disable_stacktrace = b })
          (ground (arith, cfg.disable_stacktrace))

  -- MustProduction gives zap the production configuration with ISO 8601 times under the key ts and
  -- durations as text, in which the level is the last one of the options that zap can read, the output
  -- paths are the last ones given, and the caller and the stack trace are off if some option says so.
  -- It panics, with the error's text, exactly if zap cannot build that, and else returns its logger.
  pub must_production_lem :
      (xs : List Setting)
      → must_production zap (map (option_of zap) xs)
        ≡ (elim (zap.build
            (configured xs (record zap.new_production_config {
              time_key = codes "ts";
              encode_time = zap.iso8601;
              encode_duration = zap.string_duration;
            }))
            1) [
              | ok sugar ↦ returned (zap_logger sugar)
              | err e ↦ panicked (codes "logger: failed to create production logger: " ++ e)
            ])
  unfolding must_production new_production
  must_production_lem xs = rw (apply_options_lem xs _) (outcome _)
    where
      outcome :
          (r : Result Bytes zap.Sugar)
          → must zap (codes "logger: failed to create production logger: ") (built zap r)
            ≡ (elim r [
              | ok sugar ↦ returned (zap_logger sugar)
              | err e ↦ panicked (codes "logger: failed to create production logger: " ++ e)
            ])
      outcome (ok sugar) = refl
      outcome (err e) = refl
