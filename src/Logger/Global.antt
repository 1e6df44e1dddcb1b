-- ===== src/Logger/Global.antt =====
-- pkg/logger/global.go: the default logger, read and written under its lock.
use brewery_bitcoin.Logger.Zap.{Zap, Severity}
use brewery_bitcoin.Logger.Constructors.{Logger, nop, zap_logger, After, log, with_fields}
use brewery_bitcoin.Prelude.{Bytes}

module _ (zap : Zap) where
  -- The variable defaultLogger, with its first value.
  pub record Global : Type 0 where
    pub default_logger : Logger zap.Sugar

  abbrev pub first_global : Global
  first_global = record { default_logger = nop }

  unfoldable pub set_default : Logger zap.Sugar → Global → Global
  set_default l g = record g { default_logger = l }

  -- Sync of a zapLogger; its error is dropped
  unfoldable pub sync_default : Global → zap.World → zap.World
  sync_default g w = elim g.default_logger [ nop ↦ w | zap_logger sugar ↦ zap.sync sugar w ]

  -- the functions Debug, Info, Warn, Error and Fatal of the package
  unfoldable pub log_default : Severity → Bytes → zap.Fields → Global → zap.World → After zap.World
  unfolding log
  log_default s msg kvs g w = log zap s g.default_logger msg kvs w

  -- the function With of the package
  unfoldable pub with_default : zap.Fields → Global → Logger zap.Sugar
  unfolding with_fields
  with_default kvs g = with_fields zap kvs g.default_logger
