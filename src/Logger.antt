-- ===== src/Logger.antt =====
-- Package logger (pkg/logger): the logging contract, its adapter of zap, and the default logger.
pub mod Zap
pub mod Options
pub mod Constructors
pub mod Global
pub mod Configured
pub mod Examples
