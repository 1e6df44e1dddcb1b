-- ===== src/Db.antt =====
-- Package db (db/db.go, db/mock.go, db/options.go, db/pebble.go): the storage abstraction.
pub mod Base
pub mod Keys
pub mod Contract
pub mod Mock
pub mod Options
pub mod Engine
pub mod Pebble
pub mod Registered
pub mod Agreement
pub mod AfterClose
pub mod Staging
pub mod BatchAgreement
pub mod Cursor
pub mod ScanAgreement
pub mod MoveAgreement
pub mod SeekAgreement
pub mod Examples
