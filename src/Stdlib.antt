-- ===== src/Stdlib.antt =====
-- What the program uses of the standard library of Go: `sort.Search`, `sort.Strings`, `%d` and
-- `filepath.Join`.
pub mod Search
pub mod Sort
pub mod Decimal
pub mod FilePath
