-- ===== src/Db/Options.antt =====
-- db/options.go: the configuration of Open and its functional options. A `Logger` is left out: no
-- result depends on it. `cpus` is runtime.NumCPU().
use brewery_bitcoin.Prelude.{ℕ, ◌*◌, ◌^◌, Bool, false, List, [], ◌∷◌, ℤ, pos, Bytes}

pub record Config : Type 0 where
  pub column_families : List Bytes
  pub cache_size : ℤ
  pub mem_table_size : ℕ
  pub max_concurrent_compactions : ℤ
  pub max_open_files : ℤ
  pub l0_compaction_threshold : ℤ
  pub l0_stop_writes_threshold : ℤ
  pub l_base_max_bytes : ℤ
  pub wal_dir : Bytes
  pub sync_writes : Bool

unfoldable pub default_config : ℤ → Config
default_config cpus = record {
  column_families = [];
  cache_size = pos (256 * 2 ^ 20);
  mem_table_size = 64 * 2 ^ 20;
  max_concurrent_compactions = cpus;
  max_open_files = pos 0;
  l0_compaction_threshold = pos 4;
  l0_stop_writes_threshold = pos 12;
  l_base_max_bytes = pos (256 * 2 ^ 20);
  wal_dir = [];
  sync_writes = false;
}

abbrev pub ConfigOption : Type 0
ConfigOption = Config → Config

unfoldable pub with_column_families : List Bytes → ConfigOption
with_column_families cfs c = record c { column_families = cfs }

unfoldable pub with_cache_size : ℤ → ConfigOption
with_cache_size size c = record c { cache_size = size }

unfoldable pub with_mem_table_size : ℕ → ConfigOption
with_mem_table_size size c = record c { mem_table_size = size }

unfoldable pub with_max_concurrent_compactions : ℤ → ConfigOption
with_max_concurrent_compactions n c = record c { max_concurrent_compactions = n }

unfoldable pub with_max_open_files : ℤ → ConfigOption
with_max_open_files n c = record c { max_open_files = n }

unfoldable pub with_l0_compaction_threshold : ℤ → ConfigOption
with_l0_compaction_threshold n c = record c { l0_compaction_threshold = n }

unfoldable pub with_l0_stop_writes_threshold : ℤ → ConfigOption
with_l0_stop_writes_threshold n c = record c { l0_stop_writes_threshold = n }

unfoldable pub with_l_base_max_bytes : ℤ → ConfigOption
with_l_base_max_bytes size c = record c { l_base_max_bytes = size }

unfoldable pub with_wal_dir : Bytes → ConfigOption
with_wal_dir dir c = record c { wal_dir = dir }

unfoldable pub with_sync_writes : Bool → ConfigOption
with_sync_writes sync c = record c { sync_writes = sync }

-- `for _, o := range opts { o(cfg) }`
unfoldable pub apply_options : Config → List ConfigOption → Config
apply_options c [] = c
apply_options c (o ∷ os) = apply_options (o c) os
