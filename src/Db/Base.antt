-- ===== src/Db/Base.antt =====
-- db/db.go: the sentinel errors and the default column family. Column-family names, keys and
-- values are byte strings; a nil key is `none`.
use brewery_bitcoin.Prelude.{Bytes, codes}

-- The engine call that an error of `fmt.Errorf("db: … failed: %w", err)` wraps.
pub data Verb : Type 0 where
  get_verb put_verb delete_verb has_verb iterator_verb flush_verb close_verb : Verb
  batch_put_verb batch_delete_verb batch_commit_verb : Verb

pub data DbError : Type 0 where
  closed : DbError
  column_family_not_found : Bytes → DbError
  key_not_found : DbError
  nil_key : DbError
  batch_closed : DbError
  wrapped : Verb → Bytes → DbError

abbrev pub default_column_family : Bytes
default_column_family = codes "default"
