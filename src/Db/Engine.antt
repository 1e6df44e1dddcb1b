-- ===== src/Db/Engine.antt =====
-- The storage engine github.com/cockroachdb/pebble, which the repository does not contain: its
-- calls are a parameter. A call's error is its text. What the program relies on is the record
-- `IsReliable`: the calls succeed, and a read sees the last write of its key.
use brewery_bitcoin.Db.Options.{Config}
use brewery_bitcoin.Prelude.{
  ℕ, ◌+◌, ◌≡◌, Bool, Option, none, some, if◌then◌else◌, Bytes, same, Result,
}

-- The outcome of DB.Get: a value, ErrNotFound, or another error.
pub data Found : Type 0 where
  found : Bytes → Found
  not_found : Found
  failed : Bytes → Found

pub record Engine : Type 1 where
  pub Db : Type 0
  pub Batch : Type 0
  pub Iter : Type 0
  pub open_db : Bytes → Config → Result Bytes Db
  pub get : Db → Bytes → Found
  pub set : Db → Bytes → Bytes → Bool → Db × Option Bytes
  pub delete : Db → Bytes → Bool → Db × Option Bytes
  pub flush : Db → Db × Option Bytes
  pub close : Db → Db × Option Bytes
  pub new_batch : Db → Batch
  pub batch_set : Batch → Bytes → Bytes → Batch × Option Bytes
  pub batch_delete : Batch → Bytes → Batch × Option Bytes
  pub batch_count : Batch → ℕ
  pub batch_commit : Batch → Db → Bool → Db × Option Bytes
  pub batch_close : Batch → Batch
  pub new_iter : Db → Bytes → Bytes → Result Bytes Iter
  pub seek_ge : Iter → Bytes → Iter
  pub first : Iter → Iter
  pub last : Iter → Iter
  pub next : Iter → Iter
  pub prev : Iter → Iter
  pub valid : Iter → Bool
  pub iter_key : Iter → Bytes
  pub value_and_err : Iter → Result Bytes Bytes
  pub iter_error : Iter → Option Bytes
  pub iter_close : Iter → Iter

abbrev pub as_found : Option Bytes → Found
as_found none = not_found
as_found (some v) = found v

pub record IsReliable (e : Engine) : Type 0 where
  pub get_set :
      (d : e.Db) (k v j : Bytes) (sync : Bool)
      → e.get (e.set d k v sync).0 j ≡ (if same k j then found v else e.get d j)
  pub get_delete :
      (d : e.Db) (k j : Bytes) (sync : Bool)
      → e.get (e.delete d k sync).0 j ≡ (if same k j then not_found else e.get d j)
  pub set_ok : (d : e.Db) (k v : Bytes) (sync : Bool) → (e.set d k v sync).1 ≡ none
  pub delete_ok : (d : e.Db) (k : Bytes) (sync : Bool) → (e.delete d k sync).1 ≡ none
  pub flush_ok : (d : e.Db) → (e.flush d).1 ≡ none
  pub flush_keeps : (d : e.Db) (k : Bytes) → e.get (e.flush d).0 k ≡ e.get d k
  pub close_ok : (d : e.Db) → (e.close d).1 ≡ none

-- The same for a batch: its calls succeed, and a commit has the effect of its writes in order.
pub record IsReliableBatch (e : Engine) : Type 0 where
  pub set_ok : (b : e.Batch) (k v : Bytes) → (e.batch_set b k v).1 ≡ none
  pub delete_ok : (b : e.Batch) (k : Bytes) → (e.batch_delete b k).1 ≡ none
  pub commit_ok : (b : e.Batch) (d : e.Db) (sync : Bool) → (e.batch_commit b d sync).1 ≡ none
  pub count_new : (d : e.Db) → e.batch_count (e.new_batch d) ≡ 0
  pub count_set :
      (b : e.Batch) (k v : Bytes) → e.batch_count (e.batch_set b k v).0 ≡ e.batch_count b + 1
  pub count_delete :
      (b : e.Batch) (k : Bytes) → e.batch_count (e.batch_delete b k).0 ≡ e.batch_count b + 1
  pub commit_new :
      (d0 d : e.Db) (sync : Bool) (j : Bytes)
      → e.get (e.batch_commit (e.new_batch d0) d sync).0 j ≡ e.get d j
  pub commit_set :
      (b : e.Batch) (k v : Bytes) (d : e.Db) (sync : Bool) (j : Bytes)
      → e.get (e.batch_commit (e.batch_set b k v).0 d sync).0 j
        ≡ (if same k j then found v else e.get (e.batch_commit b d sync).0 j)
  pub commit_delete :
      (b : e.Batch) (k : Bytes) (d : e.Db) (sync : Bool) (j : Bytes)
      → e.get (e.batch_commit (e.batch_delete b k).0 d sync).0 j
        ≡ (if same k j then not_found else e.get (e.batch_commit b d sync).0 j)
