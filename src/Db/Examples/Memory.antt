-- ===== src/Db/Examples/Memory.antt =====
-- A key-value engine in memory that is reliable.
use brewery_bitcoin.Db.Engine.{Engine, as_found, IsReliable, IsReliableBatch}
use brewery_bitcoin.Db.Mock.Iterator.{
  MockEntry, MockIterator, seek, seek_to_first, seek_to_last, next, prev, valid, snapshot, key,
  value, bytes_of,
}
use brewery_bitcoin.Prelude.{
  ◌≡◌, refl, ◌&&◌, not, Option, none, some, List, [], ◌∷◌, ◌++◌, arith, if◌then◌else◌, length,
  length-append, negsuc, Bytes, less, Dict, lookup, insert, remove, lookup-insert, lookup-remove,
  ok,
}

-- the staged writes of a batch of the engine, applied in order
pub apply_all : List (Bytes × Option Bytes) → Dict Bytes → Dict Bytes
apply_all [] d = d
apply_all ((k, none) ∷ rest) d = apply_all rest (remove k d)
apply_all ((k, some v) ∷ rest) d = apply_all rest (insert k v d)

-- the entries with lower <= key < upper
unfoldable pub within : Bytes → Bytes → List MockEntry → List MockEntry
within lower upper [] = []
within lower upper (e ∷ rest) =
    let others = within lower upper rest in
    if not (less e.key lower) && less e.key upper then e ∷ others else others

-- An engine in memory: a dictionary, and iterators over a snapshot of it.
abbrev pub dict_engine : Engine
dict_engine = record {
  Db = Dict Bytes;
  Batch = List (Bytes × Option Bytes);
  Iter = MockIterator;
  open_db = λ path cfg. ok [];
  get = λ d k. as_found (lookup k d);
  set = λ d k v sync. (insert k v d, none);
  delete = λ d k sync. (remove k d, none);
  flush = λ d. (d, none);
  close = λ d. (d, none);
  new_batch = λ d. [];
  batch_set = λ b k v. (b ++ (k, some v) ∷ [], none);
  batch_delete = λ b k. (b ++ (k, none) ∷ [], none);
  batch_count = λ b. length b;
  batch_commit = λ b d sync. (apply_all b d, none);
  batch_close = λ b. [];
  new_iter = λ d lower upper.
      ok (record { entries = within lower upper (snapshot d); position = negsuc 0 });
  seek_ge = λ it k. seek k it;
  first = seek_to_first;
  last = seek_to_last;
  next = next;
  prev = prev;
  valid = valid;
  iter_key = λ it. bytes_of (key it);
  value_and_err = λ it. ok (bytes_of (value it));
  iter_error = λ it. none;
  iter_close = λ it. it;
}

pub dict_engine-IsReliable : IsReliable dict_engine
dict_engine-IsReliable = record {
  get_set = λ d k v j sync. ground (arith, lookup-insert k j v d);
  get_delete = λ d k j sync. ground (arith, lookup-remove k j d);
  set_ok = λ d k v sync. refl;
  delete_ok = λ d k sync. refl;
  flush_ok = λ d. refl;
  flush_keeps = λ d k. refl;
  close_ok = λ d. refl;
}

apply_all-snoc :
    (b : List (Bytes × Option Bytes)) (x : Bytes × Option Bytes) (d : Dict Bytes)
    → apply_all (b ++ x ∷ []) d ≡ apply_all (x ∷ []) (apply_all b d)
unfolding apply_all
apply_all-snoc [] x d = refl
apply_all-snoc ((k, none) ∷ b) x d = apply_all-snoc b x (remove k d)
apply_all-snoc ((k, some v) ∷ b) x d = apply_all-snoc b x (insert k v d)

pub dict_engine-IsReliableBatch : IsReliableBatch dict_engine
unfolding apply_all
dict_engine-IsReliableBatch = record {
  set_ok = λ b k v. refl;
  delete_ok = λ b k. refl;
  commit_ok = λ b d sync. refl;
  count_new = λ d. refl;
  count_set = λ b k v. length-append b ((k, some v) ∷ []);
  count_delete = λ b k. length-append b ((k, none) ∷ []);
  commit_new = λ d0 d sync j. refl;
  commit_set = λ b k v d sync j.
      ground (arith, apply_all-snoc b (k, some v) d, lookup-insert k j v (apply_all b d));
  commit_delete = λ b k d sync j.
      ground (arith, apply_all-snoc b (k, none) d, lookup-remove k j (apply_all b d));
}
