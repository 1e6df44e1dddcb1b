-- ===== src/Db/Mock/Batch.antt =====
-- db/mock.go: mockBatch. A batch holds a pointer to its store, so its methods take the store as it
-- is when they are called. Put and Delete read the store's map and change only the batch.
pub mod Commit
pub mod Interleaved
use brewery_bitcoin.Db.Base.{DbError, closed, column_family_not_found, nil_key, batch_closed}
use brewery_bitcoin.Db.Mock.{MockStore}
use brewery_bitcoin.Prelude.{
  ℕ, Bool, true, false, Option, none, some, List, [], ◌∷◌, ◌++◌, if◌then◌else◌, is_some, length,
  Bytes, Dict, lookup, insert, remove,
}

pub record MockOp : Type 0 where
  pub del : Bool
  pub cf : Bytes
  pub key : Bytes
  pub value : Bytes

pub record MockBatch : Type 0 where
  pub ops : List MockOp
  pub is_closed : Bool

unfoldable pub new_batch : MockStore → MockBatch
new_batch m = record { ops = []; is_closed = false }

-- the checks and the append of Put and Delete
unfoldable pub stage :
    MockStore → MockBatch → Bytes → Option Bytes → (Bytes → MockOp) → MockBatch × Option DbError
stage m b cf key op = if b.is_closed then (b, some batch_closed) else elim key [
  | none ↦ (b, some nil_key)
  | some k ↦
      if is_some (lookup cf m.buckets)
      then (record b { ops = b.ops ++ op k ∷ [] }, none)
      else (b, some (column_family_not_found cf))
]

unfoldable pub put :
    MockStore → MockBatch → Bytes → Option Bytes → Bytes → MockBatch × Option DbError
unfolding stage
put m b cf key v = stage m b cf key (λ k. record { del = false; cf = cf; key = k; value = v })

unfoldable pub delete : MockStore → MockBatch → Bytes → Option Bytes → MockBatch × Option DbError
unfolding stage
delete m b cf key = stage m b cf key (λ k. record { del = true; cf = cf; key = k; value = [] })

unfoldable pub count : MockBatch → ℕ
count b = length b.ops

-- One round of Commit's loop. `none` is the panic of an assignment to an entry of a nil map;
-- a deletion from a nil map does nothing.
unfoldable pub apply_op : Dict (Dict Bytes) → MockOp → Option (Dict (Dict Bytes))
apply_op buckets op = elim (lookup op.cf buckets) [
  | none ↦ if op.del then some buckets else none
  | some bucket ↦ some (
      insert op.cf (if op.del then remove op.key bucket else insert op.key op.value bucket) buckets)
]

-- The loop of Commit.
unfoldable pub apply_ops : Dict (Dict Bytes) → List MockOp → Option (Dict (Dict Bytes))
apply_ops buckets [] = some buckets
apply_ops buckets (op ∷ ops) = elim (apply_op buckets op) [
  | none ↦ none
  | some buckets' ↦ apply_ops buckets' ops
]

-- Commit: `none` is a panic.
unfoldable pub commit : MockStore → MockBatch → Option (MockStore × Option DbError)
commit m b =
    if b.is_closed
    then some (m, some batch_closed)
    else if m.is_closed
    then some (m, some closed)
    else elim (apply_ops m.buckets b.ops) [
      | none ↦ none
      | some buckets ↦ some (record m { buckets = buckets }, none)
    ]

unfoldable pub close : MockBatch → MockBatch
close b = record { ops = []; is_closed = true }
