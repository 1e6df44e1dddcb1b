-- ===== src/Db/Mock/Batch/Commit.antt =====
-- db/mock.go: Commit against the operations of its batch.
use mathlib.Core.List.{foldl}
use brewery_bitcoin.Db.Base.{DbError, closed, batch_closed}
use brewery_bitcoin.Db.Mock.{MockStore}
use brewery_bitcoin.Db.Mock.Batch.{
  MockOp, MockBatch, stage, put, delete, new_batch, apply_op, apply_ops, commit,
}
use brewery_bitcoin.Prelude.{
  ◌≡◌, refl, ap, ◌∙◌, inl, inr, true, false, ◌&&◌, ◌||◌, Option, none, some, List, [], ◌∷◌, ◌++◌,
  arith, if◌then◌else◌, Bool-cases, Option-cases, is_some, All, Bytes, same, same_iff, Dict, lookup,
  insert, remove, lookup-insert, lookup-remove,
}

-- `m.data[cf][key]`, where both are there
abbrev pub stored : Dict (Dict Bytes) → Bytes → Bytes → Option Bytes
stored buckets cf key = elim (lookup cf buckets) [ none ↦ none | some bucket ↦ lookup key bucket ]

-- What one operation makes of the value at a family and key.
abbrev pub effect : Bytes → Bytes → Option Bytes → MockOp → Option Bytes
effect cf key old op =
    if same op.cf cf && same op.key key then (if op.del then none else some op.value) else old

-- Every staged operation names a family that the store has.
abbrev pub Covers : Dict (Dict Bytes) → List MockOp → Type 0
Covers buckets = All (λ op. is_some (lookup op.cf buckets) ≡ true)

apply_op-stored :
    (buckets buckets' : Dict (Dict Bytes)) (op : MockOp) (cf key : Bytes)
    → is_some (lookup op.cf buckets) ≡ true
    → apply_op buckets op ≡ some buckets'
    → stored buckets' cf key ≡ effect cf key (stored buckets cf key) op
unfolding apply_op
apply_op-stored buckets buckets' op cf key there e = elim (Option-cases (lookup op.cf buckets)) [
  | inl absent ↦ absurd (ground (arith, there, absent))
  | inr (bucket, at) ↦ ground (
    arith,
    at,
    e,
    same_iff op.cf cf,
    lookup-insert op.cf cf (if op.del then remove op.key bucket else insert op.key op.value bucket)
        buckets,
    lookup-insert op.key key op.value bucket,
    lookup-remove op.key key bucket,
  )
]

-- An operation keeps the families, and does not panic where its own is there.
apply_op-families :
    (buckets : Dict (Dict Bytes)) (op : MockOp)
    → is_some (lookup op.cf buckets) ≡ true
    → (buckets' : Dict (Dict Bytes)) × (apply_op buckets op ≡ some buckets')
      × ((cf : Bytes) → is_some (lookup cf buckets') ≡ is_some (lookup cf buckets))
unfolding apply_op
apply_op-families buckets op there = elim (Option-cases (lookup op.cf buckets)) [
  | inl absent ↦ absurd (ground (arith, there, absent))
  | inr (bucket, at) ↦
      let bucket' = if op.del then remove op.key bucket else insert op.key op.value bucket in
      (
        insert op.cf bucket' buckets,
        ground (arith, at),
        λ cf. ground (arith, at, same_iff op.cf cf, lookup-insert op.cf cf bucket' buckets),
      )
]

pub Covers-same :
    (a b : Dict (Dict Bytes)) (ops : List MockOp)
    → ((cf : Bytes) → is_some (lookup cf b) ≡ is_some (lookup cf a))
    → Covers a ops
    → Covers b ops
Covers-same a b [] h c = tt
Covers-same a b (op ∷ ops) h c = (h op.cf ∙ c.0, Covers-same a b ops h c.1)

-- Covered operations are applied without a panic, the families stay, and each value is what the
-- operations, in their order, make of it.
apply_ops_lem :
    (ops : List MockOp) (buckets : Dict (Dict Bytes))
    → Covers buckets ops
    → (buckets' : Dict (Dict Bytes)) × (apply_ops buckets ops ≡ some buckets')
      × ((cf : Bytes) → is_some (lookup cf buckets') ≡ is_some (lookup cf buckets))
      × ((cf key : Bytes)
          → stored buckets' cf key ≡ foldl (effect cf key) (stored buckets cf key) ops)
unfolding apply_ops
apply_ops_lem [] buckets c = (buckets, refl, λ cf. refl, λ cf key. refl)
apply_ops_lem (op ∷ ops) buckets c =
    let (mid, done, same_families) = apply_op-families buckets op c.0 in
    let (last, all_done, families, values) =
      apply_ops_lem ops mid (Covers-same buckets mid ops same_families c.1) in
    (
      last,
      ground (arith, done, all_done),
      λ cf. families cf ∙ same_families cf,
      λ cf key.
          values cf key
          ∙ ap (λ (o : Option Bytes). foldl (effect cf key) o ops)
              (apply_op-stored buckets mid op cf key c.0 done),
    )

-- What an open batch over an open store may be assumed to be: it was filled through the batch's
-- own methods.
pub record IsStaged (m : MockStore) (b : MockBatch) : Type 0 where
  pub covered : m.is_closed ≡ false → Covers m.buckets b.ops

pub new_batch-IsStaged : (m : MockStore) → IsStaged m (new_batch m)
unfolding new_batch
new_batch-IsStaged m = record { covered = λ h. tt }

All-append {ℓ κ} :
    {A : Type ℓ} (P : A → Type κ) (xs ys : List A) → All P xs → All P ys → All P (xs ++ ys)
All-append P [] ys hx hy = hy
All-append P (x ∷ xs) ys hx hy = (hx.0, All-append P xs ys hx.1 hy)

stage-IsStaged :
    (m : MockStore) (b : MockBatch) (cf : Bytes) (key : Option Bytes) (op : Bytes → MockOp)
    → ((k : Bytes) → (op k).cf ≡ cf)
    → IsStaged m b
    → IsStaged m (stage m b cf key op).0
unfolding stage
stage-IsStaged m b cf none op names h = elim (Bool-cases b.is_closed) [
  | inl shut ↦ simp shut h
  | inr open' ↦ simp open' h
]
stage-IsStaged m b cf (some k) op names h = elim (Bool-cases b.is_closed) [
  | inl shut ↦ simp shut h
  | inr open' ↦ elim (Bool-cases (is_some (lookup cf m.buckets))) [
    | inl known ↦
        simp (open', known)
          (record {
            covered = λ alive.
                All-append (λ o. is_some (lookup o.cf m.buckets) ≡ true) b.ops (op k ∷ [])
                  (h.covered alive) (rw names known, tt);
          })
    | inr unknown ↦ simp (open', unknown) h
  ]
]

-- Each method of a batch keeps it staged, and so does everything that leaves the store's families
-- as they are.
pub put-IsStaged :
    (m : MockStore) (b : MockBatch) (cf : Bytes) (key : Option Bytes) (v : Bytes)
    → IsStaged m b
    → IsStaged m (put m b cf key v).0
unfolding put
put-IsStaged m b cf key v h = stage-IsStaged m b cf key _ (λ k. refl) h

pub delete-IsStaged :
    (m : MockStore) (b : MockBatch) (cf : Bytes) (key : Option Bytes)
    → IsStaged m b
    → IsStaged m (delete m b cf key).0
unfolding delete
delete-IsStaged m b cf key h = stage-IsStaged m b cf key _ (λ k. refl) h

-- Let the operations of a batch name families of the store, if that is open, as those of a batch
-- filled through its own methods do. Then committing it never panics. If the batch or the store is closed it returns the
-- error for that, and the store is unchanged. Otherwise it returns nil, the store has the same
-- families and is still open, and the value at each family and key is what the operations, in the
-- order of staging, make of the old one.
pub commit_lem :
    (m : MockStore) (b : MockBatch)
    → IsStaged m b
    → (m' : MockStore) × (e : Option DbError) × (commit m b ≡ some (m', e))
      × (e ≡ (if b.is_closed then some batch_closed else if m.is_closed then some closed else none))
      × (m'.is_closed ≡ m.is_closed)
      × ((cf : Bytes) → is_some (lookup cf m'.buckets) ≡ is_some (lookup cf m.buckets))
      × ((cf key : Bytes)
          → stored m'.buckets cf key ≡ (
              if b.is_closed || m.is_closed
              then stored m.buckets cf key
              else foldl (effect cf key) (stored m.buckets cf key) b.ops))
unfolding commit
commit_lem m b h = elim (Bool-cases (b.is_closed || m.is_closed)) [
  | inl shut ↦ refused shut
  | inr open' ↦
      let (last, done, families, values) =
        apply_ops_lem b.ops m.buckets (h.covered (ground arith)) in
      (
        record m { buckets = last },
        none,
        ground (arith, done),
        ground arith,
        refl,
        families,
        λ cf key. rw open' (values cf key),
      )
]
  where
    refused :
        b.is_closed || m.is_closed ≡ true
        → (m' : MockStore) × (e : Option DbError) × (commit m b ≡ some (m', e))
          × (e ≡ (
              if b.is_closed then some batch_closed else if m.is_closed then some closed else none))
          × (m'.is_closed ≡ m.is_closed)
          × ((cf : Bytes) → is_some (lookup cf m'.buckets) ≡ is_some (lookup cf m.buckets))
          × ((cf key : Bytes)
              → stored m'.buckets cf key ≡ (
                  if b.is_closed || m.is_closed
                  then stored m.buckets cf key
                  else foldl (effect cf key) (stored m.buckets cf key) b.ops))
    refused shut = (
      m,
      if b.is_closed then some batch_closed else some closed,
      ground arith,
      ground arith,
      refl,
      λ cf. refl,
      λ cf key. rw shut,
    )
