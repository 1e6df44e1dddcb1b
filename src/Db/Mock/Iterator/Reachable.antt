-- ===== src/Db/Mock/Iterator/Reachable.antt =====
-- db/mock.go: NewIterator over a store that has been through any sequence of calls.
use brewery_bitcoin.Stdlib.Sort.{IsAscending}
use brewery_bitcoin.Db.Base.{default_column_family}
use brewery_bitcoin.Db.Contract.{Request}
use brewery_bitcoin.Db.Mock
use brewery_bitcoin.Db.Mock.{MockStore, register, new_mock_store, checked, emptied, update, reset}
use brewery_bitcoin.Db.Mock.Refines.{run}
use brewery_bitcoin.Db.Mock.Batch.{MockOp, MockBatch, new_batch, apply_op, apply_ops, commit}
use brewery_bitcoin.Db.Mock.Batch.Commit.{stored}
use brewery_bitcoin.Db.Mock.Batch.Interleaved.{
  Event, on_store, reset_store, stage_put, stage_delete, commit_batch, close_batch, after_commit,
  play_event, play,
}
use brewery_bitcoin.Db.Mock.Iterator.{MockIterator, snapshot, new_iterator, valid}
use brewery_bitcoin.Db.Mock.Iterator.Snapshot.{
  entry_keys, find, snapshot-IsAscending, find-snapshot,
}
use brewery_bitcoin.Prelude.{
  ◌≡◌, sym, ap, ◌∙◌, subst, inl, inr, Bool, true, false, ◌||◌, Option, none, some, List, [], ◌∷◌,
  arith, if◌then◌else◌, Bool-cases, Option-cases, IsDistinct, Bytes, same, Dict, lookup, insert,
  remove, keys, lookup-insert, ok, IsDistinct-insert, IsDistinct-remove,
}

-- Every bucket holds each of its keys once.
abbrev pub IsTidy : Dict (Dict Bytes) → Type 0
IsTidy buckets =
    (cf : Bytes) (bucket : Dict Bytes) → lookup cf buckets ≡ some bucket → IsDistinct (keys bucket)

insert-IsTidy :
    (cf : Bytes) (bucket : Dict Bytes) (buckets : Dict (Dict Bytes))
    → IsTidy buckets
    → IsDistinct (keys bucket)
    → IsTidy (insert cf bucket buckets)
insert-IsTidy cf bucket buckets tidy distinct cf' bucket' at = elim (Bool-cases (same cf cf')) [
  | inl e ↦
      let same_bucket : bucket ≡ bucket' =
        ground (arith, at, e, lookup-insert cf cf' bucket buckets) in
      subst (λ x. IsDistinct (keys x)) same_bucket distinct
  | inr n ↦ tidy cf' bucket' (ground (arith, at, n, lookup-insert cf cf' bucket buckets))
]

empty_IsTidy : IsTidy []
unfolding lookup
empty_IsTidy cf bucket at = absurd (cc at)

initial_IsTidy : IsTidy ((default_column_family, []) ∷ [])
unfolding insert
initial_IsTidy = insert-IsTidy default_column_family [] [] empty_IsTidy tt

if_IsTidy : (b : Bool) (x y : Dict (Dict Bytes)) → IsTidy x → IsTidy y → IsTidy (if b then x else y)
if_IsTidy true x y h k = h
if_IsTidy false x y h k = k

register-IsTidy :
    (cfs : List Bytes) (buckets : Dict (Dict Bytes))
    → IsTidy buckets
    → IsTidy (register buckets cfs)
unfolding register
register-IsTidy [] buckets tidy = tidy
register-IsTidy (cf ∷ cfs) buckets tidy =
    register-IsTidy cfs _ (
      if_IsTidy (same cf default_column_family) buckets _ tidy
        (insert-IsTidy cf [] buckets tidy tt))

emptied-IsTidy : (buckets : Dict (Dict Bytes)) → IsTidy (emptied buckets)
unfolding emptied lookup
emptied-IsTidy [] cf bucket at = absurd (cc at)
emptied-IsTidy ((j, b) ∷ buckets) cf bucket at = elim (Bool-cases (same j cf)) [
  | inl e ↦
      let none_left : [] ≡ bucket = ground (arith, at, e) in
      subst (λ x. IsDistinct (keys x)) none_left tt
  | inr n ↦ emptied-IsTidy buckets cf bucket (ground (arith, at, n))
]

update-IsTidy :
    (m : MockStore) (cf : Bytes) (key : Option Bytes) (op : Bytes → Dict Bytes → Dict Bytes)
    → ((k : Bytes) (bucket : Dict Bytes)
        → IsDistinct (keys bucket)
        → IsDistinct (keys (op k bucket)))
    → IsTidy m.buckets
    → IsTidy (update m cf op (checked m cf key)).0.buckets
unfolding checked
update-IsTidy m cf none op keeps tidy = elim (Bool-cases m.is_closed) [
  | inl shut ↦ rw shut tidy
  | inr open' ↦ rw open' tidy
]
update-IsTidy m cf (some k) op keeps tidy = elim (Bool-cases m.is_closed) [
  | inl shut ↦ rw shut tidy
  | inr open' ↦ elim (Option-cases (lookup cf m.buckets)) [
    | inl absent ↦ rw (open', absent) tidy
    | inr (bucket, there) ↦
        rw (open', there)
          (insert-IsTidy cf (op k bucket) m.buckets tidy (keeps k bucket (tidy cf bucket there)))
  ]
]

if_IsDistinct :
    (b : Bool) (x y : Dict Bytes)
    → IsDistinct (keys x)
    → IsDistinct (keys y)
    → IsDistinct (keys (if b then x else y))
if_IsDistinct true x y h k = h
if_IsDistinct false x y h k = k

apply_op-IsTidy :
    (buckets after : Dict (Dict Bytes)) (op : MockOp)
    → apply_op buckets op ≡ some after
    → IsTidy buckets
    → IsTidy after
unfolding apply_op
apply_op-IsTidy buckets after op e tidy = elim (Option-cases (lookup op.cf buckets)) [
  | inl absent ↦
      let unchanged : buckets ≡ after = ground (arith, e, absent) in subst IsTidy unchanged tidy
  | inr (bucket, there) ↦
      let written : Dict Bytes =
        if op.del then remove op.key bucket else insert op.key op.value bucket in
      let result : insert op.cf written buckets ≡ after = ground (arith, e, there) in
      subst IsTidy result (
        insert-IsTidy op.cf written buckets tidy (
          if_IsDistinct op.del (remove op.key bucket) (insert op.key op.value bucket)
            (IsDistinct-remove op.key bucket (tidy op.cf bucket there))
            (IsDistinct-insert op.key op.value bucket (tidy op.cf bucket there))))
]

apply_ops-IsTidy :
    (ops : List MockOp) (buckets after : Dict (Dict Bytes))
    → apply_ops buckets ops ≡ some after
    → IsTidy buckets
    → IsTidy after
unfolding apply_ops
apply_ops-IsTidy [] buckets after e tidy = subst IsTidy (ground (arith, e)) tidy
apply_ops-IsTidy (op ∷ ops) buckets after e tidy = elim (Option-cases (apply_op buckets op)) [
  | inl panics ↦ absurd (ground (arith, e, panics))
  | inr (mid, done) ↦
      apply_ops-IsTidy ops mid after (ground (arith, e, done))
        (apply_op-IsTidy buckets mid op done tidy)
]

run-IsTidy : (m : MockStore) (r : Request) → IsTidy m.buckets → IsTidy (run m r).0.buckets
unfolding run Mock.put Mock.delete Mock.close
run-IsTidy m (Request.put cf key v) tidy =
    update-IsTidy m cf key _ (λ k bucket h. IsDistinct-insert k v bucket h) tidy
run-IsTidy m (Request.delete cf key) tidy =
    update-IsTidy m cf key _ (λ k bucket h. IsDistinct-remove k bucket h) tidy
run-IsTidy m Request.close tidy = elim (Bool-cases m.is_closed) [
  | inl shut ↦ rw shut tidy
  | inr open' ↦ rw open' empty_IsTidy
]
run-IsTidy m _ tidy = tidy

commit-IsTidy :
    (m m' : MockStore) (b b' : MockBatch)
    → after_commit b (commit m b) ≡ some (m', b')
    → IsTidy m.buckets
    → IsTidy m'.buckets
unfolding commit
commit-IsTidy m m' b b' e tidy = elim (Bool-cases (b.is_closed || m.is_closed)) [
  | inl shut ↦
      let same_store : m ≡ m' = ground (arith, e, shut) in
      subst (λ x. IsTidy x.buckets) same_store tidy
  | inr open' ↦ elim (Option-cases (apply_ops m.buckets b.ops)) [
    | inl panics ↦ absurd (ground (arith, e, open', panics))
    | inr (after, done) ↦
        let result : after ≡ m'.buckets = ground (arith, e, open', done) in
        subst IsTidy result (apply_ops-IsTidy b.ops m.buckets after done tidy)
  ]
]

play_event-IsTidy :
    (m m' : MockStore) (b b' : MockBatch) (x : Event)
    → play_event (m, b) x ≡ some (m', b')
    → IsTidy m.buckets
    → IsTidy m'.buckets
unfolding play_event reset
play_event-IsTidy m m' b b' (on_store r) e tidy =
    let moved : (run m r).0 ≡ m' = ground (arith, e) in
    subst (λ x. IsTidy x.buckets) moved (run-IsTidy m r tidy)
play_event-IsTidy m m' b b' reset_store e tidy =
    let moved : emptied m.buckets ≡ m'.buckets = ground (arith, e) in
    subst IsTidy moved (emptied-IsTidy m.buckets)
play_event-IsTidy m m' b b' (stage_put cf key v) e tidy =
    let kept : m ≡ m' = ground (arith, e) in subst (λ x. IsTidy x.buckets) kept tidy
play_event-IsTidy m m' b b' (stage_delete cf key) e tidy =
    let kept : m ≡ m' = ground (arith, e) in subst (λ x. IsTidy x.buckets) kept tidy
play_event-IsTidy m m' b b' commit_batch e tidy = commit-IsTidy m m' b b' e tidy
play_event-IsTidy m m' b b' close_batch e tidy =
    let kept : m ≡ m' = ground (arith, e) in subst (λ x. IsTidy x.buckets) kept tidy

play-IsTidy :
    (xs : List Event) (m m' : MockStore) (b b' : MockBatch)
    → play (m, b) xs ≡ some (m', b')
    → IsTidy m.buckets
    → IsTidy m'.buckets
unfolding play
play-IsTidy [] m m' b b' e tidy =
    let kept : m ≡ m' = ground (arith, e) in subst (λ x. IsTidy x.buckets) kept tidy
play-IsTidy (x ∷ xs) m m' b b' e tidy = elim (Option-cases (play_event (m, b) x)) [
  | inl panics ↦ absurd (ground (arith, e, panics))
  | inr ((mid, c), done) ↦
      play-IsTidy xs mid m' c b' (rw (done, play) at e) (play_event-IsTidy m mid b c x done tidy)
]

-- After any sequence of store and batch calls on a new MockStore, an iterator that NewIterator
-- returns starts before the first entry, its keys ascend strictly, and reading it at any key gives
-- what the store holds at that family and key.
pub new_iterator_lem :
    (cfs : List Bytes) (xs : List Event) (m : MockStore) (b : MockBatch) (cf : Bytes)
    (it : MockIterator)
    → play (new_mock_store cfs, new_batch (new_mock_store cfs)) xs ≡ some (m, b)
    → new_iterator m cf ≡ ok it
    → (valid it ≡ false)
      × IsAscending (entry_keys it.entries)
      × ((k : Bytes) → find k it.entries ≡ stored m.buckets cf k)
unfolding new_iterator valid new_mock_store
new_iterator_lem cfs xs m b cf it played made = elim (Option-cases (lookup cf m.buckets)) [
  | inl absent ↦ absurd (ground (arith, made, absent))
  | inr (bucket, there) ↦
      let entries : snapshot bucket ≡ it.entries = ground (arith, made, there) in
      let start : IsTidy (new_mock_store cfs).buckets = register-IsTidy cfs _ initial_IsTidy in
      let tidy : IsTidy m.buckets = play-IsTidy xs _ m _ b played start in
      (
        ground (arith, made, there),
        subst (λ l. IsAscending (entry_keys l)) entries
            (snapshot-IsAscending bucket (tidy cf bucket there)),
        λ k. ap (find k) (sym entries) ∙ find-snapshot bucket k ∙ ground (arith, there),
      )
]
