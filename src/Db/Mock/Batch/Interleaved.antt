-- ===== src/Db/Mock/Batch/Interleaved.antt =====
-- A batch among other calls: between NewBatch and Commit the store may be written, reset and
-- closed by other goroutines. Each call is one event of a sequence.
use brewery_bitcoin.Db.Base.{DbError}
use brewery_bitcoin.Db.Contract.{Request}
use brewery_bitcoin.Db.Mock
use brewery_bitcoin.Db.Mock.{MockStore, checked, emptied, update, reset}
use brewery_bitcoin.Db.Mock.Refines.{run}
use brewery_bitcoin.Db.Mock.Batch.{MockBatch, new_batch, put, delete, close, commit}
use brewery_bitcoin.Db.Mock.Batch.Commit.{
  Covers-same, IsStaged, new_batch-IsStaged, put-IsStaged, delete-IsStaged, commit_lem,
}
use brewery_bitcoin.Prelude.{
  ◌≡◌, refl, sym, ◌∙◌, ◌≢◌, inl, inr, false, Option, none, some, List, [], ◌∷◌, arith, Option-cases,
  is_some, Bytes, same_iff, Dict, lookup, lookup-insert,
}

pub data Event : Type 0 where
  on_store : Request → Event
  reset_store : Event
  stage_put : Bytes → Option Bytes → Bytes → Event
  stage_delete : Bytes → Option Bytes → Event
  commit_batch : Event
  close_batch : Event

-- the store and the batch after a commit
abbrev pub after_commit :
    MockBatch → Option (MockStore × Option DbError) → Option (MockStore × MockBatch)
after_commit b none = none
after_commit b (some (m, x)) = some (m, b)

-- One call; `none` is a panic.
unfoldable pub play_event : MockStore × MockBatch → Event → Option (MockStore × MockBatch)
play_event (m, b) (on_store r) = some ((run m r).0, b)
play_event (m, b) reset_store = some (reset m, b)
play_event (m, b) (stage_put cf key v) = some (m, (put m b cf key v).0)
play_event (m, b) (stage_delete cf key) = some (m, (delete m b cf key).0)
play_event (m, b) commit_batch = after_commit b (commit m b)
play_event (m, b) close_batch = some (m, close b)

unfoldable pub play : MockStore × MockBatch → List Event → Option (MockStore × MockBatch)
play s [] = some s
play s (x ∷ xs) = elim (play_event s x) [ none ↦ none | some s' ↦ play s' xs ]

-- The store is closed, or it was open before and has the same families.
KeepsFamilies : MockStore → MockStore → Type 0
KeepsFamilies m m' =
    m'.is_closed ≡ false
    → (m.is_closed ≡ false)
      × ((cf : Bytes) → is_some (lookup cf m'.buckets) ≡ is_some (lookup cf m.buckets))

IsStaged-in : (m m' : MockStore) (b : MockBatch) → KeepsFamilies m m' → IsStaged m b → IsStaged m' b
unfolding KeepsFamilies
IsStaged-in m m' b keeps h = record {
  covered = λ alive.
      let (before, families) = keeps alive in
      Covers-same m.buckets m'.buckets b.ops families (h.covered before);
}

lookup-emptied :
    (buckets : Dict (Dict Bytes)) (cf : Bytes)
    → is_some (lookup cf (emptied buckets)) ≡ is_some (lookup cf buckets)
unfolding lookup emptied
lookup-emptied [] cf = refl
lookup-emptied ((j, b) ∷ buckets) cf = ground (arith, lookup-emptied buckets cf)

update_keeps :
    (m : MockStore) (cf : Bytes) (key : Option Bytes) (op : Bytes → Dict Bytes → Dict Bytes)
    → KeepsFamilies m (update m cf op (checked m cf key)).0
unfolding KeepsFamilies checked
update_keeps m cf none op alive = (ground arith, λ cf'. ground arith)
update_keeps m cf (some k) op alive = elim (Option-cases (lookup cf m.buckets)) [
  | inl absent ↦ (ground (arith, absent), λ cf'. ground (arith, absent))
  | inr (bucket, at) ↦ (
    ground (arith, at),
    λ cf'. ground (arith, at, same_iff cf cf', lookup-insert cf cf' (op k bucket) m.buckets),
  )
]

run_keeps : (m : MockStore) (r : Request) → KeepsFamilies m (run m r).0
unfolding run KeepsFamilies Mock.put Mock.delete Mock.close
run_keeps m (Request.put cf key v) = update_keeps m cf key _
run_keeps m (Request.delete cf key) = update_keeps m cf key _
run_keeps m Request.close = λ alive. absurd (ground (arith, alive))
run_keeps m _ = λ alive. (alive, λ cf. refl)

reset_keeps : (m : MockStore) → KeepsFamilies m (reset m)
unfolding KeepsFamilies reset
reset_keeps m = λ alive. (alive, lookup-emptied m.buckets)

-- An event does not panic, and leaves a staged batch.
play_event_lem :
    (m : MockStore) (b : MockBatch) (x : Event)
    → IsStaged m b
    → (m' : MockStore) × (b' : MockBatch) × (play_event (m, b) x ≡ some (m', b')) × IsStaged m' b'
unfolding play_event close
play_event_lem m b (on_store r) h =
    ((run m r).0, b, refl, IsStaged-in m (run m r).0 b (run_keeps m r) h)
play_event_lem m b reset_store h = (reset m, b, refl, IsStaged-in m (reset m) b (reset_keeps m) h)
play_event_lem m b (stage_put cf key v) h =
    (m, (put m b cf key v).0, refl, put-IsStaged m b cf key v h)
play_event_lem m b (stage_delete cf key) h =
    (m, (delete m b cf key).0, refl, delete-IsStaged m b cf key h)
play_event_lem m b commit_batch h =
    let (m', x, done, _, same_closed, families, _) = commit_lem m b h in
    (
      m',
      b,
      rw done refl,
      IsStaged-in m m' b (unfold KeepsFamilies in λ alive. (sym same_closed ∙ alive, families)) h,
    )
play_event_lem m b close_batch h = (m, close b, refl, record { covered = λ alive. tt })

play_total :
    (xs : List Event) (m : MockStore) (b : MockBatch)
    → IsStaged m b
    → (s : MockStore × MockBatch) × (play (m, b) xs ≡ some s)
unfolding play
play_total [] m b h = ((m, b), refl)
play_total (x ∷ xs) m b h =
    let (m', b', done, staged) = play_event_lem m b x h in
    let (s, rest) = play_total xs m' b' staged in (s, rw (done, play) rest)

-- Whatever store calls, resets, closes and commits are interleaved with the calls of a new batch,
-- nothing panics: no commit assigns to an entry of a nil map.
pub play_never_panics : (m : MockStore) (xs : List Event) → play (m, new_batch m) xs ≢ none
play_never_panics m xs panics =
    let (s, done) = play_total xs m (new_batch m) (new_batch-IsStaged m) in cc (done, panics)
