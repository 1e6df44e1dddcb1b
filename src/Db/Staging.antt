-- ===== src/Db/Staging.antt =====
-- db/mock.go and db/pebble.go: calls that fill a batch, made on a MockStore's batch and on a
-- PebbleDB's.
use mathlib.Core.List.{foldl, foldl-append}
use brewery_bitcoin.Db.Base.{
  nil_key, column_family_not_found, DbError, Verb, batch_put_verb, batch_delete_verb,
}
use brewery_bitcoin.Db.Contract.{Spec}
use brewery_bitcoin.Db.Keys.{cf_prefix, prefixed_key}
use brewery_bitcoin.Db.Keys.Scope.{same-prefixed_key}
use brewery_bitcoin.Db.Engine.{Engine, as_found, IsReliableBatch}
use brewery_bitcoin.Db.Mock.{MockStore}
use brewery_bitcoin.Db.Mock.Refines as MockRefines
use brewery_bitcoin.Db.Mock.Batch as MockCalls
use brewery_bitcoin.Db.Mock.Batch.{MockOp, MockBatch}
use brewery_bitcoin.Db.Mock.Batch.Commit.{effect}
use brewery_bitcoin.Db.Pebble.{PebbleDb, wrap}
use brewery_bitcoin.Db.Pebble.Refines as PebbleRefines
use brewery_bitcoin.Db.Pebble.Batch as PebbleCalls
use brewery_bitcoin.Db.Pebble.Batch.{PebbleBatch}
use brewery_bitcoin.Prelude.{
  ◌+◌, ◌≡◌, refl, sym, ap, ◌∙◌, subst, inl, inr, Bool, true, false, ◌&&◌, Option, none, some, List,
  [], ◌∷◌, ◌++◌, arith, if◌then◌else◌, Bool-cases, is_some, length, length-append, All, Bytes, same,
  lookup, ok, err,
}

-- One call that fills a batch.
pub data Staging : Type 0 where
  stage_put : Bytes → Option Bytes → Bytes → Staging
  stage_delete : Bytes → Option Bytes → Staging

unfoldable pub mock_stage : MockStore → MockBatch → Staging → MockBatch × Option DbError
mock_stage m b (stage_put cf key v) = MockCalls.put m b cf key v
mock_stage m b (stage_delete cf key) = MockCalls.delete m b cf key

unfoldable pub mock_stages :
    MockStore → MockBatch → List Staging → MockBatch × List (Option DbError)
mock_stages m b [] = (b, [])
mock_stages m b (x ∷ xs) =
    let (b', r) = mock_stage m b x in let (b'', rs) = mock_stages m b' xs in (b'', r ∷ rs)

module _ {e : Engine} where
  unfoldable pub pebble_stage :
      PebbleDb e → PebbleBatch e → Staging → PebbleBatch e × Option DbError
  pebble_stage p b (stage_put cf key v) = PebbleCalls.put p b cf key v
  pebble_stage p b (stage_delete cf key) = PebbleCalls.delete p b cf key

  unfoldable pub pebble_stages :
      PebbleDb e → PebbleBatch e → List Staging → PebbleBatch e × List (Option DbError)
  pebble_stages p b [] = (b, [])
  pebble_stages p b (x ∷ xs) =
      let (b', r) = pebble_stage p b x in let (b'', rs) = pebble_stages p b' xs in (b'', r ∷ rs)

-- Two open batches of the same writes.
pub record Mirrors {e : Engine} (s : Spec) (mb : MockBatch) (pb : PebbleBatch e) : Type 0 where
  pub mock_open : mb.is_closed ≡ false
  pub pebble_open : pb.is_closed ≡ false
  pub counts : e.batch_count pb.batch ≡ length mb.ops
  pub covered : All (λ (op : MockOp). s.registered op.cf ≡ true) mb.ops
  pub effects :
      (d : e.Db) (sync : Bool) (cf k : Bytes) (old : Option Bytes)
      → s.registered cf ≡ true
      → e.get d (prefixed_key (cf_prefix cf) k) ≡ as_found old
      → e.get (e.batch_commit pb.batch d sync).0 (prefixed_key (cf_prefix cf) k)
        ≡ as_found (foldl (effect cf k) old mb.ops)

All-snoc :
    {A : Type 0} (P : A → Type 0) (xs : List A) (x : A) → All P xs → P x → All P (xs ++ x ∷ [])
All-snoc P [] x h p = (p, tt)
All-snoc P (y ∷ xs) x h p = (h.0, All-snoc P xs x h.1 p)

-- Equal replies, and again open batches of the same writes.
abbrev Agreeing :
    {e : Engine} → Spec → MockBatch × Option DbError → PebbleBatch e × Option DbError → Type 0
Agreeing s (mb, r) (pb, r') = (r' ≡ r) × Mirrors s mb pb

agreeing :
    {e : Engine} {s : Spec} {x x' : MockBatch × Option DbError}
    {y y' : PebbleBatch e × Option DbError}
    → x ≡ x'
    → y ≡ y'
    → Agreeing s x' y'
    → Agreeing s x y
agreeing {s = s} {x = x} {y' = y'} a b h =
    subst (λ z. Agreeing s x z) (sym b) (subst (λ z. Agreeing s z y') (sym a) h)

module _ {e : Engine} (rel : IsReliableBatch e) (m : MockStore) (p : PebbleDb e) (s : Spec)
    (hm : MockRefines.Represents m s) (hp : PebbleRefines.Represents p s)
    (open' : s.is_closed ≡ false) where
  -- A call of both, for an operation `op` of the mock batch and a call of the engine's batch that
  -- has its effect.
  module _ (cf : Bytes) (op : Bytes → MockOp) (verb : Verb) (v : Option Bytes)
      (call : e.Batch → Bytes → e.Batch × Option Bytes) (op_cf : (k : Bytes) → (op k).cf ≡ cf)
      (op_key : (k : Bytes) → (op k).key ≡ k)
      (op_written : (k : Bytes) → (if (op k).del then none else some (op k).value) ≡ v)
      (call_ok : (b : e.Batch) (k : Bytes) → (call b k).1 ≡ none)
      (call_count : (b : e.Batch) (k : Bytes) → e.batch_count (call b k).0 ≡ e.batch_count b + 1)
      (call_effect : (b : e.Batch) (k : Bytes) (d : e.Db) (sync : Bool) (j : Bytes)
        → e.get (e.batch_commit (call b k).0 d sync).0 j
          ≡ (if same k j then as_found v else e.get (e.batch_commit b d sync).0 j)) where
    added-Mirrors :
        (mb : MockBatch) (pb : PebbleBatch e) (k : Bytes)
        → s.registered cf ≡ true
        → Mirrors s mb pb
        → Mirrors s
            (record mb { ops = mb.ops ++ op k ∷ [] })
            (record pb { batch = (call pb.batch (prefixed_key (cf_prefix cf) k)).0 })
    added-Mirrors mb pb k known h = record {
      mock_open = h.mock_open;
      pebble_open = h.pebble_open;
      counts = ground (
        arith,
        call_count pb.batch (prefixed_key (cf_prefix cf) k),
        h.counts,
        length-append mb.ops (op k ∷ []),
      );
      covered =
          All-snoc (λ (o : MockOp). s.registered o.cf ≡ true) mb.ops (op k) h.covered
            (ap s.registered (op_cf k) ∙ known);
      effects = λ d sync cf' j old known' at.
          let stored_key = prefixed_key (cf_prefix cf') j in
          let before = foldl (effect cf' j) old mb.ops in
          let last : foldl (effect cf' j) old (mb.ops ++ op k ∷ []) ≡ effect cf' j before (op k) =
            foldl-append (effect cf' j) old mb.ops (op k ∷ []) in
          let written : effect cf' j before (op k)
              ≡ (if same cf cf' && same k j then v else before) =
            rw (op_cf, op_key, op_written) refl in
          call_effect pb.batch (prefixed_key (cf_prefix cf) k) d sync stored_key
          ∙ ground (
            arith,
            same-prefixed_key cf cf' k j (hp.names cf known) (hp.names cf' known'),
            h.effects d sync cf' j old known' at,
            last,
            written,
          );
    }

    stage_agrees :
        (mb : MockBatch) (pb : PebbleBatch e) (key : Option Bytes)
        → Mirrors s mb pb
        → Agreeing s
            (MockCalls.stage m mb cf key op)
            (PebbleCalls.stage pb verb (call pb.batch) (PebbleCalls.checked p pb cf key))
    unfolding MockCalls.stage PebbleCalls.checked
    stage_agrees mb pb none h =
        let checks : PebbleCalls.checked p pb cf none ≡ err nil_key =
          ground (arith, h.pebble_open) in
        agreeing (ground (arith, h.mock_open))
          (ap (PebbleCalls.stage pb verb (call pb.batch)) checks) (refl, h)
    stage_agrees mb pb (some k) h = elim (Bool-cases (s.registered cf)) [
      | inl known ↦
          let prefix : lookup cf p.prefixes ≡ some (cf_prefix cf) =
            ground (arith, hp.prefixes cf, known) in
          let bucket : is_some (lookup cf m.buckets) ≡ true = hm.families open' cf ∙ known in
          let checks : PebbleCalls.checked p pb cf (some k) ≡ ok (prefixed_key (cf_prefix cf) k) =
            ground (arith, h.pebble_open, prefix) in
          agreeing (ground (arith, h.mock_open, bucket))
            (ap (PebbleCalls.stage pb verb (call pb.batch)) checks)
            (
              ap (wrap verb) (call_ok pb.batch (prefixed_key (cf_prefix cf) k)),
              added-Mirrors mb pb k known h,
            )
      | inr unknown ↦
          let prefix : lookup cf p.prefixes ≡ none = ground (arith, hp.prefixes cf, unknown) in
          let bucket : is_some (lookup cf m.buckets) ≡ false = hm.families open' cf ∙ unknown in
          let checks : PebbleCalls.checked p pb cf (some k) ≡ err (column_family_not_found cf) =
            ground (arith, h.pebble_open, prefix) in
          agreeing (ground (arith, h.mock_open, bucket))
            (ap (PebbleCalls.stage pb verb (call pb.batch)) checks) (refl, h)
    ]

  stage-Agreeing :
      (x : Staging) (mb : MockBatch) (pb : PebbleBatch e)
      → Mirrors s mb pb
      → Agreeing s (mock_stage m mb x) (pebble_stage p pb x)
  unfolding mock_stage pebble_stage MockCalls.put MockCalls.delete PebbleCalls.put
      PebbleCalls.delete
  stage-Agreeing (stage_put cf key value) mb pb h =
      stage_agrees cf (λ k. record { del = false; cf = cf; key = k; value = value }) batch_put_verb
        (some value) (λ b k. e.batch_set b k value) (λ k. refl) (λ k. refl) (λ k. refl)
        (λ b k. rel.set_ok b k value) (λ b k. rel.count_set b k value)
        (λ b k d sync j. rel.commit_set b k value d sync j) mb pb key h
  stage-Agreeing (stage_delete cf key) mb pb h =
      stage_agrees cf (λ k. record { del = true; cf = cf; key = k; value = [] }) batch_delete_verb
        none (λ b k. e.batch_delete b k) (λ k. refl) (λ k. refl) (λ k. refl)
        (λ b k. rel.delete_ok b k) (λ b k. rel.count_delete b k)
        (λ b k d sync j. rel.commit_delete b k d sync j) mb pb key h

  pub stages_agree :
      (xs : List Staging) (mb : MockBatch) (pb : PebbleBatch e)
      → Mirrors s mb pb
      → ((pebble_stages p pb xs).1 ≡ (mock_stages m mb xs).1)
        × Mirrors s (mock_stages m mb xs).0 (pebble_stages p pb xs).0
  unfolding mock_stages pebble_stages
  stages_agree [] mb pb h = (refl, h)
  stages_agree (x ∷ xs) mb pb h =
      let (reply, h') = stage-Agreeing x mb pb h in
      let (replies, last) = stages_agree xs (mock_stage m mb x).0 (pebble_stage p pb x).0 h' in
      (cc (reply, replies), last)

  pub new-Mirrors : Mirrors s (MockCalls.new_batch m) (PebbleCalls.new_batch p)
  unfolding MockCalls.new_batch PebbleCalls.new_batch
  new-Mirrors = record {
    mock_open = refl;
    pebble_open = refl;
    counts = rel.count_new p.db;
    covered = tt;
    effects = λ d sync cf k old known at. rel.commit_new p.db d sync _ ∙ at;
  }
