-- ===== src/Db/BatchAgreement.antt =====
-- db/mock.go and db/pebble.go: the commits of the batches of MockStore and PebbleDB against each
-- other.
use mathlib.Core.List.{foldl}
use brewery_bitcoin.Db.Contract.{Request, Spec, serve, serve-eq-spec}
use brewery_bitcoin.Db.Engine.{Engine, IsReliable, IsReliableBatch}
use brewery_bitcoin.Db.Mock.{MockStore}
use brewery_bitcoin.Db.Mock.Refines as MockRefines
use brewery_bitcoin.Db.Mock.Batch as MockCalls
use brewery_bitcoin.Db.Mock.Batch.{MockOp, MockBatch}
use brewery_bitcoin.Db.Mock.Batch.Commit.{effect, stored, Covers, commit_lem}
use brewery_bitcoin.Db.Pebble.{PebbleDb}
use brewery_bitcoin.Db.Pebble.Refines as PebbleRefines
use brewery_bitcoin.Db.Pebble.Batch as PebbleCalls
use brewery_bitcoin.Db.Pebble.Batch.{PebbleBatch}
use brewery_bitcoin.Prelude.{
  ◌≡◌, sym, ap, ◌∙◌, subst, inl, inr, true, false, ◌||◌, none, some, List, [], ◌∷◌, arith,
  Option-cases, is_some, All, Bytes, lookup,
}
use brewery_bitcoin.Db.Staging.{
  Staging, mock_stages, pebble_stages, Mirrors, stages_agree, new-Mirrors,
}

-- Commits of two such batches, into stores that represent the same open state.
module _ {e : Engine} (rel : IsReliableBatch e) (m : MockStore) (p : PebbleDb e) (s s0 : Spec)
    (hm : MockRefines.Represents m s) (hp : PebbleRefines.Represents p s)
    (open' : s.is_closed ≡ false)
    (same_families : (cf : Bytes) → s.registered cf ≡ s0.registered cf) (mb : MockBatch)
    (pb : PebbleBatch e) (h : Mirrors s0 mb pb) where
  -- the state after the commit
  after : Spec
  after = record s { stored = λ cf k. foldl (effect cf k) (s.stored cf k) mb.ops }

  covers :
      (ops : List MockOp)
      → All (λ (op : MockOp). s0.registered op.cf ≡ true) ops
      → Covers m.buckets ops
  covers [] c = tt
  covers (op ∷ ops) c = (hm.families open' op.cf ∙ same_families op.cf ∙ c.0, covers ops c.1)

  old_value :
      (cf k : Bytes) → is_some (lookup cf m.buckets) ≡ true → stored m.buckets cf k ≡ s.stored cf k
  old_value cf k there = elim (Option-cases (lookup cf m.buckets)) [
    | inl absent ↦ absurd (ground (arith, there, absent))
    | inr (bucket, at) ↦ ground (arith, at, hm.values open' cf bucket k at)
  ]

  mock_commit :
      (m' : MockStore) × (MockCalls.commit m mb ≡ some (m', none)) × MockRefines.Represents m' after
  unfolding after
  mock_commit =
      let shut : mb.is_closed || m.is_closed ≡ false =
        ground (arith, h.mock_open, hm.same_closed, open') in
      let (m', x, done, result, still_open, families, values) =
        commit_lem m mb (record { covered = λ alive. covers mb.ops h.covered }) in
      let no_error : x ≡ none = ground (arith, result, shut) in
      (
        m',
        ground (arith, done, no_error),
        record {
          same_closed = still_open ∙ hm.same_closed;
          families = λ o cf. families cf ∙ hm.families o cf;
          values = λ o cf bucket k at.
              let there : is_some (lookup cf m.buckets) ≡ true =
                ground (arith, sym (families cf), at) in
              ground (arith, at, values cf k, shut, old_value cf k there);
        },
      )

  pebble_commit :
      ((PebbleCalls.commit p pb).1 ≡ none)
      × PebbleRefines.Represents (PebbleCalls.commit p pb).0 after
  unfolding PebbleCalls.commit after
  pebble_commit =
      let alive : p.is_closed ≡ false = hp.same_closed ∙ open' in
      let done : PebbleCalls.commit p pb
          ≡ (record p { db = (e.batch_commit pb.batch p.db p.write_opts).0 }, none) =
        ground (arith, h.pebble_open, alive, rel.commit_ok pb.batch p.db p.write_opts) in
      (
        ap (λ r. r.1) done,
        subst (λ r. PebbleRefines.Represents r.0 after) (sym done)
            (record {
              same_closed = hp.same_closed;
              prefixes = hp.prefixes;
              names = hp.names;
              values = λ o cf k known.
                  h.effects p.db p.write_opts cf k (s.stored cf k) (sym (same_families cf) ∙ known)
                    (hp.values o cf k known);
            }),
      )

-- Let a MockStore and a PebbleDB over a reliable engine represent one open state, and let each make
-- a batch, filled by the same calls. Then the calls give equal replies and the batches equal counts.
-- Let the stores, at some later time, again represent one open state with the same families. Then
-- both commits there succeed, and afterwards the stores give equal replies to all requests.
pub batch_agrees_with_mock :
    {e : Engine} (m m' : MockStore) (p p' : PebbleDb e) (s s' : Spec) (xs : List Staging)
    (rs : List Request)
    → IsReliable e
    → IsReliableBatch e
    → MockRefines.Represents m s
    → PebbleRefines.Represents p s
    → s.is_closed ≡ false
    → MockRefines.Represents m' s'
    → PebbleRefines.Represents p' s'
    → s'.is_closed ≡ false
    → ((cf : Bytes) → s'.registered cf ≡ s.registered cf)
    → let (mb, replies) = mock_stages m (MockCalls.new_batch m) xs in
      let (pb, replies') = pebble_stages p (PebbleCalls.new_batch p) xs in
      (replies' ≡ replies)
      × (PebbleCalls.count pb ≡ MockCalls.count mb)
      × ((PebbleCalls.commit p' pb).1 ≡ none)
      × (m'' : MockStore) × (MockCalls.commit m' mb ≡ some (m'', none))
      × (serve PebbleRefines.run (PebbleCalls.commit p' pb).0 rs ≡ serve MockRefines.run m'' rs)
unfolding PebbleCalls.count MockCalls.count
batch_agrees_with_mock m m' p p' s s' xs rs reliable rel hm hp open1 hm' hp' open2 families =
    let (same_replies, h) =
      stages_agree rel m p s hm hp open1 xs (MockCalls.new_batch m) (PebbleCalls.new_batch p)
        (new-Mirrors rel m p s hm hp open1) in
    let mb = (mock_stages m (MockCalls.new_batch m) xs).0 in
    let pb = (pebble_stages p (PebbleCalls.new_batch p) xs).0 in
    let (m'', committed, hm'') = mock_commit rel m' p' s' s hm' hp' open2 families mb pb h in
    let (no_error, hp'') = pebble_commit rel m' p' s' s hm' hp' open2 families mb pb h in
    let later = after rel m' p' s' s hm' hp' open2 families mb pb h in
    (
      same_replies,
      h.counts,
      no_error,
      m'',
      committed,
      serve-eq-spec (PebbleRefines.simulation reliable) rs (PebbleCalls.commit p' pb).0 later hp''
          ∙ sym (serve-eq-spec MockRefines.simulation rs m'' later hm''),
    )
