-- ===== src/Db/Mock/Refines.antt =====
-- db/mock.go: MockStore against the contract of Store.
use brewery_bitcoin.Db.Base.{DbError}
use brewery_bitcoin.Db.Contract
use brewery_bitcoin.Db.Contract.{Request, Reply, Spec, Simulation, value, flag, status}
use brewery_bitcoin.Db.Mock
use brewery_bitcoin.Db.Mock.{MockStore, register, checked, or_key_not_found, update}
use brewery_bitcoin.Prelude.{
  ◌≡◌, refl, sym, ap, inl, inr, false, Option, none, some, arith, if◌then◌else◌, Bool-cases,
  Option-cases, is_some, Bytes, same, same_iff, Dict, lookup, lookup-insert, lookup-remove, Result,
  ok, err, ◌>>=◌,
}

unfoldable pub run : MockStore → Request → MockStore × Reply
run m (Request.get cf key) = (m, value (Mock.get m cf key))
run m (Request.put cf key v) = let (m', e) = Mock.put m cf key v in (m', status e)
run m (Request.delete cf key) = let (m', e) = Mock.delete m cf key in (m', status e)
run m (Request.has cf key) = (m, flag (Mock.has m cf key))
run m Request.flush = (m, status (Mock.flush m))
run m Request.close = let (m', e) = Mock.close m in (m', status e)

-- An open store has the families of the contract's state, and their values.
pub record Represents (m : MockStore) (s : Spec) : Type 0 where
  pub same_closed : m.is_closed ≡ s.is_closed
  pub families :
      s.is_closed ≡ false → (cf : Bytes) → is_some (lookup cf m.buckets) ≡ s.registered cf
  pub values :
      s.is_closed ≡ false
      → (cf : Bytes) (bucket : Dict Bytes) (k : Bytes) → lookup cf m.buckets ≡ some bucket
      → lookup k bucket ≡ s.stored cf k

-- The checks of a method pass exactly when the contract admits the request, and then they find
-- the family's bucket.
abbrev Agree :
    MockStore → Spec → Bytes → Result DbError (Bytes × Dict Bytes) → Result DbError Bytes → Type 0
Agree m s cf (ok (k, bucket)) (ok k') =
    (k ≡ k') × (s.is_closed ≡ false) × (lookup cf m.buckets ≡ some bucket)
Agree m s cf (err e) (err e') = e ≡ e'
Agree m s cf (ok _) (err _) = ⊥
Agree m s cf (err _) (ok _) = ⊥

checked-Agree :
    (m : MockStore) (s : Spec) (cf : Bytes) (key : Option Bytes)
    → Represents m s
    → Agree m s cf (checked m cf key) (Contract.admitted s cf key)
unfolding checked
checked-Agree m s cf none h = elim (Bool-cases s.is_closed) [
  | inl shut ↦ rw (h.same_closed, shut) refl
  | inr open' ↦ rw (h.same_closed, open') refl
]
checked-Agree m s cf (some k) h = elim (Bool-cases s.is_closed) [
  | inl shut ↦ rw (h.same_closed, shut) refl
  | inr open' ↦ elim (Option-cases (lookup cf m.buckets)) [
    | inl absent ↦ rw (h.same_closed, open', absent, sym (h.families open' cf), absent) refl
    | inr (bucket, there) ↦
        rw (h.same_closed, open', there, sym (h.families open' cf), there) (refl, refl, there)
  ]
]

module _ (m : MockStore) (s : Spec) (cf : Bytes) (h : Represents m s) where
  read-replies :
      {A : Type 0} (f g : Option Bytes → Result DbError A)
      → ((o : Option Bytes) → f o ≡ g o)
      → (c : Result DbError (Bytes × Dict Bytes)) (a : Result DbError Bytes) → Agree m s cf c a
      → (c >>= λ p. f (lookup p.0 p.1)) ≡ (a >>= λ k. g (s.stored cf k))
  read-replies f g e (ok (k, bucket)) (ok k') (same_key, open', there) =
      rw (same_key, h.values open' cf bucket k' there) (e _)
  read-replies f g e (err _) (err _) x = ap err x
  read-replies f g e (ok _) (err _) x = elim x [ ]
  read-replies f g e (err _) (ok _) x = elim x [ ]

  module _ (op : Bytes → Dict Bytes → Dict Bytes) (v : Option Bytes) where
    update-replies :
        (c : Result DbError (Bytes × Dict Bytes)) (a : Result DbError Bytes)
        → Agree m s cf c a
        → status (update m cf op c).1 ≡ (Contract.write s cf v a).1
    update-replies (ok (k, bucket)) (ok k') x = refl
    update-replies (err e) (err e') x = ap (λ (d : DbError). status (some d)) x
    update-replies (ok _) (err _) x = elim x [ ]
    update-replies (err _) (ok _) x = elim x [ ]

    update-Represents :
        ((k j : Bytes) (b : Dict Bytes) → lookup j (op k b) ≡ (if same k j then v else lookup j b))
        → (c : Result DbError (Bytes × Dict Bytes)) (a : Result DbError Bytes) → Agree m s cf c a
        → Represents (update m cf op c).0 (Contract.write s cf v a).0
    update-Represents law (ok (k, bucket)) (ok k') (same_key, open', there) = record {
      same_closed = h.same_closed;
      families = λ o cf'. ground (
        arith,
        lookup-insert cf cf' (op k bucket) m.buckets,
        same_iff cf cf',
        there,
        h.families open' cf',
        h.families open' cf,
      );
      values = λ o cf' b j at. ground (
        arith,
        lookup-insert cf cf' (op k bucket) m.buckets,
        same_iff cf cf',
        same_key,
        there,
        at,
        law k j bucket,
        h.values open' cf bucket j,
        h.values open' cf' b j,
      );
    }
    update-Represents law (err e) (err e') x = h
    update-Represents law (ok _) (err _) x = elim x [ ]
    update-Represents law (err _) (ok _) x = elim x [ ]

or_key_not_found-eq-found : (o : Option Bytes) → or_key_not_found o ≡ Contract.found o
or_key_not_found-eq-found none = refl
or_key_not_found-eq-found (some v) = refl

pub run-replies :
    (m : MockStore) (s : Spec) (r : Request) → Represents m s → (run m r).1 ≡ (Contract.step s r).1
unfolding run Mock.get Mock.put Mock.delete Mock.has Mock.flush Mock.close Contract.step
run-replies m s (Request.get cf key) h =
    ap value (read-replies m s cf h _ _ or_key_not_found-eq-found _ _ (checked-Agree m s cf key h))
run-replies m s (Request.put cf key v) h =
    update-replies m s cf h _ _ _ _ (checked-Agree m s cf key h)
run-replies m s (Request.delete cf key) h =
    update-replies m s cf h _ _ _ _ (checked-Agree m s cf key h)
run-replies m s (Request.has cf key) h =
    ap flag
      (read-replies m s cf h (λ o. ok (is_some o)) _ (λ o. refl) _ _ (checked-Agree m s cf key h))
run-replies m s Request.flush h = rw h.same_closed
run-replies m s Request.close h = elim (Bool-cases s.is_closed) [
  | inl shut ↦ rw (h.same_closed, shut)
  | inr open' ↦ rw (h.same_closed, open')
]

pub run-Represents :
    (m : MockStore) (s : Spec) (r : Request)
    → Represents m s
    → Represents (run m r).0 (Contract.step s r).0
unfolding run Mock.get Mock.put Mock.delete Mock.has Mock.flush Mock.close Contract.step
run-Represents m s (Request.get cf key) h = h
run-Represents m s (Request.put cf key v) h =
    update-Represents m s cf h _ _ (λ k j b. lookup-insert k j v b) _ _ (checked-Agree m s cf key h)
run-Represents m s (Request.delete cf key) h =
    update-Represents m s cf h _ _ lookup-remove _ _ (checked-Agree m s cf key h)
run-Represents m s (Request.has cf key) h = h
run-Represents m s Request.flush h = h
run-Represents m s Request.close h = elim (Bool-cases s.is_closed) [
  | inl shut ↦ simp (h.same_closed, shut) h
  | inr open' ↦
      rw (h.same_closed, open')
        (record { same_closed = refl; families = λ o cf. cc; values = λ o cf b k x. cc })
]

abbrev pub simulation : Simulation MockStore
simulation = record {
  run = run;
  Represents = Represents;
  replies = run-replies;
  keeps = run-Represents;
}
