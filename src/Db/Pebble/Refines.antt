-- ===== src/Db/Pebble/Refines.antt =====
-- db/pebble.go: PebbleDB against the contract of Store.
use brewery_bitcoin.Db.Base.{Verb, DbError, put_verb, delete_verb}
use brewery_bitcoin.Db.Contract
use brewery_bitcoin.Db.Contract.{Request, Reply, Spec, Simulation, value, flag, status}
use brewery_bitcoin.Db.Keys.{cf_prefix, prefixed_key}
use brewery_bitcoin.Db.Keys.Scope.{HasNoNul, same-prefixed_key}
use brewery_bitcoin.Db.Engine.{Engine, Found, IsReliable, as_found}
use brewery_bitcoin.Db.Pebble
use brewery_bitcoin.Db.Pebble.{PebbleDb, checked, get_outcome, has_outcome, write, wrap}
use brewery_bitcoin.Prelude.{
  sym, ◌∙◌, refl, ◌≡◌, ap, inl, inr, true, false, Option, none, some, arith, if◌then◌else◌,
  Bool-cases, is_some, Bytes, same, lookup, Result, ok, err, ◌>>=◌,
}

module _ {e : Engine} where
  unfoldable pub run : PebbleDb e → Request → PebbleDb e × Reply
  run p (Request.get cf key) = (p, value (Pebble.get p cf key))
  run p (Request.put cf key v) = let (p', x) = Pebble.put p cf key v in (p', status x)
  run p (Request.delete cf key) = let (p', x) = Pebble.delete p cf key in (p', status x)
  run p (Request.has cf key) = (p, flag (Pebble.has p cf key))
  run p Request.flush = let (p', x) = Pebble.flush p in (p', status x)
  run p Request.close = let (p', x) = Pebble.close p in (p', status x)

-- An open database has the prefixes of the registered families, whose names hold no NUL byte, and
-- the engine holds their values at the storage keys.
pub record Represents {e : Engine} (p : PebbleDb e) (s : Spec) : Type 0 where
  pub same_closed : p.is_closed ≡ s.is_closed
  pub prefixes :
      (cf : Bytes) → lookup cf p.prefixes ≡ (if s.registered cf then some (cf_prefix cf) else none)
  pub names : (cf : Bytes) → s.registered cf ≡ true → HasNoNul cf
  pub values :
      s.is_closed ≡ false
      → (cf k : Bytes) → s.registered cf ≡ true
      → e.get p.db (prefixed_key (cf_prefix cf) k) ≡ as_found (s.stored cf k)

abbrev Agree : Spec → Bytes → Result DbError Bytes → Result DbError Bytes → Type 0
Agree s cf (ok k) (ok k') =
    (k ≡ prefixed_key (cf_prefix cf) k') × (s.is_closed ≡ false) × (s.registered cf ≡ true)
Agree s cf (err e) (err e') = e ≡ e'
Agree s cf (ok _) (err _) = ⊥
Agree s cf (err _) (ok _) = ⊥

module _ {e : Engine} where
  checked-Agree :
      (p : PebbleDb e) (s : Spec) (cf : Bytes) (key : Option Bytes)
      → Represents p s
      → Agree s cf (checked p cf key) (Contract.admitted s cf key)
  unfolding checked
  checked-Agree p s cf none h = elim (Bool-cases s.is_closed) [
    | inl shut ↦ rw (h.same_closed, shut) refl
    | inr open' ↦ rw (h.same_closed, open') refl
  ]
  checked-Agree p s cf (some k) h = elim (Bool-cases s.is_closed) [
    | inl shut ↦ rw (h.same_closed, shut) refl
    | inr open' ↦ elim (Bool-cases (s.registered cf)) [
      | inl known ↦
          rw (h.same_closed, open', Pebble.registered_prefix, h.prefixes cf, known)
            (refl, refl, known)
      | inr unknown ↦
          rw (h.same_closed, open', Pebble.registered_prefix, h.prefixes cf, unknown) refl
    ]
  ]

module _ {e : Engine} (p : PebbleDb e) (s : Spec) (cf : Bytes) (h : Represents p s) where
  read-replies :
      {A : Type 0} (f : Found → Result DbError A) (g : Option Bytes → Result DbError A)
      → ((o : Option Bytes) → f (as_found o) ≡ g o)
      → (c a : Result DbError Bytes) → Agree s cf c a
      → (c >>= λ k. f (e.get p.db k)) ≡ (a >>= λ k. g (s.stored cf k))
  read-replies f g same_reply (ok k) (ok k') (key, open', known) =
      rw (key, h.values open' cf k' known) (same_reply (s.stored cf k'))
  read-replies f g same_reply (err _) (err _) x = ap err x
  read-replies f g same_reply (ok _) (err _) x = elim x [ ]
  read-replies f g same_reply (err _) (ok _) x = elim x [ ]

  -- a write of the value `v`, or a deletion if it is `none`, by the engine's call
  module _ (verb : Verb) (v : Option Bytes) (call : Bytes → e.Db × Option Bytes)
      (call_ok : (k : Bytes) → (call k).1 ≡ none)
      (call_get : (k j : Bytes)
        → e.get (call k).0 j ≡ (if same k j then as_found v else e.get p.db j)) where
    write-replies :
        (c a : Result DbError Bytes)
        → Agree s cf c a
        → status (write p verb call c).1 ≡ (Contract.write s cf v a).1
    write-replies (ok k) (ok k') x = rw call_ok
    write-replies (err d) (err d') x = ap (λ (y : DbError). status (some y)) x
    write-replies (ok _) (err _) x = elim x [ ]
    write-replies (err _) (ok _) x = elim x [ ]

    write-Represents :
        (c a : Result DbError Bytes)
        → Agree s cf c a
        → Represents (write p verb call c).0 (Contract.write s cf v a).0
    write-Represents (ok k) (ok k') (key, open', known) = record {
      same_closed = h.same_closed;
      prefixes = h.prefixes;
      names = h.names;
      values = λ o cf' j known'. ground (
        arith,
        key,
        call_get k (prefixed_key (cf_prefix cf') j),
        same-prefixed_key cf cf' k' j (h.names cf known) (h.names cf' known'),
        h.values o cf' j known',
      );
    }
    write-Represents (err _) (err _) x = h
    write-Represents (ok _) (err _) x = elim x [ ]
    write-Represents (err _) (ok _) x = elim x [ ]

module _ {e : Engine} (reliable : IsReliable e) where
  pub run-replies :
      (p : PebbleDb e) (s : Spec) (r : Request)
      → Represents p s
      → (run p r).1 ≡ (Contract.step s r).1
  unfolding run Pebble.get Pebble.put Pebble.delete Pebble.has Pebble.flush Pebble.close
      Contract.step
  run-replies p s (Request.get cf key) h = ap value (
      read-replies p s cf h get_outcome Contract.found (elim [ none ↦ refl | some v ↦ refl ]) _ _
        (checked-Agree p s cf key h))
  run-replies p s (Request.put cf key v) h =
      write-replies p s cf h put_verb (some v) (λ k. e.set p.db k v p.write_opts)
        (λ k. reliable.set_ok p.db k v p.write_opts)
        (λ k j. reliable.get_set p.db k v j p.write_opts) _ _ (checked-Agree p s cf key h)
  run-replies p s (Request.delete cf key) h =
      write-replies p s cf h delete_verb none (λ k. e.delete p.db k p.write_opts)
        (λ k. reliable.delete_ok p.db k p.write_opts)
        (λ k j. reliable.get_delete p.db k j p.write_opts) _ _ (checked-Agree p s cf key h)
  run-replies p s (Request.has cf key) h = ap flag (
      read-replies p s cf h has_outcome (λ o. ok (is_some o)) (elim [ none ↦ refl | some v ↦ refl ])
        _ _ (checked-Agree p s cf key h))
  run-replies p s Request.flush h = elim (Bool-cases s.is_closed) [
    | inl shut ↦ simp (h.same_closed, shut)
    | inr open' ↦ simp (h.same_closed, open', reliable.flush_ok)
  ]
  run-replies p s Request.close h = elim (Bool-cases s.is_closed) [
    | inl shut ↦ simp (h.same_closed, shut)
    | inr open' ↦ simp (h.same_closed, open', reliable.close_ok)
  ]

  pub run-Represents :
      (p : PebbleDb e) (s : Spec) (r : Request)
      → Represents p s
      → Represents (run p r).0 (Contract.step s r).0
  unfolding run Pebble.get Pebble.put Pebble.delete Pebble.has Pebble.flush Pebble.close
      Contract.step
  run-Represents p s (Request.get cf key) h = h
  run-Represents p s (Request.put cf key v) h =
      write-Represents p s cf h put_verb (some v) (λ k. e.set p.db k v p.write_opts)
        (λ k. reliable.set_ok p.db k v p.write_opts)
        (λ k j. reliable.get_set p.db k v j p.write_opts) _ _ (checked-Agree p s cf key h)
  run-Represents p s (Request.delete cf key) h =
      write-Represents p s cf h delete_verb none (λ k. e.delete p.db k p.write_opts)
        (λ k. reliable.delete_ok p.db k p.write_opts)
        (λ k j. reliable.get_delete p.db k j p.write_opts) _ _ (checked-Agree p s cf key h)
  run-Represents p s (Request.has cf key) h = h
  run-Represents p s Request.flush h = elim (Bool-cases s.is_closed) [
    | inl shut ↦ simp (h.same_closed, shut) h
    | inr open' ↦
        simp (h.same_closed, open')
          (record {
            same_closed = sym open';
            prefixes = h.prefixes;
            names = h.names;
            values = λ o cf k known.
                reliable.flush_keeps p.db (prefixed_key (cf_prefix cf) k) ∙ h.values o cf k known;
          })
  ]
  run-Represents p s Request.close h = elim (Bool-cases s.is_closed) [
    | inl shut ↦ simp (h.same_closed, shut) h
    | inr open' ↦
        simp (h.same_closed, open')
          (record {
            same_closed = refl;
            prefixes = h.prefixes;
            names = h.names;
            values = λ o cf k known. cc;
          })
  ]

  abbrev pub simulation : Simulation (PebbleDb e)
  simulation = record {
    run = run;
    Represents = Represents;
    replies = run-replies;
    keeps = run-Represents;
  }
