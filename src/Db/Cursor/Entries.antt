-- ===== src/Db/Cursor/Entries.antt =====
-- db/pebble.go: the entries of an iterator of the engine over one family, without their prefix.
use brewery_bitcoin.Stdlib.Sort.{IsAscending}
use brewery_bitcoin.Db.Keys.{cf_prefix, cf_upper_bound, prefixed_key, strip}
use brewery_bitcoin.Db.Keys.Scope.{scope_exact, less-prefixed_key, strip-prefixed_key}
use brewery_bitcoin.Db.Engine.{Engine, as_found}
use brewery_bitcoin.Db.Cursor.{IsReliableIterator, option_of, ascending_unique}
use brewery_bitcoin.Db.Mock.Iterator.{MockEntry, bytes_of, snapshot}
use brewery_bitcoin.Db.Mock.Iterator.Snapshot.{
  entry_keys, find, find-snapshot, snapshot-IsAscending,
}
use brewery_bitcoin.Prelude.{
  ℕ, ◌≡◌, refl, sym, ap, ◌∙◌, subst, true, false, Option, none, some, List, [], ◌∷◌, map, arith,
  length, All, IsDistinct, Bytes, same, less, Dict, lookup, keys, ok,
}

abbrev pub HasPrefix : Bytes → Bytes → Type 0
HasPrefix prefix k = (rest : Bytes) × (k ≡ prefixed_key prefix rest)

-- the entry as the caller sees it
abbrev pub stripped : ℕ → MockEntry → MockEntry
stripped n x = record { key = bytes_of (strip n x.key); value = x.value }

same-prefix : (prefix a b : Bytes) → same (prefixed_key prefix a) (prefixed_key prefix b) ≡ same a b
unfolding prefixed_key same
same-prefix [] a b = refl
same-prefix (x ∷ prefix) a b = ground (arith, same-prefix prefix a b)

pub stripped_key :
    (prefix k rest : Bytes)
    → k ≡ prefixed_key prefix rest
    → bytes_of (strip (length prefix) k) ≡ rest
stripped_key prefix k rest e =
    ap (λ x. bytes_of (strip (length prefix) x)) e ∙ ap bytes_of (strip-prefixed_key prefix rest)

find-stripped :
    (prefix k : Bytes) (xs : List MockEntry)
    → All (HasPrefix prefix) (entry_keys xs)
    → find k (map (stripped (length prefix)) xs) ≡ find (prefixed_key prefix k) xs
find-stripped prefix k [] h = refl
find-stripped prefix k (x ∷ xs) ((rest, e), h) = ground (
  arith,
  stripped_key prefix x.key rest e,
  e,
  same-prefix prefix rest k,
  find-stripped prefix k xs h,
)

All-less-stripped :
    (prefix a rest : Bytes) (xs : List MockEntry)
    → a ≡ prefixed_key prefix rest
    → All (HasPrefix prefix) (entry_keys xs)
    → All (λ j. less a j ≡ true) (entry_keys xs)
    → All (λ j. less rest j ≡ true) (entry_keys (map (stripped (length prefix)) xs))
All-less-stripped prefix a rest [] e h lt = tt
All-less-stripped prefix a rest (x ∷ xs) e ((rest', e'), h) lt = (
  ap (less rest) (stripped_key prefix x.key rest' e')
      ∙ sym (less-prefixed_key prefix rest rest')
      ∙ ground (arith, e, e', lt),
  All-less-stripped prefix a rest xs e h lt.1,
)

pub ascends-stripped :
    (prefix : Bytes) (xs : List MockEntry)
    → All (HasPrefix prefix) (entry_keys xs)
    → IsAscending (entry_keys xs)
    → IsAscending (entry_keys (map (stripped (length prefix)) xs))
ascends-stripped prefix [] h asc = tt
ascends-stripped prefix (x ∷ xs) ((rest, e), h) asc = (
  subst (λ r. All (λ j. less r j ≡ true) (entry_keys (map (stripped (length prefix)) xs)))
      (sym (stripped_key prefix x.key rest e)) (All-less-stripped prefix x.key rest xs e h asc.0),
  ascends-stripped prefix xs h asc.1,
)

pub All-scope :
    (cf : Bytes) (ks : List Bytes)
    → All (λ k. (less k (cf_prefix cf) ≡ false) × (less k (cf_upper_bound cf) ≡ true)) ks
    → All (HasPrefix (cf_prefix cf)) ks
All-scope cf [] h = tt
All-scope cf (k ∷ ks) h = ((scope_exact cf k).0 h.0, All-scope cf ks h.1)

-- The entries of an engine's iterator over a family, stripped, are the snapshot of a bucket that
-- reads like the family.
pub entries_agree :
    {e : Engine} (rel : IsReliableIterator e) (d : e.Db) (cf : Bytes) (bucket : Dict Bytes)
    (it : e.Iter)
    → e.new_iter d (cf_prefix cf) (cf_upper_bound cf) ≡ ok it
    → IsDistinct (keys bucket)
    → ((k : Bytes) → e.get d (prefixed_key (cf_prefix cf) k) ≡ as_found (lookup k bucket))
    → map (stripped (length (cf_prefix cf))) (rel.entries it) ≡ snapshot bucket
entries_agree rel d cf bucket it made distinct reads =
    let scope = All-scope cf (entry_keys (rel.entries it)) (rel.new_bounds d _ _ it made) in
    ascending_unique (map (stripped (length (cf_prefix cf))) (rel.entries it)) (snapshot bucket)
      (ascends-stripped (cf_prefix cf) (rel.entries it) scope (rel.new_ascends d _ _ it made))
      (snapshot-IsAscending bucket distinct)
      (λ k.
        let (low, high) = (scope_exact cf (prefixed_key (cf_prefix cf) k)).1 (k, refl) in
        find-stripped (cf_prefix cf) k (rel.entries it) scope
        ∙ rel.new_find d _ _ it (prefixed_key (cf_prefix cf) k) made low high
        ∙ ap option_of (reads k)
        ∙ option_of-as_found (lookup k bucket)
        ∙ sym (find-snapshot bucket k))
  where
    option_of-as_found : (o : Option Bytes) → option_of (as_found o) ≡ o
    option_of-as_found none = refl
    option_of-as_found (some v) = refl
