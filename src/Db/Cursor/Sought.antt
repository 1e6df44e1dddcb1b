-- ===== src/Db/Cursor/Sought.antt =====
-- db/pebble.go: the position that Seek finds among the stored keys of a family, and among the caller's.
use brewery_bitcoin.Db.Keys.{prefixed_key}
use brewery_bitcoin.Db.Keys.Scope.{less-prefixed_key}
use brewery_bitcoin.Db.Cursor.Entries.{stripped, stripped_key, HasPrefix}
use brewery_bitcoin.Db.Cursor.View.{get_elem?-map}
use brewery_bitcoin.Db.Mock.Iterator.{MockEntry}
use brewery_bitcoin.Db.Mock.Iterator.Snapshot.{entry_keys}
use brewery_bitcoin.Db.Mock.Iterator.Seek.{IsFirstAt, All-get_elem?}
use brewery_bitcoin.Prelude.{
  ℕ, ◌<◌, ◌≡◌, sym, ap, ◌∙◌, inl, inr, Option, none, some, List, [], map, arith, ltb, ltb→lt,
  Bool-cases, Option-cases, length, get_elem?, get_elem?-lt, length-map, All, Bytes, less,
  map_option,
}

not_below :
    (target : Bytes) (es : List MockEntry) (n n' : ℕ)
    → IsFirstAt target es n
    → IsFirstAt target es n'
    → n < n'
    → ⊥
not_below target es n n' h h' lt =
    let (x, at) = get_elem?-lt es n (omega (arith, h'.in_range)) in
    cc (h'.before n x at lt, h.from n x at (omega arith))

-- There is one such position.
pub first_unique :
    (target : Bytes) (es : List MockEntry) (n n' : ℕ)
    → IsFirstAt target es n
    → IsFirstAt target es n'
    → n ≡ n'
first_unique target es n n' h h' = elim (Bool-cases (ltb n n')) [
  | inl lt ↦ absurd (not_below target es n n' h h' (ltb→lt n n' lt))
  | inr ge ↦ elim (Bool-cases (ltb n' n)) [
    | inl gt ↦ absurd (not_below target es n' n h' h (ltb→lt n' n gt))
    | inr le ↦ ground arith
  ]
]

module _ (prefix target : Bytes) (xs : List MockEntry)
    (scope : All (HasPrefix prefix) (entry_keys xs)) where
  -- an entry among the caller's, as it is stored
  stored_entry :
      (i : ℕ) (y : MockEntry)
      → get_elem? (map (stripped (length prefix)) xs) i ≡ some y
      → (x : MockEntry) × (get_elem? xs i ≡ some x)
        × (less x.key (prefixed_key prefix target) ≡ less y.key target)
  stored_entry i y at = elim (Option-cases (get_elem? xs i)) [
    | inl out ↦ absurd (cc (at, out, get_elem?-map (stripped (length prefix)) xs i))
    | inr (x, there) ↦
        let (rest, e) = All-get_elem? (HasPrefix prefix) xs i x scope there in
        let same_entry : some (stripped (length prefix) x) ≡ some y =
          ap (map_option (stripped (length prefix))) (sym there)
          ∙ sym (get_elem?-map (stripped (length prefix)) xs i)
          ∙ at in
        (
          x,
          there,
          ap (λ k. less k (prefixed_key prefix target)) e
              ∙ less-prefixed_key prefix rest target
              ∙ ap (λ k. less k target)
                  (sym (stripped_key prefix x.key rest e) ∙ ap key_of same_entry),
        )
  ]
    where
      key_of : Option MockEntry → Bytes
      key_of none = []
      key_of (some z) = z.key

  pub stripped-IsFirstAt :
      (n : ℕ)
      → IsFirstAt (prefixed_key prefix target) xs n
      → IsFirstAt target (map (stripped (length prefix)) xs) n
  stripped-IsFirstAt n h = record {
    in_range = omega (arith, h.in_range, length-map xs (stripped (length prefix)));
    before = λ i y at lt.
        let (x, there, order) = stored_entry i y at in sym order ∙ h.before i x there lt;
    from =
        λ i y at le. let (x, there, order) = stored_entry i y at in sym order ∙ h.from i x there le;
  }
