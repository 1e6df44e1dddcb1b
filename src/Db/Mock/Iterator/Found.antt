-- ===== src/Db/Mock/Iterator/Found.antt =====
-- db/mock.go: Seek to a key against what a reader of the entries finds at it.
use brewery_bitcoin.Stdlib.Sort.{IsAscending}
use brewery_bitcoin.Db.Mock.Iterator.{MockEntry, MockIterator, entry_at, seek}
use brewery_bitcoin.Db.Mock.Iterator.Snapshot.{entry_keys, find}
use brewery_bitcoin.Db.Mock.Iterator.Seek.{All-get_elem?, IsFirstAt, seek-IsFirstAt}
use brewery_bitcoin.Prelude.{
  ℕ, zero, suc, ◌<◌, ◌≡◌, refl, sym, ap, ◌∙◌, subst, ◌↔◌, inl, inr, true, some, List, [], ◌∷◌,
  arith, ltb, ltb→lt, Bool-cases, length, get_elem?, get_elem?-lt, get_elem?-ge, pos, Bytes, same,
  same_iff, same_self, less, less_irrefl,
}

ascending_at :
    (entries : List MockEntry) (i j : ℕ) (x y : MockEntry)
    → IsAscending (entry_keys entries)
    → i < j
    → get_elem? entries i ≡ some x
    → get_elem? entries j ≡ some y
    → less x.key y.key ≡ true
ascending_at [] i j x y asc lt at_i at_j = absurd (cc at_i)
ascending_at (z ∷ entries) zero zero x y asc lt at_i at_j = elim lt [ ]
ascending_at (z ∷ entries) zero (suc j) x y asc lt at_i at_j =
    let e : z ≡ x = cc at_i in
    subst (λ (w : MockEntry). less w.key y.key ≡ true) e
      (All-get_elem? (λ k. less z.key k ≡ true) entries j y asc.0 at_j)
ascending_at (z ∷ entries) (suc i) zero x y asc lt at_i at_j = elim lt [ ]
ascending_at (z ∷ entries) (suc i) (suc j) x y asc lt at_i at_j =
    ascending_at entries i j x y asc.1 (omega arith) at_i at_j

-- where a value that is found stands
find-inv :
    (k v : Bytes) (entries : List MockEntry)
    → find k entries ≡ some v
    → (i : ℕ) × (x : MockEntry) × (get_elem? entries i ≡ some x) × (x.key ≡ k) × (x.value ≡ v)
find-inv k v [] h = absurd (cc h)
find-inv k v (x ∷ entries) h = elim (Bool-cases (same x.key k)) [
  | inl here ↦ (0, x, refl, (same_iff x.key k).0 here, ground (arith, h, here))
  | inr apart ↦
      let (i, y, at, named, valued) = find-inv k v entries (ground (arith, h, apart)) in
      (suc i, y, at, named, valued)
]

-- an entry that stands somewhere is found
find-at :
    (entries : List MockEntry) (n : ℕ) (x : MockEntry)
    → IsAscending (entry_keys entries)
    → get_elem? entries n ≡ some x
    → find x.key entries ≡ some x.value
find-at [] n x asc at = absurd (cc at)
find-at (z ∷ entries) zero x asc at =
    let e : z ≡ x = cc at in
    subst (λ (w : MockEntry). find w.key (z ∷ entries) ≡ some w.value) e
      (ground (arith, same_self z.key))
find-at (z ∷ entries) (suc n) x asc at =
    let above = All-get_elem? (λ k. less z.key k ≡ true) entries n x asc.0 at in
    let rest = find-at entries n x asc.1 at in
    elim (Bool-cases (same z.key x.key)) [
      | inl e ↦ absurd (ground (arith, above, less_irrefl z.key, (same_iff z.key x.key).0 e))
      | inr apart ↦ rw apart rest
    ]

entry_at-get : (entries : List MockEntry) (n : ℕ) → entry_at entries (pos n) ≡ get_elem? entries n
entry_at-get entries n = elim (Bool-cases (ltb n (length entries))) [
  | inl lt ↦ rw lt refl
  | inr ge ↦ rw ge (sym (get_elem?-ge entries n (ground (arith, ge))))
]

first_at :
    (k : Bytes) (entries : List MockEntry) (n i : ℕ) (x : MockEntry)
    → IsAscending (entry_keys entries)
    → IsFirstAt k entries n
    → get_elem? entries i ≡ some x
    → x.key ≡ k
    → i ≡ n
first_at k entries n i x asc first at named = elim (Bool-cases (ltb i n)) [
  | inl below ↦
      let under = first.before i x at (ltb→lt i n below) in
      absurd (ground (arith, under, less_irrefl k, named))
  | inr from ↦ elim (Bool-cases (ltb n i)) [
    | inl above ↦
        let (y, at_y) =
          get_elem?-lt entries n (ground (arith, above, at, get_elem?-ge entries i)) in
        let over = first.from n y at_y (omega arith) in
        let under = ascending_at entries n i y x asc (ltb→lt n i above) at_y at in
        absurd (ground (arith, over, under, named))
    | inr upto ↦ ground (arith, from, upto)
  ]
]

-- On ascending entries, Seek to a key stands on the value that a reader finds there, if one does.
pub seek-find :
    (k v : Bytes) (it : MockIterator)
    → IsAscending (entry_keys it.entries)
    → (find k it.entries ≡ some v)
      ↔ (entry_at it.entries (seek k it).position ≡ some (record { key = k; value = v }))
seek-find k v it asc =
    let (n, at_n, same_entries, first) = seek-IsFirstAt k it asc in
    let here : entry_at it.entries (seek k it).position ≡ get_elem? it.entries n =
      ap (entry_at it.entries) at_n ∙ entry_at-get it.entries n in
    (
      λ found.
          let (i, x, at, named, valued) = find-inv k v it.entries found in
          let e : i ≡ n = first_at k it.entries n i x asc first at named in
          here ∙ ground (arith, e, at, named, valued),
      λ stands. find-at it.entries n (record { key = k; value = v }) asc (sym here ∙ stands),
    )
