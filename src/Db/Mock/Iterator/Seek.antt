-- ===== src/Db/Mock/Iterator/Seek.antt =====
-- db/mock.go: Seek against the entries of the iterator.
use brewery_bitcoin.Stdlib.Search.{search_index, IsLeast, search_index-IsLeast}
use brewery_bitcoin.Stdlib.Sort.{IsAscending}
use brewery_bitcoin.Db.Mock.Iterator.{MockEntry, MockIterator, at_or_after, seek}
use brewery_bitcoin.Db.Mock.Iterator.Snapshot.{entry_keys}
use brewery_bitcoin.Prelude.{
  ℕ, zero, suc, ◌≤◌, ◌<◌, ◌≡◌, refl, ap, subst, true, false, none, some, List, [], ◌∷◌, arith,
  length, get_elem?, get_elem?-lt, get_elem?-ge, All, pos, Bytes, less, less_trans,
}

-- `n` is the position of the first entry at or after the target: all entries before it are
-- below the target, and all from it on are not.
pub record IsFirstAt (target : Bytes) (entries : List MockEntry) (n : ℕ) : Type 0 where
  pub in_range : n ≤ length entries
  pub before :
      (i : ℕ) (e : MockEntry) → get_elem? entries i ≡ some e → i < n → less e.key target ≡ true
  pub from :
      (i : ℕ) (e : MockEntry) → get_elem? entries i ≡ some e → n ≤ i → less e.key target ≡ false

pub All-get_elem? {κ} :
    (P : Bytes → Type κ) (entries : List MockEntry) (i : ℕ) (e : MockEntry)
    → All P (entry_keys entries)
    → get_elem? entries i ≡ some e
    → P e.key
All-get_elem? P [] i e h at = elim (some≢none at) [ ]
  where
    some≢none : none ≡ some e → ⊥
    some≢none x = cc
All-get_elem? P (x ∷ entries) zero e h at = subst P (ap (λ (y : MockEntry). y.key) (unwrap at)) h.0
  where
    unwrap : some x ≡ some e → x ≡ e
    unwrap q = cc
All-get_elem? P (x ∷ entries) (suc i) e h at = All-get_elem? P entries i e h.1 at

at_or_after_mono :
    (target : Bytes) (entries : List MockEntry) (i j : ℕ)
    → IsAscending (entry_keys entries)
    → i ≤ j
    → j < length entries
    → at_or_after target entries i ≡ true
    → at_or_after target entries j ≡ true
unfolding at_or_after
at_or_after_mono target [] i j asc le lt t = elim lt [ ]
at_or_after_mono target (x ∷ entries) zero zero asc le lt t = t
at_or_after_mono target (x ∷ entries) zero (suc j) asc le lt t =
    let (e, at) = get_elem?-lt entries j (omega arith) in
    let above = All-get_elem? (λ k. less x.key k ≡ true) entries j e asc.0 at in
    ground (arith, at, above, less_trans x.key e.key target)
at_or_after_mono target (x ∷ entries) (suc i) zero asc le lt t = elim le [ ]
at_or_after_mono target (x ∷ entries) (suc i) (suc j) asc le lt t =
    at_or_after_mono target entries i j asc.1 (omega arith) (omega arith) t

first_of_least :
    (target : Bytes) (entries : List MockEntry) (n : ℕ)
    → IsLeast (length entries) (at_or_after target entries) n
    → IsFirstAt target entries n
unfolding at_or_after
first_of_least target entries n h = record {
  in_range = h.in_range;
  before = λ i e at lt. ground (arith, h.before i, at);
  from = λ i e at le. ground (arith, h.from i, at, get_elem?-ge entries i);
}

-- On ascending entries, Seek moves to the first entry whose key is not below the target, and past
-- the end if there is none.
pub seek-IsFirstAt :
    (target : Bytes) (it : MockIterator)
    → IsAscending (entry_keys it.entries)
    → (n : ℕ) × ((seek target it).position ≡ pos n)
      × ((seek target it).entries ≡ it.entries)
      × IsFirstAt target it.entries n
unfolding seek
seek-IsFirstAt target it asc =
    let n = search_index (length it.entries) (at_or_after target it.entries) in
    (
      n,
      refl,
      refl,
      first_of_least target it.entries n (
          search_index-IsLeast (length it.entries) (at_or_after target it.entries)
            (record { stays = λ i j le lt t. at_or_after_mono target it.entries i j asc le lt t })),
    )
