-- ===== src/Db/Cursor/Followed.antt =====
-- db/pebble.go: each move of a PebbleDB iterator is the move of the mockIterator that its caller sees.
use brewery_bitcoin.Stdlib.Sort.{IsAscending}
use brewery_bitcoin.Db.Keys.{prefixed_key, strip}
use brewery_bitcoin.Db.Keys.Scope.{strip-prefixed_key}
use brewery_bitcoin.Db.Engine.{Engine}
use brewery_bitcoin.Db.Cursor.{IsReliableIterator}
use brewery_bitcoin.Db.Cursor.Entries.{stripped, HasPrefix, ascends-stripped}
use brewery_bitcoin.Db.Cursor.Moves.{
  Move, to_first, to_last, forward, backward, to, mock_move, mock_read, pebble_move, pebble_read,
}
use brewery_bitcoin.Db.Cursor.Sought.{first_unique, stripped-IsFirstAt}
use brewery_bitcoin.Db.Cursor.View.{
  entry_at-map, entry_at-valid, view, value-view, key-view, valid-view,
}
use brewery_bitcoin.Db.Mock.Iterator as MockCalls
use brewery_bitcoin.Db.Mock.Iterator.{MockEntry, MockIterator, entry_at, valid_at, bytes_of}
use brewery_bitcoin.Db.Mock.Iterator.Snapshot.{entry_keys}
use brewery_bitcoin.Db.Mock.Iterator.Seek.{IsFirstAt, All-get_elem?, seek-IsFirstAt}
use brewery_bitcoin.Db.Pebble.Iterator as PebbleCalls
use brewery_bitcoin.Db.Pebble.Iterator.{PebbleIterator}
use mathlib.Core.Path.{ap₂}
use brewery_bitcoin.Prelude.{
  ◌≡◌, refl, sym, ap, ◌∙◌, subst, inl, inr, none, some, List, map, arith, Bool-cases, length,
  length-map, All, ℤ, pos, negsuc, max_int64, decrement, Bytes, map_option,
}

All-entry_at {κ} :
    (P : Bytes → Type κ) (xs : List MockEntry) (p : ℤ) (x : MockEntry)
    → All P (entry_keys xs)
    → entry_at xs p ≡ some x
    → P x.key
All-entry_at P xs (negsuc n) x h at = absurd (cc at)
All-entry_at P xs (pos n) x h at = All-get_elem? P xs n x h (ground (arith, at))

pub same_iterator : (a b : MockIterator) → a.entries ≡ b.entries → a.position ≡ b.position → a ≡ b
same_iterator a b es p = cc

module _ {e : Engine} (rel : IsReliableIterator e) where
  -- An iterator over one family: its entries ascend and hold the prefix, and no read has failed.
  pub record IsScoped (prefix : Bytes) (it : PebbleIterator e) : Type 0 where
    pub same_prefix : it.prefix ≡ prefix
    pub len : it.prefix_len ≡ length prefix
    pub scope : All (HasPrefix prefix) (entry_keys (rel.entries it.iter))
    pub ascends : IsAscending (entry_keys (rel.entries it.iter))
    pub no_failure : it.failure ≡ none

  -- the iterator with another one of the engine
  abbrev moved : PebbleIterator e → e.Iter → PebbleIterator e
  moved it i = record it { iter = i }

  moved-IsScoped :
      (prefix : Bytes) (it : PebbleIterator e) (i : e.Iter)
      → IsScoped prefix it
      → rel.entries i ≡ rel.entries it.iter
      → IsScoped prefix (moved it i)
  moved-IsScoped prefix it i h kept = record {
    same_prefix = h.same_prefix;
    len = h.len;
    scope = subst (λ xs. All (HasPrefix prefix) (entry_keys xs)) (sym kept) h.scope;
    ascends = subst (λ xs. IsAscending (entry_keys xs)) (sym kept) h.ascends;
    no_failure = h.no_failure;
  }

  moved-view :
      (it : PebbleIterator e) (i : e.Iter) (p : ℤ)
      → rel.entries i ≡ rel.entries it.iter
      → rel.position i ≡ p
      → view rel (moved it i) ≡ record (view rel it) { position = p }
  moved-view it i p kept at = same_iterator _ _ (ap (map (stripped it.prefix_len)) kept) at

  -- what a move keeps, and what it shows
  abbrev Follows : Bytes → Move → PebbleIterator e → Type 0
  Follows prefix x it =
      IsScoped prefix (pebble_move x it) × (view rel (pebble_move x it) ≡ mock_move x (view rel it))

  follow_seek :
      (prefix target : Bytes) (it : PebbleIterator e)
      → IsScoped prefix it
      → Follows prefix (to target) it
  unfolding PebbleCalls.seek
  follow_seek prefix target it h =
      let (n, at, kept, first) = rel.seek_moves (prefixed_key it.prefix target) it.iter h.ascends in
      let shown = map (stripped it.prefix_len) (rel.entries it.iter) in
      let asc : IsAscending (entry_keys shown) =
        subst (λ k. IsAscending (entry_keys (map (stripped k) (rel.entries it.iter)))) (sym h.len)
          (ascends-stripped prefix (rel.entries it.iter) h.scope h.ascends) in
      let (n', at', kept', first') = seek-IsFirstAt target (view rel it) asc in
      let first'' = stripped-IsFirstAt prefix target (rel.entries it.iter) h.scope n (
        subst (λ k. IsFirstAt (prefixed_key k target) (rel.entries it.iter) n) h.same_prefix
          first) in
      let same_n : n ≡ n' =
        first_unique target shown n n'
          (subst (λ k. IsFirstAt target (map (stripped k) (rel.entries it.iter)) n) (sym h.len)
            first'')
          first' in
      (
        moved-IsScoped prefix it (e.seek_ge it.iter (prefixed_key it.prefix target)) h kept,
        moved-view it (e.seek_ge it.iter (prefixed_key it.prefix target)) (pos n) kept at
            ∙ ap (λ k. record (view rel it) { position = pos k }) same_n
            ∙ same_iterator _ _ (sym kept') (sym at'),
      )

  shown_length :
      (it : PebbleIterator e) → length (view rel it).entries ≡ length (rel.entries it.iter)
  shown_length it = length-map (rel.entries it.iter) (stripped it.prefix_len)

  follow_ends :
      (prefix : Bytes) (it : PebbleIterator e)
      → IsScoped prefix it
      → Follows prefix to_first it × Follows prefix to_last it
  unfolding PebbleCalls.seek_to_first PebbleCalls.seek_to_last MockCalls.seek_to_first
      MockCalls.seek_to_last
  follow_ends prefix it h =
      let (kept, at) = rel.first_moves it.iter in
      let (kept', at') = rel.last_moves it.iter in
      (
        (
          moved-IsScoped prefix it (e.first it.iter) h kept,
          moved-view it (e.first it.iter) (pos 0) kept at,
        ),
        (
          moved-IsScoped prefix it (e.last it.iter) h kept',
          moved-view it (e.last it.iter) _ kept'
              (at' ∙ ap (λ n. decrement max_int64 (pos n)) (sym (shown_length it))),
        ),
      )

  -- Next and Prev of an iterator that is valid, and no move of one that is not
  follow_steps :
      (prefix : Bytes) (it : PebbleIterator e)
      → IsScoped prefix it
      → Follows prefix forward it × Follows prefix backward it
  unfolding PebbleCalls.next PebbleCalls.prev MockCalls.next MockCalls.prev
  follow_steps prefix it h =
      let (pebble_valid, mock_valid) = valid-view rel it in
      elim (Bool-cases (valid_at (rel.entries it.iter) (rel.position it.iter))) [
        | inr out ↦ rw (pebble_valid ∙ out) (rw (mock_valid ∙ out) ((h, refl), (h, refl)))
        | inl inside ↦
            let (kept, at) = rel.next_moves it.iter inside in
            let (kept', at') = rel.prev_moves it.iter inside in
            rw (pebble_valid ∙ inside) (
              rw (mock_valid ∙ inside) (
                (
                  moved-IsScoped prefix it (e.next it.iter) h kept,
                  moved-view it (e.next it.iter) _ kept at,
                ),
                (
                  moved-IsScoped prefix it (e.prev it.iter) h kept',
                  moved-view it (e.prev it.iter) _ kept' at',
                ),
              ))
      ]

  -- Every move leads to an iterator over the same family, and its caller sees the mock's move.
  pub follow :
      (prefix : Bytes) (x : Move) (it : PebbleIterator e) → IsScoped prefix it → Follows prefix x it
  follow prefix to_first it h = (follow_ends prefix it h).0
  follow prefix to_last it h = (follow_ends prefix it h).1
  follow prefix forward it h = (follow_steps prefix it h).0
  follow prefix backward it h = (follow_steps prefix it h).1
  follow prefix (to target) it h = follow_seek prefix target it h

  strip-known :
      (prefix : Bytes) (it : PebbleIterator e) (x : MockEntry)
      → entry_at (rel.entries it.iter) (rel.position it.iter) ≡ some x
      → IsScoped prefix it
      → strip it.prefix_len x.key ≡ some (bytes_of (strip it.prefix_len x.key))
  strip-known prefix it x at h =
      let (rest, k) =
        All-entry_at (HasPrefix prefix) (rel.entries it.iter) (rel.position it.iter) x h.scope at in
      let known : strip it.prefix_len x.key ≡ some rest =
        ap₂ strip h.len k ∙ strip-prefixed_key prefix rest in
      ground (arith, known)

  -- Reading changes nothing, and gives what the mock's reading gives.
  pub read-view :
      (prefix : Bytes) (it : PebbleIterator e)
      → IsScoped prefix it
      → pebble_read it ≡ (it, mock_read (view rel it))
  unfolding MockCalls.key MockCalls.value
  read-view prefix it h =
      let (pebble_valid, mock_valid) = valid-view rel it in
      elim (Bool-cases (valid_at (rel.entries it.iter) (rel.position it.iter))) [
        | inr out ↦ ground (arith, out, pebble_valid, mock_valid)
        | inl inside ↦
            let (x, at) = entry_at-valid (rel.entries it.iter) (rel.position it.iter) inside in
            let there : entry_at (view rel it).entries (view rel it).position
                ≡ some (stripped it.prefix_len x) =
              entry_at-map (stripped it.prefix_len) (rel.entries it.iter) (rel.position it.iter)
              ∙ ap (map_option (stripped it.prefix_len)) at in
            ground (
              arith,
              inside,
              pebble_valid,
              mock_valid,
              value-view rel it x at,
              key-view rel it x at,
              there,
              strip-known prefix it x at h,
            )
      ]
