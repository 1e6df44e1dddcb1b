-- ===== src/Db/Mock/Iterator/Scan.antt =====
-- A caller's loops over an iterator, `for it.SeekToFirst(); it.Valid(); it.Next()` and
-- `for it.SeekToLast(); it.Valid(); it.Prev()`, with the entries that they visit.
use mathlib.Core.List.{reverse, reverse-cons, reverse-reverse}
use mathlib.Core.Path.{ap₂}
use native.Mathlib.Numerals.{add-one}
use brewery_bitcoin.Db.Mock.Iterator.{
  MockEntry, MockIterator, bytes_of, seek_to_first, seek_to_last, next, prev, valid, key, value,
}
use brewery_bitcoin.Prelude.{
  ℕ, zero, suc, ◌+◌, ◌≤◌, ◌<◌, ◌≡◌, refl, ap, ◌∙◌, true, false, Option, none, some, List, [], ◌∷◌,
  ◌++◌, append_assoc, append-nil, arith, if◌then◌else◌, length, get_elem?, length-append, ℤ, pos,
  max_int64, decrement,
}

-- what the body of the loop reads
abbrev pub visited : MockIterator → MockEntry
visited it = record { key = bytes_of (key it); value = bytes_of (value it) }

-- The loop with fuel; `none` means that the fuel ran out.
unfoldable pub walk : (MockIterator → MockIterator) → ℕ → MockIterator → Option (List MockEntry)
walk move zero it = none
walk move (suc fuel) it =
    let rest = walk move fuel (move it) in
    if valid it then elim rest [ none ↦ none | some es ↦ some (visited it ∷ es) ] else some []

abbrev at : List MockEntry → ℤ → MockIterator
at entries p = record { entries = entries; position = p }

get_elem?-append :
    {A : Type 0} (pre : List A) (x : A) (post : List A)
    → get_elem? (pre ++ x ∷ post) (length pre) ≡ some x
get_elem?-append [] x post = refl
get_elem?-append (y ∷ pre) x post = get_elem?-append pre x post

-- the state of the iterator at the entry behind `pre`
module _ (pre : List MockEntry) (e : MockEntry) (post : List MockEntry) where
  reads :
      (valid (at (pre ++ e ∷ post) (pos (length pre))) ≡ true)
      × (visited (at (pre ++ e ∷ post) (pos (length pre))) ≡ e)
  unfolding valid key value
  reads = ground (arith, get_elem?-append pre e post, length-append pre (e ∷ post))

walk_stop :
    (move : MockIterator → MockIterator) (fuel : ℕ) (it : MockIterator)
    → valid it ≡ false
    → walk move (suc fuel) it ≡ some []
unfolding walk
walk_stop move fuel it h = rw h

walk_step :
    (move : MockIterator → MockIterator) (fuel : ℕ) (it : MockIterator) (es : List MockEntry)
    → valid it ≡ true
    → walk move fuel (move it) ≡ some es
    → walk move (suc fuel) it ≡ some (visited it ∷ es)
unfolding walk
walk_step move fuel it es h k = rw (h, k)

next-at :
    (entries : List MockEntry) (n : ℕ)
    → n < max_int64
    → next (at entries (pos n)) ≡ at entries (pos (suc n))
unfolding next
next-at entries n h = ground arith

past_end : (pre : List MockEntry) → valid (at (pre ++ []) (pos (length pre))) ≡ false
unfolding valid
past_end pre = ground (arith, length-append pre [])

regroup :
    (pre post : List MockEntry) (e : MockEntry)
    → at ((pre ++ e ∷ []) ++ post) (pos (length (pre ++ e ∷ [])))
      ≡ at (pre ++ e ∷ post) (pos (suc (length pre)))
regroup pre post e =
    let count : length (pre ++ e ∷ []) ≡ suc (length pre) =
      omega (arith, length-append pre (e ∷ [])) in
    rw (append_assoc, count)

-- The remaining entries, from the position behind `pre`.
walk_forward :
    (pre post : List MockEntry)
    → length (pre ++ post) ≤ max_int64
    → walk next (suc (length post)) (at (pre ++ post) (pos (length pre))) ≡ some post
walk_forward pre [] fits = walk_stop next 0 _ (past_end pre)
walk_forward pre (e ∷ post) fits =
    let (here, entry) = reads pre e post in
    let room : length pre < max_int64 = omega (arith, length-append pre (e ∷ post)) in
    let rest = walk_forward (pre ++ e ∷ []) post (rw append_assoc fits) in
    walk_step next (suc (length post)) (at (pre ++ e ∷ post) (pos (length pre))) post here
      (rw (next-at (pre ++ e ∷ post) (length pre) room, ← regroup pre post e) rest)
    ∙ ap (λ (x : MockEntry). some (x ∷ post)) entry

prev-at :
    (entries : List MockEntry) (p : ℤ) → prev (at entries p) ≡ at entries (decrement max_int64 p)
unfolding prev
prev-at entries p = refl

step_back : (n : ℕ) → decrement max_int64 (pos (suc n)) ≡ pos n
unfolding decrement
step_back n = refl

before_start : (entries : List MockEntry) → valid (at entries (decrement max_int64 (pos 0))) ≡ false
unfolding valid decrement
before_start entries = refl

unreverse :
    (e : MockEntry) (rev post : List MockEntry)
    → reverse (e ∷ rev) ++ post ≡ reverse rev ++ e ∷ post
unreverse e rev post = rw (reverse-cons, append_assoc)

length-reverse : (rev : List MockEntry) → length (reverse rev) ≡ length rev
length-reverse [] = refl
length-reverse (e ∷ rev) =
    rw reverse-cons (omega (arith, length-append (reverse rev) (e ∷ []), length-reverse rev))

arrives :
    (e : MockEntry) (rev post : List MockEntry)
    → at (reverse (e ∷ rev) ++ post) (decrement max_int64 (pos (suc (length rev))))
      ≡ at (reverse rev ++ e ∷ post) (pos (length rev))
arrives e rev post = ap₂ at (unreverse e rev post) (step_back (length rev))

-- The entries before a position, last first.
walk_backward :
    (rev post : List MockEntry)
    → walk prev
        (suc (length rev))
        (at (reverse rev ++ post) (decrement max_int64 (pos (length rev))))
      ≡ some rev
walk_backward [] post = walk_stop prev 0 _ (before_start post)
walk_backward (e ∷ rev) post =
    let (here, entry) = reads (reverse rev) e post in
    ap (λ (it : MockIterator). walk prev (suc (suc (length rev))) it) (arrives e rev post)
    ∙ walk_step prev (suc (length rev)) (at (reverse rev ++ e ∷ post) (pos (length rev))) rev
        (rw length-reverse at here) (rw prev-at (walk_backward rev (e ∷ post)))
    ∙ ap (λ (x : MockEntry). some (x ∷ rev)) (rw length-reverse at entry)

-- the forward loop
pub walk_from_first :
    (it : MockIterator)
    → length it.entries ≤ max_int64
    → walk next (length it.entries + 1) (seek_to_first it) ≡ some it.entries
unfolding seek_to_first
walk_from_first it fits = rw (add-one (length it.entries)) (walk_forward [] it.entries fits)

-- the backward loop, for any number of entries
pub walk_from_last :
    (it : MockIterator)
    → walk prev (length it.entries + 1) (seek_to_last it) ≡ some (reverse it.entries)
unfolding seek_to_last
walk_from_last it =
    rw (add-one (length it.entries))
      (rw (length-reverse, append-nil, reverse-reverse) at (walk_backward (reverse it.entries) []))

-- If there are at most 2^63 - 1 entries, as in every Go slice, both loops end within one round more
-- than there are entries: the forward loop from SeekToFirst visits the entries in their order, each
-- once, and the backward loop from SeekToLast visits them in the reverse order, each once.
pub walks_visit_all :
    (it : MockIterator)
    → length it.entries ≤ max_int64
    → (walk next (length it.entries + 1) (seek_to_first it) ≡ some it.entries)
      × (walk prev (length it.entries + 1) (seek_to_last it) ≡ some (reverse it.entries))
walks_visit_all it fits = (walk_from_first it fits, walk_from_last it)
