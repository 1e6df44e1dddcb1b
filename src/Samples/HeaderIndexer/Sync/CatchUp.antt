-- ===== src/Samples/HeaderIndexer/Sync/CatchUp.antt =====
-- examples/headerindexer/main.go: the exchange up to its end.
use brewery_bitcoin.Wire.{Wire, Request, get_headers}
use brewery_bitcoin.Btcclient.Peer.{ManagedPeer, Link}
use brewery_bitcoin.Indexer.Base.{Chaincfg}
use brewery_bitcoin.Samples.HeaderIndexer.{
  HeaderIndexer, height, request_headers, on_peer_connected, on_headers,
}
use brewery_bitcoin.Samples.HeaderIndexer.Sync.{
  max_headers, tip_after, tip_after-append, IsHonest, converse, with_chain, with_chain-ap,
  on_headers-full, on_headers-empty, on_headers-short,
}
use brewery_bitcoin.Prelude.{
  ℕ, zero, suc, ◌+◌, ◌*◌, ◌/◌, ◌%◌, ◌≤◌, ◌<◌, ◌≡◌, refl, sym, ap, ◌∙◌, inl, inr, ◌||◌, not, Option,
  none, some, List, [], ◌∷◌, ◌++◌, append_assoc, append-nil, arith, ltb, ◌==◌, ltb→lt, Bool-cases,
  length, length-append, pos, max_int32, take, drop, take-drop, length-take, take_all, int32_of-pos,
}

module _ {chain : Chaincfg} (wire : Wire chain.Hash) where
  pub converse-step :
      (mp : ManagedPeer) (serve : List chain.Hash → chain.Hash → List wire.Header) (fuel : ℕ)
      (idx idx' : HeaderIndexer chain wire) (locator : List chain.Hash) (stop : chain.Hash)
      (pending : Option (Request chain.Hash))
      → on_headers wire mp (serve locator stop) idx ≡ (idx', pending)
      → converse wire mp serve (suc fuel) idx (some (get_headers locator stop))
        ≡ converse wire mp serve fuel idx' pending
  unfolding converse
  converse-step mp serve fuel idx idx' locator stop pending h = rw h refl

  pub converse-done :
      (mp : ManagedPeer) (serve : List chain.Hash → chain.Hash → List wire.Header) (fuel : ℕ)
      (idx : HeaderIndexer chain wire)
      → converse wire mp serve fuel idx none ≡ (idx, none)
  unfolding converse
  converse-done mp serve zero idx = refl
  converse-done mp serve (suc fuel) idx = refl

  pub request_headers-up :
      (mp : ManagedPeer) (l : Link) (idx : HeaderIndexer chain wire)
      → mp.peer ≡ some l
      → request_headers wire mp idx.tip_hash ≡ some (get_headers (idx.tip_hash ∷ []) wire.zero_hash)
  unfolding request_headers
  request_headers-up mp l idx up = ground (arith, up)

  -- The end of the exchange over this chain, of which so many headers were missing: the indexer is
  -- synced if it was before or if the last message was short.
  abbrev pub caught_up :
      chain.Hash → List wire.Header → ℕ → HeaderIndexer chain wire → HeaderIndexer chain wire
  caught_up genesis blocks missing idx =
      with_chain wire idx blocks (tip_after wire genesis blocks)
        (idx.synced || not (missing % max_headers == 0))

  module _ (mp : ManagedPeer) (l : Link) (up : mp.peer ≡ some l)
      (serve : List chain.Hash → chain.Hash → List wire.Header) (genesis : chain.Hash)
      (blocks : List wire.Header) (honest : IsHonest wire serve genesis blocks) where
    received :
        (pre suf : List wire.Header) (idx : HeaderIndexer chain wire)
        → blocks ≡ pre ++ suf
        → idx.tip_hash ≡ tip_after wire genesis pre
        → serve (idx.tip_hash ∷ []) wire.zero_hash ≡ take max_headers suf
    received pre suf idx split tip =
        ap (λ (h : chain.Hash). serve (h ∷ []) wire.zero_hash) tip ∙ honest.answers pre suf split

    last_tip :
        (pre suf : List wire.Header) (idx : HeaderIndexer chain wire)
        → blocks ≡ pre ++ suf
        → idx.tip_hash ≡ tip_after wire genesis pre
        → tip_after wire idx.tip_hash suf ≡ tip_after wire genesis blocks
    last_tip pre suf idx split tip =
        ap (λ (h : chain.Hash). tip_after wire h suf) tip
        ∙ sym (tip_after-append wire genesis pre suf)
        ∙ ap (tip_after wire genesis) (sym split)

    -- the messages that end the exchange: an empty one, and a short one
    catch_up_short :
        (fuel : ℕ) (pre suf : List wire.Header) (idx : HeaderIndexer chain wire)
        → blocks ≡ pre ++ suf
        → idx.headers ≡ pre
        → idx.tip_hash ≡ tip_after wire genesis pre
        → length suf < max_headers
        → converse wire mp serve
            (suc fuel)
            idx
            (some (get_headers (idx.tip_hash ∷ []) wire.zero_hash))
          ≡ (caught_up genesis blocks (length suf) idx, none)
    catch_up_short fuel pre [] idx split hs tip lt =
        converse-step mp serve fuel idx idx (idx.tip_hash ∷ []) wire.zero_hash none (
          ap (λ m. on_headers wire mp m idx)
            (received pre [] idx split tip ∙ take_all max_headers [] (omega arith))
          ∙ on_headers-empty wire mp idx)
        ∙ converse-done mp serve fuel idx
        ∙ ap (λ i. (i, none))
            (with_chain-ap wire idx (hs ∙ sym (append-nil pre) ∙ sym split)
              (last_tip pre [] idx split tip) (ground (arith, idx.synced)))
    catch_up_short fuel pre (x ∷ suf) idx split hs tip lt =
        converse-step mp serve fuel idx _ (idx.tip_hash ∷ []) wire.zero_hash none (
          ap (λ m. on_headers wire mp m idx)
            (received pre (x ∷ suf) idx split tip ∙ take_all max_headers (x ∷ suf) (omega arith))
          ∙ on_headers-short wire mp (x ∷ suf) idx (omega arith) lt)
        ∙ converse-done mp serve fuel _
        ∙ ap (λ i. (i, none))
            (with_chain-ap wire idx (ap (λ (ys : List wire.Header). ys ++ x ∷ suf) hs ∙ sym split)
              (last_tip pre (x ∷ suf) idx split tip) (ground (arith, idx.synced)))

    pub catch_up_from :
        (fuel : ℕ) (pre suf : List wire.Header) (idx : HeaderIndexer chain wire)
        → blocks ≡ pre ++ suf
        → idx.headers ≡ pre
        → idx.tip_hash ≡ tip_after wire genesis pre
        → length suf < fuel * max_headers
        → converse wire mp serve fuel idx (some (get_headers (idx.tip_hash ∷ []) wire.zero_hash))
          ≡ (caught_up genesis blocks (length suf) idx, none)
    catch_up_from zero pre suf idx split hs tip lt = absurd (omega arith)
    catch_up_from (suc fuel) pre suf idx split hs tip lt =
        elim (Bool-cases (ltb (length suf) max_headers)) [
          | inl short ↦
              catch_up_short fuel pre suf idx split hs tip (ltb→lt (length suf) max_headers short)
          | inr full ↦
              let batch = take max_headers suf in
              let rest = drop max_headers suf in
              let enough : max_headers ≤ length suf = ground arith in
              let joined : suf ≡ batch ++ rest = sym (take-drop max_headers suf) in
              let count : length batch ≡ max_headers = length-take max_headers suf enough in
              let left : length suf ≡ max_headers + length rest =
                ap length joined ∙ length-append batch rest ∙ omega (arith, count) in
              let idx' =
                with_chain wire idx (idx.headers ++ batch) (tip_after wire idx.tip_hash batch)
                  idx.synced in
              converse-step mp serve fuel idx idx' (idx.tip_hash ∷ []) wire.zero_hash
                (some (get_headers (idx'.tip_hash ∷ []) wire.zero_hash))
                (ap (λ m. on_headers wire mp m idx) (received pre suf idx split tip)
                  ∙ on_headers-full wire mp l batch idx up count)
              ∙ catch_up_from fuel (pre ++ batch) rest idx'
                  (split ∙ ap (λ ys. pre ++ ys) joined ∙ sym (append_assoc pre batch rest))
                  (ap (λ (ys : List wire.Header). ys ++ batch) hs)
                  (ap (λ (h : chain.Hash). tip_after wire h batch) tip
                    ∙ sym (tip_after-append wire genesis pre batch))
                  (omega (arith, left))
              ∙ ap (λ i. (i, none))
                  (with_chain-ap wire idx refl refl
                    (ap (λ n. idx.synced || not (n == 0)) (remainder (length rest) left)))
        ]
      where
        remainder :
            (n : ℕ) → length suf ≡ max_headers + n → n % max_headers ≡ length suf % max_headers
        remainder n e = omega arith

    -- Let the peer serve a chain, and let the headers of the indexer be a beginning of it and its tip
    -- the hash of the last one. Then the exchange that starts when the peer connects ends after one
    -- message more than the missing headers fill: the indexer holds the chain, all of it, its tip is
    -- the last hash, and it is synced if it was before or if their number is no multiple of 2000. If
    -- the chain has at most 2^31 - 1 headers, their number is its height.
    pub catch_up :
        (pre suf : List wire.Header) (idx : HeaderIndexer chain wire)
        → blocks ≡ pre ++ suf
        → idx.headers ≡ pre
        → idx.tip_hash ≡ tip_after wire genesis pre
        → length blocks ≤ max_int32
        → (converse wire mp serve (length suf / max_headers + 1) idx (on_peer_connected wire mp idx)
            ≡ (caught_up genesis blocks (length suf) idx, none))
          × (height wire (caught_up genesis blocks (length suf) idx) ≡ pos (length blocks))
    unfolding on_peer_connected height
    catch_up pre suf idx split hs tip fits = (
      ap (converse wire mp serve (length suf / max_headers + 1) idx)
            (request_headers-up mp l idx up)
          ∙ catch_up_from (length suf / max_headers + 1) pre suf idx split hs tip (omega arith),
      int32_of-pos (length blocks) fits,
    )
