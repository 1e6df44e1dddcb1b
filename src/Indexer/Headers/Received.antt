-- ===== src/Indexer/Headers/Received.antt =====
-- indexer/headers.go: what the indexer holds after any sequence of headers messages.
use brewery_bitcoin.Indexer.Base.{Chaincfg}
use brewery_bitcoin.Indexer.Lifecycle.{Indexer}
use brewery_bitcoin.Indexer.Headers.{full_batch, append_headers, on_headers}
use brewery_bitcoin.Prelude.{
  ◌≡◌, refl, sym, ap, ◌∙◌, inl, inr, Bool, true, false, ◌||◌, not, Option, some, List, [], ◌∷◌,
  ◌++◌, append_assoc, append-nil, arith, ◌==◌, if◌then◌else◌, Bool-cases, length,
}

-- A message that tells the indexer it has caught up: not empty and not full.
abbrev pub is_short : {Header : Type 0} → List Header → Bool
is_short [] = false
is_short (hdr ∷ rest) = not (length (hdr ∷ rest) == full_batch)

abbrev pub has_short : {Header : Type 0} → List (List Header) → Bool
has_short [] = false
has_short (msg ∷ msgs) = if is_short msg then true else has_short msgs

abbrev pub all_headers : {Header : Type 0} → List (List Header) → List Header
all_headers [] = []
all_headers (msg ∷ msgs) = msg ++ all_headers msgs

-- the hash of the last header, or the given tip when there is none
abbrev pub tip_of :
    {Header Hash : Type 0} → (Header → Hash) → List Header → Option Hash → Option Hash
tip_of hash [] tip = tip
tip_of hash (hdr ∷ rest) tip = tip_of hash rest (some (hash hdr))

tip_of-append :
    {Header Hash : Type 0} (hash : Header → Hash) (xs ys : List Header) (tip : Option Hash)
    → tip_of hash (xs ++ ys) tip ≡ tip_of hash ys (tip_of hash xs tip)
tip_of-append hash [] ys tip = refl
tip_of-append hash (x ∷ xs) ys tip = tip_of-append hash xs ys (some (hash x))

module _ {chain : Chaincfg} {Header : Type 0} (block_hash : Header → chain.Hash) where
  -- The messages, one after the other.
  unfoldable pub receive_all : List (List Header) → Indexer chain Header → Indexer chain Header
  receive_all [] idx = idx
  receive_all (msg ∷ msgs) idx = receive_all msgs (on_headers block_hash msg idx)

  -- the indexer with other headers, another tip, and another flag
  abbrev pub with_chain :
      Indexer chain Header → List Header → Option chain.Hash → Bool → Indexer chain Header
  with_chain idx hs tip b = record idx { headers = hs; tip_hash = tip; synced = b }

  with_chain-ap :
      (idx : Indexer chain Header) {hs hs' : List Header} {tip tip' : Option chain.Hash}
      {b b' : Bool}
      → hs ≡ hs'
      → tip ≡ tip'
      → b ≡ b'
      → with_chain idx hs tip b ≡ with_chain idx hs' tip' b'
  with_chain-ap idx h t s = cc

  append_headers_lem :
      (msg : List Header) (idx : Indexer chain Header)
      → append_headers block_hash msg idx
        ≡ with_chain idx (idx.headers ++ msg) (tip_of block_hash msg idx.tip_hash) idx.synced
  unfolding append_headers
  append_headers_lem [] idx = with_chain-ap idx (sym (append-nil idx.headers)) refl refl
  append_headers_lem (hdr ∷ rest) idx =
      append_headers_lem rest
        (with_chain idx (idx.headers ++ hdr ∷ []) (some (block_hash hdr)) idx.synced)
      ∙ with_chain-ap idx (append_assoc idx.headers (hdr ∷ []) rest) refl refl

  on_headers_lem :
      (msg : List Header) (idx : Indexer chain Header)
      → on_headers block_hash msg idx
        ≡ with_chain idx
            (idx.headers ++ msg)
            (tip_of block_hash msg idx.tip_hash)
            (idx.synced || is_short msg)
  unfolding on_headers
  on_headers_lem [] idx =
      with_chain-ap idx (sym (append-nil idx.headers)) refl (ground (arith, idx.synced))
  on_headers_lem (hdr ∷ rest) idx = elim (Bool-cases (length (hdr ∷ rest) == full_batch)) [
    | inl full ↦ rw full (
        append_headers_lem (hdr ∷ rest) idx
        ∙ with_chain-ap idx refl refl (ground (arith, idx.synced)))
    | inr short ↦ rw short (
        ap (λ (i : Indexer chain Header). record i { synced = true })
          (append_headers_lem (hdr ∷ rest) idx)
        ∙ with_chain-ap idx refl refl (ground (arith, idx.synced)))
  ]

  -- After any messages, in their order, the indexer holds its headers followed by those of the
  -- messages, all of them; its tip is the hash of the last one received, or the old tip if none
  -- was; it is synced if it was before or if some message was neither empty nor of 2000 headers;
  -- and nothing else has changed.
  pub receive_all_lem :
      (msgs : List (List Header)) (idx : Indexer chain Header)
      → receive_all msgs idx
        ≡ with_chain idx
            (idx.headers ++ all_headers msgs)
            (tip_of block_hash (all_headers msgs) idx.tip_hash)
            (idx.synced || has_short msgs)
  unfolding receive_all
  receive_all_lem [] idx =
      with_chain-ap idx (sym (append-nil idx.headers)) refl (ground (arith, idx.synced))
  receive_all_lem (msg ∷ msgs) idx =
      receive_all_lem msgs (on_headers block_hash msg idx)
      ∙ ap
          (λ (i : Indexer chain Header).
            with_chain i (i.headers ++ all_headers msgs)
              (tip_of block_hash (all_headers msgs) i.tip_hash) (i.synced || has_short msgs))
          (on_headers_lem msg idx)
      ∙ with_chain-ap idx (append_assoc idx.headers msg (all_headers msgs))
          (sym (tip_of-append block_hash msg (all_headers msgs) idx.tip_hash))
          (ground (arith, idx.synced))
