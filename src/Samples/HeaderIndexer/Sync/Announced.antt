-- ===== src/Samples/HeaderIndexer/Sync/Announced.antt =====
-- examples/headerindexer/main.go: what the indexer does with an announcement.
use brewery_bitcoin.Wire.{Wire, InvVect, Request, get_headers}
use brewery_bitcoin.Btcclient.Peer.{ManagedPeer, Link}
use brewery_bitcoin.Indexer.Base.{Chaincfg}
use brewery_bitcoin.Samples.HeaderIndexer.{
  HeaderIndexer, new_header_indexer, request_headers, on_peer_connected, has_block, on_inv,
}
use brewery_bitcoin.Samples.HeaderIndexer.Sync.{
  max_headers, tip_after, IsHonest, converse, with_chain, with_chain-ap,
}
use brewery_bitcoin.Samples.HeaderIndexer.Sync.CatchUp.{
  caught_up, converse-done, catch_up_from, request_headers-up,
}
use brewery_bitcoin.Prelude.{
  ℕ, ◌+◌, ◌/◌, ◌%◌, ◌≡◌, refl, ap, ◌∙◌, inl, inr, Bool, true, false, ◌&&◌, ◌||◌, not, Option, none,
  some, List, [], ◌∷◌, ◌++◌, arith, ◌==◌, if◌then◌else◌, Bool-cases, length,
}

module _ {chain : Chaincfg} (wire : Wire chain.Hash) where
  on_inv-up :
      (mp : ManagedPeer) (l : Link) (inv : List (InvVect chain.Hash))
      (idx : HeaderIndexer chain wire)
      → mp.peer ≡ some l
      → on_inv wire mp inv idx ≡ (
          if has_block wire inv && idx.synced
          then some (get_headers (idx.tip_hash ∷ []) wire.zero_hash)
          else none)
  unfolding on_inv request_headers
  on_inv-up mp l inv idx up = ground (arith, up)

  on_inv-unsynced :
      (mp : ManagedPeer) (inv : List (InvVect chain.Hash)) (idx : HeaderIndexer chain wire)
      → idx.synced ≡ false
      → on_inv wire mp inv idx ≡ none
  unfolding on_inv
  on_inv-unsynced mp inv idx h = ground (arith, h)

  module _ (mp : ManagedPeer) (l : Link) (up : mp.peer ≡ some l)
      (serve : List chain.Hash → chain.Hash → List wire.Header) (genesis : chain.Hash)
      (blocks : List wire.Header) (honest : IsHonest wire serve genesis blocks) where
    -- Let the peer serve a chain of which the headers of the indexer are a beginning, with its tip the
    -- hash of the last one, and let the peer announce inventory. If this names a block and the indexer
    -- is synced, the exchange that it starts ends with the whole chain, its last hash as the tip, and
    -- the indexer still synced; otherwise nothing is requested and nothing changes.
    pub on_inv_lem :
        (pre suf : List wire.Header) (idx : HeaderIndexer chain wire)
        (inv : List (InvVect chain.Hash))
        → blocks ≡ pre ++ suf
        → idx.headers ≡ pre
        → idx.tip_hash ≡ tip_after wire genesis pre
        → converse wire mp serve (length suf / max_headers + 1) idx (on_inv wire mp inv idx) ≡ (
            if has_block wire inv && idx.synced
            then (with_chain wire idx blocks (tip_after wire genesis blocks) true, none)
            else (idx, none))
    on_inv_lem pre suf idx inv split hs tip =
        ap (converse wire mp serve (length suf / max_headers + 1) idx) (on_inv-up mp l inv idx up)
        ∙ elim (Bool-cases (has_block wire inv && idx.synced)) [
          | inr ignored ↦
              rw ignored (converse-done wire mp serve (length suf / max_headers + 1) idx)
          | inl followed ↦ rw followed (
              catch_up_from wire mp l up serve genesis blocks honest (length suf / max_headers + 1)
                pre suf idx split hs tip (omega arith)
              ∙ ap (λ i. (i, none))
                  (with_chain-ap wire idx refl refl
                    (still (has_block wire inv) idx.synced (length suf) followed)))
        ]
      where
        still : (b s : Bool) (n : ℕ) → (b && s) ≡ true → (s || not (n % max_headers == 0)) ≡ true
        still b s n h = ground (arith, h)

module _ (chain : Chaincfg) (wire : Wire chain.Hash) where
  -- the exchange of a new indexer with its first peer, from the connection on
  abbrev pub first_exchange :
      ManagedPeer
      → (List chain.Hash → chain.Hash → List wire.Header)
      → chain.Params
      → ℕ
      → HeaderIndexer chain wire × Option (Request chain.Hash)
  first_exchange mp serve params messages =
      converse wire mp serve messages (new_header_indexer chain wire params)
        (on_peer_connected wire mp (new_header_indexer chain wire params))

  -- If the number of headers that the first peer serves is a multiple of 2000, zero included, then a
  -- new indexer holds them all after the exchange and waits for no answer, but from then on it ignores
  -- every announcement, from any peer: it requests no header of a later block.
  pub stalls :
      (mp : ManagedPeer) (l : Link) (serve : List chain.Hash → chain.Hash → List wire.Header)
      (params : chain.Params) (blocks : List wire.Header) (mp' : ManagedPeer)
      (inv : List (InvVect chain.Hash))
      → mp.peer ≡ some l
      → IsHonest wire serve (chain.genesis_hash params) blocks
      → length blocks % max_headers ≡ 0
      → ((first_exchange mp serve params (length blocks / max_headers + 1)).0.headers ≡ blocks)
        × ((first_exchange mp serve params (length blocks / max_headers + 1)).1 ≡ none)
        × (on_inv wire mp' inv (first_exchange mp serve params (length blocks / max_headers + 1)).0
            ≡ none)
  unfolding on_peer_connected new_header_indexer
  stalls mp l serve params blocks mp' inv up honest whole =
      let idx = new_header_indexer chain wire params in
      let ends : first_exchange mp serve params (length blocks / max_headers + 1)
          ≡ (caught_up wire (chain.genesis_hash params) blocks (length blocks) idx, none) =
        (ap (converse wire mp serve (length blocks / max_headers + 1) idx)
            (request_headers-up wire mp l idx up)
          ∙ catch_up_from wire mp l up serve (chain.genesis_hash params) blocks honest
              (length blocks / max_headers + 1) [] blocks idx refl refl refl (omega arith)) in
      (
        ap (λ r. r.0.headers) ends,
        ap (λ r. r.1) ends,
        ap (λ r. on_inv wire mp' inv r.0) ends
            ∙ on_inv-unsynced wire mp' inv _ (ground (arith, whole)),
      )
