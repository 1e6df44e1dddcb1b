-- ===== src/Samples/HeaderIndexer/Sync/Race.antt =====
-- examples/headerindexer/main.go: two peers that connect before the first of them has answered.
use brewery_bitcoin.Wire.{Wire, Request}
use brewery_bitcoin.Btcclient.Peer.{ManagedPeer, Link}
use brewery_bitcoin.Indexer.Base.{Chaincfg}
use brewery_bitcoin.Samples.HeaderIndexer.{HeaderIndexer, on_peer_connected, on_headers}
use brewery_bitcoin.Samples.HeaderIndexer.Sync.{
  max_headers, tip_after, IsHonest, answer, on_headers_lem,
}
use brewery_bitcoin.Samples.HeaderIndexer.Sync.CatchUp.{request_headers-up}
use brewery_bitcoin.Prelude.{◌≡◌, refl, ap, ◌∙◌, Option, none, some, List, [], ◌∷◌, ◌++◌, take}

module _ {chain : Chaincfg} (wire : Wire chain.Hash)
    (serve : List chain.Hash → chain.Hash → List wire.Header) where
  -- a peer's answer arrives
  abbrev pub deliver :
      ManagedPeer
      → Option (Request chain.Hash)
      → HeaderIndexer chain wire
      → HeaderIndexer chain wire
  deliver mp none idx = idx
  deliver mp (some r) idx = (on_headers wire mp (answer wire serve r) idx).0

  -- Both peers connect, and then the answer of each arrives.
  abbrev pub race : ManagedPeer → ManagedPeer → HeaderIndexer chain wire → HeaderIndexer chain wire
  race mp mp' idx =
      deliver mp' (on_peer_connected wire mp' idx) (deliver mp (on_peer_connected wire mp idx) idx)

  -- Let the headers of the indexer be a beginning of a chain that two peers serve, with its tip the
  -- hash of the last one, and let both connect before the first answer. Then the answers are equal and
  -- are both kept: the headers that follow the tip stand in the list twice.
  pub race_duplicates :
      (mp mp' : ManagedPeer) (l l' : Link) (genesis : chain.Hash) (pre suf : List wire.Header)
      (idx : HeaderIndexer chain wire)
      → mp.peer ≡ some l
      → mp'.peer ≡ some l'
      → IsHonest wire serve genesis (pre ++ suf)
      → idx.headers ≡ pre
      → idx.tip_hash ≡ tip_after wire genesis pre
      → (race mp mp' idx).headers ≡ (pre ++ take max_headers suf) ++ take max_headers suf
  unfolding on_peer_connected
  race_duplicates mp mp' l l' genesis pre suf idx up up' honest hs tip =
      let sent : serve (idx.tip_hash ∷ []) wire.zero_hash ≡ take max_headers suf =
        ap (λ (h : chain.Hash). serve (h ∷ []) wire.zero_hash) tip ∙ honest.answers pre suf refl in
      let once = deliver mp (on_peer_connected wire mp idx) idx in
      let first : once.headers ≡ pre ++ take max_headers suf =
        (ap (λ r. (deliver mp r idx).headers) (request_headers-up wire mp l idx up)
          ∙ on_headers_lem wire mp (serve (idx.tip_hash ∷ []) wire.zero_hash) idx
          ∙ cc (hs, sent)) in
      ap (λ r. (deliver mp' r once).headers) (request_headers-up wire mp' l' idx up')
      ∙ on_headers_lem wire mp' (serve (idx.tip_hash ∷ []) wire.zero_hash) once
      ∙ cc (first, sent)
