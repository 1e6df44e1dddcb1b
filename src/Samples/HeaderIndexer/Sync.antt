-- ===== src/Samples/HeaderIndexer/Sync.antt =====
-- examples/headerindexer/main.go: an exchange with a peer that serves a chain of headers, and what
-- one message of it does.
pub mod CatchUp
pub mod Announced
pub mod Race
use brewery_bitcoin.Wire.{Wire, InvVect, Request, get_headers, get_data}
use brewery_bitcoin.Btcclient.Peer.{ManagedPeer, Link}
use brewery_bitcoin.Indexer.Base.{Chaincfg}
use brewery_bitcoin.Samples.HeaderIndexer.{
  HeaderIndexer, new_header_indexer, height, request_headers, on_peer_connected, append_headers,
  on_headers, has_block, on_inv,
}
use brewery_bitcoin.Prelude.{
  ℕ, zero, suc, ◌<◌, ◌≡◌, refl, sym, ap, ◌∙◌, Bool, true, Option, none, some, List, [], ◌∷◌, ◌++◌,
  append_assoc, append-nil, arith, length, take,
}

-- the most headers that a peer sends in one message, by the protocol
abbrev pub max_headers : ℕ
max_headers = 2000

module _ {Hash : Type 0} (wire : Wire Hash) where
  -- the hash of the last header, or the given one when there is none
  abbrev pub tip_after : Hash → List wire.Header → Hash
  tip_after tip [] = tip
  tip_after tip (hdr ∷ rest) = tip_after (wire.block_hash hdr) rest

  tip_after-append :
      (tip : Hash) (xs ys : List wire.Header)
      → tip_after tip (xs ++ ys) ≡ tip_after (tip_after tip xs) ys
  tip_after-append tip [] ys = refl
  tip_after-append tip (x ∷ xs) ys = tip_after-append (wire.block_hash x) xs ys

  -- A peer, by what it answers to a locator and a stop hash, that has these headers behind the
  -- genesis block: behind a header of its chain it sends the next ones, 2000 at most.
  pub record IsHonest (serve : List Hash → Hash → List wire.Header) (genesis : Hash)
      (chain : List wire.Header) : Type 0 where
    pub answers :
        (pre suf : List wire.Header)
        → chain ≡ pre ++ suf
        → serve (tip_after genesis pre ∷ []) wire.zero_hash ≡ take max_headers suf

  -- its headers message for a request
  abbrev pub answer : (List Hash → Hash → List wire.Header) → Request Hash → List wire.Header
  answer serve (get_headers locator stop) = serve locator stop
  answer serve (get_data _) = []

module _ {chain : Chaincfg} (wire : Wire chain.Hash) where
  -- The exchange with one peer, for a number of messages: the indexer, and the request that is
  -- still to be answered.
  unfoldable pub converse :
      ManagedPeer
      → (List chain.Hash → chain.Hash → List wire.Header)
      → ℕ
      → HeaderIndexer chain wire
      → Option (Request chain.Hash)
      → HeaderIndexer chain wire × Option (Request chain.Hash)
  converse mp serve zero idx pending = (idx, pending)
  converse mp serve (suc fuel) idx none = (idx, none)
  converse mp serve (suc fuel) idx (some r) =
      let (idx', pending) = on_headers wire mp (answer wire serve r) idx in
      converse mp serve fuel idx' pending

  abbrev pub with_chain :
      HeaderIndexer chain wire → List wire.Header → chain.Hash → Bool → HeaderIndexer chain wire
  with_chain idx hs tip b = record idx { headers = hs; tip_hash = tip; synced = b }

  with_chain-ap :
      (idx : HeaderIndexer chain wire) {hs hs' : List wire.Header} {tip tip' : chain.Hash}
      {b b' : Bool}
      → hs ≡ hs'
      → tip ≡ tip'
      → b ≡ b'
      → with_chain idx hs tip b ≡ with_chain idx hs' tip' b'
  with_chain-ap idx h t s = cc

  append_headers_lem :
      (msg : List wire.Header) (idx : HeaderIndexer chain wire)
      → append_headers wire msg idx
        ≡ with_chain idx (idx.headers ++ msg) (tip_after wire idx.tip_hash msg) idx.synced
  unfolding append_headers
  append_headers_lem [] idx =
      ap (λ (hs : List wire.Header). with_chain idx hs idx.tip_hash idx.synced)
        (sym (append-nil idx.headers))
  append_headers_lem (hdr ∷ rest) idx =
      append_headers_lem rest
        (with_chain idx (idx.headers ++ hdr ∷ []) (wire.block_hash hdr) idx.synced)
      ∙ ap
          (λ (hs : List wire.Header).
            with_chain idx hs (tip_after wire (wire.block_hash hdr) rest) idx.synced)
          (append_assoc idx.headers (hdr ∷ []) rest)

  -- a full message: the headers are kept, and more are requested behind the new tip
  on_headers-full :
      (mp : ManagedPeer) (l : Link) (msg : List wire.Header) (idx : HeaderIndexer chain wire)
      → mp.peer ≡ some l
      → length msg ≡ max_headers
      → on_headers wire mp msg idx ≡ (
        with_chain idx (idx.headers ++ msg) (tip_after wire idx.tip_hash msg) idx.synced,
        some (get_headers (tip_after wire idx.tip_hash msg ∷ []) wire.zero_hash),
      )
  unfolding on_headers
  on_headers-full mp l [] idx up h = absurd (omega arith)
  on_headers-full mp l (hdr ∷ rest) idx up h =
      ground (arith, append_headers_lem (hdr ∷ rest) idx, up, h)

  on_headers-empty :
      (mp : ManagedPeer) (idx : HeaderIndexer chain wire) → on_headers wire mp [] idx ≡ (idx, none)
  unfolding on_headers
  on_headers-empty mp idx = refl

  on_headers-short :
      (mp : ManagedPeer) (msg : List wire.Header) (idx : HeaderIndexer chain wire)
      → 0 < length msg
      → length msg < max_headers
      → on_headers wire mp msg idx
        ≡ (with_chain idx (idx.headers ++ msg) (tip_after wire idx.tip_hash msg) true, none)
  unfolding on_headers
  on_headers-short mp [] idx h lt = elim h [ ]
  on_headers-short mp (hdr ∷ rest) idx h lt =
      ground (arith, append_headers_lem (hdr ∷ rest) idx, lt)

  -- Every message is kept behind the headers that are there.
  pub on_headers_lem :
      (mp : ManagedPeer) (msg : List wire.Header) (idx : HeaderIndexer chain wire)
      → (on_headers wire mp msg idx).0.headers ≡ idx.headers ++ msg
  unfolding on_headers
  on_headers_lem mp [] idx = sym (append-nil idx.headers)
  on_headers_lem mp (hdr ∷ rest) idx = ground (arith, append_headers_lem (hdr ∷ rest) idx)
