-- ===== src/Samples/HeaderIndexer.antt =====
-- examples/headerindexer/main.go: headerIndexer and its callbacks. A callback returns the message
-- that it queues on the peer. The two sections of onHeaders that hold the lock are one step.
pub mod Sync
pub mod Program
use brewery_bitcoin.Wire.{Wire, InvVect, Request, get_headers}
use brewery_bitcoin.Btcclient.Peer.{ManagedPeer}
use brewery_bitcoin.Indexer.Base.{Chaincfg}
use brewery_bitcoin.Prelude.{
  ℕ, Bool, true, false, ◌||◌, not, Option, none, some, List, [], ◌∷◌, ◌++◌, ◌==◌, if◌then◌else◌,
  length, ℤ, int32_of,
}

-- the length of a full batch, a literal in onHeaders
abbrev pub full_batch : ℕ
full_batch = 2000

module _ (chain : Chaincfg) (wire : Wire chain.Hash) where
  pub record HeaderIndexer : Type 0 where
    pub headers : List wire.Header
    pub tip_hash : chain.Hash
    pub synced : Bool
    pub params : chain.Params

  unfoldable pub new_header_indexer : chain.Params → HeaderIndexer
  new_header_indexer params = record {
    headers = [];
    tip_hash = chain.genesis_hash params;
    synced = false;
    params = params;
  }

module _ {Hash : Type 0} (wire : Wire Hash) where
  unfoldable pub request_headers : ManagedPeer → Hash → Option (Request Hash)
  request_headers mp from_hash = elim mp.peer [
    | none ↦ none
    | some p ↦ some (get_headers (from_hash ∷ []) wire.zero_hash)
  ]

  -- the loop of onInv, with its `break`
  unfoldable pub has_block : List (InvVect Hash) → Bool
  has_block [] = false
  has_block (iv ∷ rest) =
      if iv.kind == wire.inv_type_block || iv.kind == wire.inv_type_witness_block
      then true
      else has_block rest

module _ {chain : Chaincfg} (wire : Wire chain.Hash) where
  unfoldable pub height : HeaderIndexer chain wire → ℤ
  unfolding int32_of
  height idx = int32_of (length idx.headers)

  unfoldable pub on_peer_connected :
      ManagedPeer → HeaderIndexer chain wire → Option (Request chain.Hash)
  unfolding request_headers
  on_peer_connected mp idx = request_headers wire mp idx.tip_hash

  -- the loop over the headers of a message
  unfoldable pub append_headers :
      List wire.Header → HeaderIndexer chain wire → HeaderIndexer chain wire
  append_headers [] idx = idx
  append_headers (hdr ∷ rest) idx =
      append_headers rest
        (record idx { headers = idx.headers ++ hdr ∷ []; tip_hash = wire.block_hash hdr })

  unfoldable pub on_headers :
      ManagedPeer
      → List wire.Header
      → HeaderIndexer chain wire
      → HeaderIndexer chain wire × Option (Request chain.Hash)
  unfolding append_headers request_headers
  on_headers mp [] idx = (idx, none)
  on_headers mp (hdr ∷ rest) idx =
      let idx' = append_headers (hdr ∷ rest) idx in
      if length (hdr ∷ rest) == full_batch
      then (idx', request_headers wire mp idx'.tip_hash)
      else (record idx' { synced = true }, none)

  unfoldable pub on_inv :
      ManagedPeer
      → List (InvVect chain.Hash)
      → HeaderIndexer chain wire
      → Option (Request chain.Hash)
  unfolding has_block request_headers
  on_inv mp inv idx =
      if not (has_block wire inv)
      then none
      else if not idx.synced
      then none
      else request_headers wire mp idx.tip_hash
