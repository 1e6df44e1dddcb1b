-- ===== src/Indexer/Requests.antt =====
-- indexer/common.go: the requests that are queued on a peer, `none` where its connection is a nil
-- pointer and nothing is queued.
use brewery_bitcoin.Wire.{Wire, Request, get_headers, get_data}
use brewery_bitcoin.Btcclient.Peer.{ManagedPeer}
use brewery_bitcoin.Prelude.{Option, none, some, [], ◌∷◌}

module _ {Hash : Type 0} (wire : Wire Hash) where
  -- RequestHeaders
  unfoldable pub request_headers : ManagedPeer → Hash → Option (Request Hash)
  request_headers mp from_hash = elim mp.peer [
    | none ↦ none
    | some p ↦ some (get_headers (from_hash ∷ []) wire.zero_hash)
  ]

  -- RequestBlock
  unfoldable pub request_block : ManagedPeer → Hash → Option (Request Hash)
  request_block mp block_hash = elim mp.peer [
    | none ↦ none
    | some p ↦
        some (get_data (record { kind = wire.inv_type_witness_block; hash = block_hash } ∷ []))
  ]
