-- ===== src/Indexer/Headers.antt =====
-- indexer/headers.go: OnHeaders. A header's hash is a parameter: wire.BlockHeader is a type of
-- github.com/btcsuite/btcd/wire, which the repository does not contain.
pub mod Received
use brewery_bitcoin.Indexer.Base.{Chaincfg}
use brewery_bitcoin.Indexer.Lifecycle.{Indexer}
use brewery_bitcoin.Prelude.{ℕ, true, some, List, [], ◌∷◌, ◌++◌, ◌==◌, if◌then◌else◌, length}

-- wire.MaxBlockHeadersPerMsg, written as a literal in OnHeaders
abbrev pub full_batch : ℕ
full_batch = 2000

module _ {chain : Chaincfg} {Header : Type 0} (block_hash : Header → chain.Hash) where
  -- the loop over the headers of a message
  unfoldable pub append_headers : List Header → Indexer chain Header → Indexer chain Header
  append_headers [] idx = idx
  append_headers (hdr ∷ rest) idx =
      append_headers rest
        (record idx { headers = idx.headers ++ hdr ∷ []; tip_hash = some (block_hash hdr) })

  unfoldable pub on_headers : List Header → Indexer chain Header → Indexer chain Header
  unfolding append_headers
  on_headers [] idx = idx
  on_headers (hdr ∷ rest) idx =
      let idx' = append_headers (hdr ∷ rest) idx in
      if length (hdr ∷ rest) == full_batch then idx' else record idx' { synced = true }
