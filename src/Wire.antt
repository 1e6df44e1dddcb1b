-- ===== src/Wire.antt =====
-- What the program uses of github.com/btcsuite/btcd/wire, which the repository does not contain:
-- the hash of a header, the zero hash, two kinds of inventory, and two messages that are sent.
use brewery_bitcoin.Prelude.{ℕ, List}

pub record Wire (Hash : Type 0) : Type 1 where
  pub Header : Type 0
  pub block_hash : Header → Hash
  pub zero_hash : Hash
  pub inv_type_block : ℕ
  pub inv_type_witness_block : ℕ

pub record InvVect (Hash : Type 0) : Type 0 where
  pub kind : ℕ
  pub hash : Hash

-- MsgGetHeaders, with its block locator and HashStop, and MsgGetData
pub data Request (Hash : Type 0) : Type 0 where
  get_headers : List Hash → Hash → Request Hash
  get_data : List (InvVect Hash) → Request Hash
