-- ===== src/Indexer/System.antt =====
-- indexer/indexer.go and indexer/headers.go: an indexer with its client as a transition system. Start,
-- Stop and OnHeaders hold the indexer's lock, Stop also while it waits; connectPeers holds none, but
-- AddPeer waits for the lock of the client.
pub mod Reached
pub mod Guarantees
pub mod TimedOut
use brewery_bitcoin.Btcclient.Client.{BtcClient}
use brewery_bitcoin.Btcclient.Client
use brewery_bitcoin.Btcclient.Client.Steps as ClientSteps
use brewery_bitcoin.Indexer.Base.{Chaincfg, IndexerError}
use brewery_bitcoin.Indexer.Lifecycle.{Indexer, returned, waiting_for, start, stop_begin, stop_end}
use brewery_bitcoin.Indexer.Headers.{on_headers}
use brewery_bitcoin.Prelude.{◌≡◌, Bool, true, false, Option, some, List, Bytes}

-- the steps of a client that no call of the indexer makes
abbrev pub is_internal : {c d : BtcClient} → ClientSteps.Step c d → Bool
is_internal (ClientSteps.starts _) = false
is_internal (ClientSteps.stop_begins _ _) = false
is_internal (ClientSteps.stop_ends _ _ _) = false
is_internal (ClientSteps.adds _ _ _) = false
is_internal (ClientSteps.removes _ _) = false
is_internal _ = true

module _ {chain : Chaincfg} {Header : Type 0} (block_hash : Header → chain.Hash) where
  pub data Step (i : Indexer chain Header) : Indexer chain Header → Type 0 where
    starts : i.client.stopping ≡ false → Step i (start i).0
    stop_begins :
        {j : Indexer chain Header}
        → i.client.stopping ≡ false
        → stop_begin i ≡ waiting_for j
        → Step i j
    stop_returns :
        {j : Indexer chain Header} (e : IndexerError)
        → i.client.stopping ≡ false
        → stop_begin i ≡ returned j e
        → Step i j
    stop_ends :
        (timed_out : Bool) {r : Indexer chain Header × Option IndexerError}
        → i.client.stopping ≡ true
        → stop_end timed_out i ≡ some r
        → Step i r.0
    connects :
        (cancelled : Bool) (address : Bytes)
        → i.client.stopping ≡ false
        → Step i (record i { client = (Client.add_peer i.client cancelled address).0 })
    receives :
        (headers : List Header)
        → i.client.stopping ≡ false
        → Step i (on_headers block_hash headers i)
    works :
        {c : BtcClient} (s : ClientSteps.Step i.client c)
        → is_internal s ≡ true
        → Step i (record i { client = c })

  pub data Reach (i : Indexer chain Header) : Indexer chain Header → Type 0 where
    here : Reach i i
    next : {j k : Indexer chain Header} → Reach i j → Step j k → Reach i k
