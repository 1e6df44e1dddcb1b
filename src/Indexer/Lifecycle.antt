-- ===== src/Indexer/Lifecycle.antt =====
-- indexer/indexer.go: Indexer, New, Start, Stop and Run. Stop and Run are cut where they wait. The
-- lock is held by each call from beginning to end, by Stop also while it waits.
pub mod Created
pub mod Restart
pub mod Serving
use brewery_bitcoin.Btcclient.Base.{ClientError}
use brewery_bitcoin.Btcclient.Config as ClientConfig
use brewery_bitcoin.Btcclient.Client.{BtcClient, new_btc_client}
use brewery_bitcoin.Btcclient.Client
use brewery_bitcoin.Indexer.Base.{
  Chaincfg, IndexerError, already_running, not_running, client_failed, start_failed,
  shutdown_failed,
}
use brewery_bitcoin.Indexer.Config.{Config, default_config, validate}
use brewery_bitcoin.Indexer.Peers.{resolve_peers, connect_peers}
use brewery_bitcoin.Prelude.{
  Bool, true, false, not, Option, none, some, List, [], ◌∷◌, if◌then◌else◌, Result, ok, err,
  map_option, ◌>>=◌,
}

abbrev pub wrap : {A : Type 0} → Result ClientError A → Result IndexerError A
wrap (ok a) = ok a
wrap (err e) = err (client_failed e)

abbrev pub apply_all : {C : Type 0} → List (C → C) → C → C
apply_all [] c = c
apply_all (opt ∷ opts) c = apply_all opts (opt c)

-- Stop up to the wait of the client's Stop
pub data StopBegin (I : Type 0) : Type 0 where
  returned : I → IndexerError → StopBegin I
  panicked : StopBegin I
  waiting_for : I → StopBegin I

-- Run up to the first point where it waits: for its context, or for the Stop of its cleanup.
-- `crashed`: a nil pointer is dereferenced.
pub data RunBegin (I : Type 0) : Type 0 where
  failed : IndexerError → RunBegin I
  crashed : RunBegin I
  cleaning_up : StopBegin I → IndexerError → RunBegin I
  serving : I → RunBegin I

module _ (chain : Chaincfg) (Header : Type 0) where
  pub record Indexer : Type 0 where
    pub cfg : Config chain.Params
    pub client : BtcClient
    pub tip_hash : Option chain.Hash
    pub headers : List Header
    pub running : Bool
    pub synced : Bool

  -- the options that New gives to NewBtcClient
  abbrev pub client_options :
      Config chain.Params
      → List (ClientConfig.Config chain.Params → ClientConfig.Config chain.Params)
  client_options cfg =
      ClientConfig.with_chain_params cfg.chain_params
      ∷ ClientConfig.with_max_peers cfg.max_peers
      ∷ ClientConfig.with_listeners cfg.listeners
      ∷ []

  abbrev pub indexer_of : Config chain.Params → BtcClient → Indexer
  indexer_of cfg client = record {
    cfg = cfg;
    client = client;
    tip_hash = map_option chain.genesis_hash cfg.chain_params;
    headers = [];
    running = false;
    synced = false;
  }

  -- New
  unfoldable pub new_indexer :
      List (Config chain.Params → Config chain.Params) → Result IndexerError Indexer
  new_indexer opts = do
    cfg ← validate (apply_all opts (default_config chain))
    client ← wrap (new_btc_client chain.main_net (client_options cfg))
    ok (indexer_of cfg client)

module _ {chain : Chaincfg} {Header : Type 0} where
  unfoldable pub start : Indexer chain Header → Indexer chain Header × Option IndexerError
  start idx =
      let (c, e) = Client.start idx.client in
      if idx.running then (idx, some already_running) else elim e [
        | some x ↦ (record idx { client = c }, some (start_failed x))
        | none ↦ (record idx { client = c; running = true }, none)
      ]

  abbrev pub stop_client :
      Indexer chain Header → Client.StopBegin → StopBegin (Indexer chain Header)
  stop_client idx (Client.refused e) = returned (record idx { running = false }) (shutdown_failed e)
  stop_client idx Client.panicked = panicked
  stop_client idx (Client.waiting_for c) = waiting_for (record idx { client = c })

  unfoldable pub stop_begin : Indexer chain Header → StopBegin (Indexer chain Header)
  stop_begin idx =
      if not idx.running
      then returned idx not_running
      else stop_client idx (Client.stop_begin idx.client)

  -- The end of Stop. `none`: it still waits.
  unfoldable pub stop_end :
      Bool → Indexer chain Header → Option (Indexer chain Header × Option IndexerError)
  stop_end timed_out idx = elim (Client.stop_end timed_out idx.client) [
    | none ↦ none
    | some (c, e) ↦ some (record idx { client = c; running = false }, map_option shutdown_failed e)
  ]

  -- connectPeers. `none`: the network parameters are a nil pointer.
  unfoldable pub connect :
      Bool → Indexer chain Header → Option (Indexer chain Header × Option IndexerError)
  connect cancelled idx = elim idx.cfg.chain_params [
    | none ↦ none
    | some params ↦
        let (c, e) =
          connect_peers cancelled idx.client (resolve_peers chain idx.cfg.peers params) in
        some (record idx { client = c }, e)
  ]

  abbrev pub after_connect :
      Option (Indexer chain Header × Option IndexerError) → RunBegin (Indexer chain Header)
  after_connect none = crashed
  after_connect (some (idx, some e)) = cleaning_up (stop_begin idx) e
  after_connect (some (idx, none)) = serving idx

  unfoldable pub run_begin : Bool → Indexer chain Header → RunBegin (Indexer chain Header)
  unfolding start
  run_begin cancelled idx =
      let (idx', started) = start idx in
      elim started [ some e ↦ failed e | none ↦ after_connect (connect cancelled idx') ]
