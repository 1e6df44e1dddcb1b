-- ===== src/Btcclient/Client.antt =====
-- pkg/btcclient/client.go: BtcClient. `stopping` says that a call of Stop holds the client's lock
-- and waits; AddPeer and RemovePeer wait for it. `health_loops` counts the goroutines that run
-- healthCheckLoop.
pub mod Steps
pub mod Safety
pub mod Stopping
pub mod Waiting
pub mod Draining
pub mod Ending
use brewery_bitcoin.Btcclient.Base.{
  ClientError, client_already_started, client_not_started, stop_timeout,
}
use brewery_bitcoin.Btcclient.Config.{
  Config, MessageListeners, no_listeners, validate, apply_options, default_config,
}
use brewery_bitcoin.Btcclient.Peer.{ManagedPeer, cancel_and_disconnect}
use brewery_bitcoin.Btcclient.Manager.{PeerManager, new_peer_manager}
use brewery_bitcoin.Btcclient.Manager
use brewery_bitcoin.Prelude.{
  ℕ, ◌+◌, ◌-◌, Bool, true, false, not, Option, none, some, List, [], ◌∷◌, ◌==◌, if◌then◌else◌,
  length, Bytes, Dict, Result, ok, modify, ◌>>=◌,
}

pub record BtcClient : Type 0 where
  pub manager : PeerManager
  pub health_loops : ℕ
  pub stopping : Bool

abbrev pub listeners_of : Option MessageListeners → MessageListeners
listeners_of none = no_listeners
listeners_of (some l) = l

abbrev pub client_of : {Params : Type 0} → Config Params → BtcClient
client_of cfg = record {
  manager = new_peer_manager cfg.max_peers cfg.max_failure_count (listeners_of cfg.listeners);
  health_loops = 0;
  stopping = false;
}

-- NewBtcClient, with the parameters of the main network
unfoldable pub new_btc_client :
    {Params : Type 0} → Params → List (Config Params → Config Params) → Result ClientError BtcClient
unfolding validate
new_btc_client main_net opts = do
  cfg ← validate (apply_options (default_config main_net) opts)
  ok (client_of cfg)

unfoldable pub start : BtcClient → BtcClient × Option ClientError
start c = if c.manager.started then (c, some client_already_started) else (
  record c {
    manager = record c.manager { started = true; wg = c.manager.wg + 1 };
    health_loops = c.health_loops + 1;
  },
  none,
)

-- the loop of Stop over the peers
unfoldable pub disconnect_all : Dict ℕ → List ManagedPeer → List ManagedPeer
disconnect_all [] heap = heap
disconnect_all ((address, id) ∷ rest) heap =
    disconnect_all rest (modify id cancel_and_disconnect heap)

-- Stop up to its wait. `panicked` is the panic of closing a closed channel.
pub data StopBegin : Type 0 where
  refused : ClientError → StopBegin
  panicked : StopBegin
  waiting_for : BtcClient → StopBegin

unfoldable pub stop_begin : BtcClient → StopBegin
unfolding disconnect_all
stop_begin c =
    if not c.manager.started
    then refused client_not_started
    else if c.manager.is_done
    then panicked
    else waiting_for (record c {
      manager = record c.manager {
        is_done = true;
        heap = disconnect_all c.manager.peers c.manager.heap;
      };
      stopping = true;
    })

-- The end of Stop, in a state where a call of it waits, which is when `stopping` is set: the
-- goroutines are done, or the context is. `none`: it still waits.
unfoldable pub stop_end : Bool → BtcClient → Option (BtcClient × Option ClientError)
stop_end timed_out c =
    if timed_out
    then some (record c { stopping = false }, some stop_timeout)
    else if c.manager.wg == 0
    then some (record c { manager = record c.manager { started = false }; stopping = false }, none)
    else none

unfoldable pub add_peer : BtcClient → Bool → Bytes → BtcClient × Option ClientError
add_peer c cancelled address =
    let (manager, e) = Manager.add_peer c.manager cancelled address in
    (record c { manager = manager }, e)

unfoldable pub remove_peer : BtcClient → Bytes → BtcClient × Option ClientError
remove_peer c address =
    let (manager, e) = Manager.remove_peer c.manager address in (record c { manager = manager }, e)

unfoldable pub peer_count : BtcClient → ℕ
peer_count c = length c.manager.peers

-- healthCheckLoop: a tick, and the return once done is closed
unfoldable pub health_tick : BtcClient → BtcClient
health_tick c = record c { manager = Manager.run_health_checks c.manager }

unfoldable pub health_exit : BtcClient → BtcClient
health_exit c = record c {
  manager = record c.manager { wg = c.manager.wg - 1 };
  health_loops = c.health_loops - 1;
}
