-- ===== src/Btcclient/Manager.antt =====
-- pkg/btcclient/manager.go: PeerManager. The map holds pointers, so the peers are objects on a
-- heap, and a peer that has left the map goes on running until its loop returns. Each function
-- below holds the lock of the map from beginning to end.
pub mod Loop
pub mod Invariant
pub mod Preserves
pub mod StepPreserves
pub mod Effects
pub mod Flags
pub mod Orphans
pub mod Driven
pub mod Unreachable
pub mod Goroutines
pub mod StepGoroutines
pub mod Drains
pub mod Ranks
pub mod Progress
use brewery_bitcoin.Btcclient.Base.{
  ClientError, peer_already_exists, peer_not_found, max_peers_reached,
}
use brewery_bitcoin.Btcclient.Config.{MessageListeners}
use brewery_bitcoin.Btcclient.Peer.{ManagedPeer, new_managed_peer, cancel_and_disconnect}
use brewery_bitcoin.Prelude.{
  ℕ, ◌+◌, Bool, false, Option, none, some, List, [], ◌∷◌, ◌++◌, if◌then◌else◌, is_some, length,
  get_elem?, ℤ, pos, lebℤ, Bytes, Dict, lookup, insert, remove, modify,
}

-- A callback that ran, or the message getaddr that was queued, with the identity of its peer.
pub data Notice : Type 0 where
  peer_connected : ℕ → Notice
  peer_disconnected : ℕ → Notice
  addresses_asked : ℕ → Notice

pub record PeerManager : Type 0 where
  pub peers : Dict ℕ
  pub heap : List ManagedPeer
  pub is_done : Bool  -- the channel done is closed
  pub wg : ℕ  -- the counter of the wait group
  pub started : Bool
  pub max_peers : ℤ
  pub max_failure_count : ℤ
  pub listeners : MessageListeners
  pub notices : List Notice

unfoldable pub new_peer_manager : ℤ → ℤ → MessageListeners → PeerManager
new_peer_manager max_peers max_failure_count listeners = record {
  peers = [];
  heap = [];
  is_done = false;
  wg = 0;
  started = false;
  max_peers = max_peers;
  max_failure_count = max_failure_count;
  listeners = listeners;
  notices = [];
}

-- `pm.peers[address] = mp; pm.wg.Add(1); go pm.connectionLoop(mp)` with a new object
unfoldable pub spawn : PeerManager → Bytes → Bool → PeerManager
unfolding new_managed_peer
spawn pm address cancelled = record pm {
  peers = insert address (length pm.heap) pm.peers;
  heap = pm.heap ++ new_managed_peer address cancelled ∷ [];
  wg = pm.wg + 1;
}

-- addPeer; `cancelled` says whether the caller's context is cancelled already
unfoldable pub add_peer : PeerManager → Bool → Bytes → PeerManager × Option ClientError
unfolding spawn
add_peer pm cancelled address =
    if is_some (lookup address pm.peers)
    then (pm, some peer_already_exists)
    else if lebℤ pm.max_peers (pos (length pm.peers))
    then (pm, some max_peers_reached)
    else (spawn pm address cancelled, none)

abbrev pub notify_if : Bool → Notice → List Notice → List Notice
notify_if b n ns = if b then ns ++ n ∷ [] else ns

unfoldable pub remove_peer : PeerManager → Bytes → PeerManager × Option ClientError
unfolding cancel_and_disconnect
remove_peer pm address = elim (lookup address pm.peers) [
  | none ↦ (pm, some peer_not_found)
  | some id ↦ (
    record pm {
      heap = modify id cancel_and_disconnect pm.heap;
      peers = remove address pm.peers;
      notices = notify_if pm.listeners.on_peer_disconnected (peer_disconnected id) pm.notices;
    },
    none,
  )
]

-- `mp.FailureCount() >= pm.maxFailureCount` for the object of an entry
abbrev pub exceeds : PeerManager → ℕ → Bool
exceeds pm id = elim (get_elem? pm.heap id) [
  | none ↦ false
  | some mp ↦ lebℤ pm.max_failure_count mp.failure_count
]

-- the first loop of runHealthChecks
unfoldable pub to_remove : PeerManager → Dict ℕ → List Bytes
to_remove pm [] = []
to_remove pm ((address, id) ∷ rest) =
    let others = to_remove pm rest in if exceeds pm id then address ∷ others else others

-- its second loop
unfoldable pub remove_all : PeerManager → List Bytes → PeerManager
remove_all pm [] = pm
remove_all pm (address ∷ rest) = remove_all (remove_peer pm address).0 rest

unfoldable pub run_health_checks : PeerManager → PeerManager
unfolding to_remove remove_all
run_health_checks pm = remove_all pm (to_remove pm pm.peers)

-- addDiscoveredPeers, over the addresses of the message: `break` at the limit, `continue` at a
-- known address
unfoldable pub add_discovered_peers : PeerManager → List Bytes → PeerManager
unfolding spawn
add_discovered_peers pm [] = pm
add_discovered_peers pm (address ∷ rest) =
    let next = if is_some (lookup address pm.peers) then pm else spawn pm address false in
    let continued = add_discovered_peers next rest in
    if lebℤ pm.max_peers (pos (length pm.peers)) then pm else continued

-- evictPeer, of the object with this identity: it removes whatever the map holds at its address
unfoldable pub evict_peer : PeerManager → ℕ → PeerManager
evict_peer pm id = elim (get_elem? pm.heap id) [
  | none ↦ pm
  | some mp ↦ (remove_peer pm mp.address).0
]
