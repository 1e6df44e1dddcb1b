-- ===== src/Btcclient/Peer.antt =====
-- pkg/btcclient/peer.go: ManagedPeer. The btcd peer behind it is its link, up or down; `none` is a
-- nil pointer. `cancelled` says that the peer's context is cancelled, and `point` is where the
-- peer's goroutine, connectionLoop, stands. The accessors hold the peer's own lock: each is a step.
use brewery_bitcoin.Prelude.{
  String, Bool, true, Option, none, some, ℤ, pos, max_int32, increment, Bytes,
}

pub data PeerStatus : Type 0 where
  disconnected connecting connected unhealthy : PeerStatus
  other : ℤ → PeerStatus

-- String
unfoldable pub label : PeerStatus → String
label disconnected = "disconnected"
label connecting = "connecting"
label connected = "connected"
label unhealthy = "unhealthy"
label (other n) = "unknown"

pub data Link : Type 0 where
  up down : Link

-- The points of connectionLoop between which other goroutines may run.
pub data Point : Type 0 where
  top : Point  -- at the head of the loop
  dialing : Point  -- in dial
  opened : Point  -- dial has returned nil
  evicting : Point  -- at evictPeer
  attached : Point  -- in WaitForDisconnect
  waiting : Point  -- in waitOrCancel
  exited : Point  -- returned

pub record ManagedPeer : Type 0 where
  pub address : Bytes
  pub peer : Option Link
  pub status : PeerStatus
  pub failure_count : ℤ
  pub cancelled : Bool
  pub point : Point

-- `&ManagedPeer{…}` and `go pm.connectionLoop(mp)`
unfoldable pub new_managed_peer : Bytes → Bool → ManagedPeer
new_managed_peer address cancelled = record {
  address = address;
  peer = none;
  status = disconnected;
  failure_count = pos 0;
  cancelled = cancelled;
  point = top;
}

unfoldable pub set_status : PeerStatus → ManagedPeer → ManagedPeer
set_status s mp = record mp { status = s }

unfoldable pub increment_failure : ManagedPeer → ManagedPeer
unfolding increment
increment_failure mp = record mp { failure_count = increment max_int32 mp.failure_count }

unfoldable pub reset_failures : ManagedPeer → ManagedPeer
reset_failures mp = record mp { failure_count = pos 0 }

unfoldable pub clear_peer : ManagedPeer → ManagedPeer
clear_peer mp = record mp { peer = none }

unfoldable pub set_peer : Link → ManagedPeer → ManagedPeer
set_peer p mp = record mp { peer = some p }

-- `mp.cancel(); if p := mp.Peer(); p != nil { p.Disconnect() }`
unfoldable pub cancel_and_disconnect : ManagedPeer → ManagedPeer
cancel_and_disconnect mp = record mp {
  cancelled = true;
  peer = elim mp.peer [ none ↦ none | some _ ↦ some down ];
}

abbrev pub go_to : Point → ManagedPeer → ManagedPeer
go_to p mp = record mp { point = p }
