-- ===== src/Btcclient/Dial.antt =====
-- pkg/btcclient/manager.go: dial, and PeerConnectionError of pkg/btcclient/errors.go. The package net
-- of Go and the library github.com/btcsuite/btcd/peer are a parameter, at one dial.
pub mod Outcome
use brewery_bitcoin.Btcclient.Config.{MessageListeners, second}
use brewery_bitcoin.Btcclient.Peer.{ManagedPeer, up, set_peer}
use brewery_bitcoin.Prelude.{
  ℕ, ◌*◌, Bool, Option, none, some, List, [], ◌∷◌, ◌++◌, ℤ, pos, Bytes, codes, Result, ok, err,
}

-- What dial sets of peer.Config. The listeners close over the callbacks that are set and over the
-- peer, `owner`.
pub record PeerConfig (Params : Type 0) : Type 0 where
  pub user_agent_name : Bytes
  pub user_agent_version : Bytes
  pub chain_params : Params
  pub services : ℕ
  pub trickle_interval : ℤ
  pub listeners : MessageListeners
  pub owner : ManagedPeer

-- `dial_context timeout cancelled address` is net.Dialer.DialContext for tcp, under a context that is
-- cancelled or not.
pub record Network (Params : Type 0) : Type 1 where
  pub Conn : Type 0
  pub Remote : Type 0
  pub Cause : Type 0
  pub cause_text : Cause → Bytes
  pub sf_node_network : ℕ
  pub dial_context : ℤ → Bool → Bytes → Result Cause Conn
  pub new_outbound_peer : PeerConfig Params → Bytes → Result Cause Remote

-- PeerConnectionError
pub record PeerConnectionError (Cause : Type 0) : Type 0 where
  pub address : Bytes
  pub cause : Cause

abbrev pub app_name : Bytes
app_name = codes "brewery-bitcoin"

abbrev pub app_version : Bytes
app_version = codes "0.0.1"

module _ {Params : Type 0} (net : Network Params) where
  -- Error
  unfoldable pub error_text : PeerConnectionError net.Cause → Bytes
  error_text e =
      codes "btcclient: peer "
      ++ e.address
      ++ codes " connection failed: "
      ++ net.cause_text e.cause

  -- Unwrap
  unfoldable pub unwrap : PeerConnectionError net.Cause → net.Cause
  unwrap e = e.cause

  -- the fields of PeerManager that only dial reads, and its listeners
  pub record Dialer : Type 0 where
    pub chain_params : Params
    pub connection_timeout : ℤ
    pub listeners : MessageListeners

  -- what a dial does: the peer after it, the btcd peer that it is set to with the connection that
  -- is associated with that, the connections that are closed, and the error
  pub record Dialed : Type 0 where
    pub peer : ManagedPeer
    pub remote : Option (net.Remote × net.Conn)
    pub closed : List net.Conn
    pub failure : Option (PeerConnectionError net.Cause)

module _ {Params : Type 0} {net : Network Params} (d : Dialer net) where
  abbrev pub peer_config : ManagedPeer → PeerConfig Params
  peer_config mp = record {
    user_agent_name = app_name;
    user_agent_version = app_version;
    chain_params = d.chain_params;
    services = net.sf_node_network;
    trickle_interval = pos (10 * second);
    listeners = d.listeners;
    owner = mp;
  }

  unfoldable pub dial : ManagedPeer → Dialed net
  unfolding set_peer
  dial mp = elim (net.dial_context d.connection_timeout mp.cancelled mp.address) [
    | err e ↦ record {
      peer = mp;
      remote = none;
      closed = [];
      failure = some (record { address = mp.address; cause = e });
    }
    | ok conn ↦ elim (net.new_outbound_peer (peer_config mp) mp.address) [
      | err e ↦ record {
        peer = mp;
        remote = none;
        closed = conn ∷ [];
        failure = some (record { address = mp.address; cause = e });
      }
      | ok p ↦ record {
        peer = set_peer up mp;
        remote = some (p, conn);
        closed = [];
        failure = none;
      }
    ]
  ]
