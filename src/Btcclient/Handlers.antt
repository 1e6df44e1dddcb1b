-- ===== src/Btcclient/Handlers.antt =====
-- pkg/btcclient/handlers.go: what a message from a peer makes the client do. A message is the one
-- that the peer library parsed; of its content only the addresses of an addr message are read.
pub mod Addresses
use brewery_bitcoin.Stdlib.Decimal.{decimal}
use brewery_bitcoin.Btcclient.Config.{MessageListeners}
use brewery_bitcoin.Btcclient.Manager.{PeerManager, add_discovered_peers}
use brewery_bitcoin.Prelude.{
  ℕ, Bool, false, Option, none, some, List, ◌∷◌, ◌++◌, map, if◌then◌else◌, Bytes,
}

-- wire.NetAddress: the text of its IP, and its port
pub record NetAddress : Type 0 where
  pub ip : Bytes
  pub port : ℕ

pub data Message (Payload : Type 0) : Type 0 where
  version verack headers inv block tx reject : Payload → Message Payload
  addr : Payload → List NetAddress → Message Payload

-- `fmt.Sprintf("%s:%d", addr.IP.String(), addr.Port)`
unfoldable pub address_text : NetAddress → Bytes
address_text a = a.ip ++ 58 ∷ decimal a.port

module _ {Payload : Type 0} where
  -- Whether a message of this kind is forwarded to a callback.
  unfoldable pub is_forwarded : MessageListeners → Message Payload → Bool
  is_forwarded l (headers _) = l.on_headers
  is_forwarded l (inv _) = l.on_inv
  is_forwarded l (block _) = l.on_block
  is_forwarded l (tx _) = l.on_tx
  is_forwarded l (addr _ _) = l.on_addr
  is_forwarded l _ = false

  -- The handlers: the manager after them, and the message that a callback was given.
  unfoldable pub handle : PeerManager → Message Payload → PeerManager × Option (Message Payload)
  unfolding is_forwarded
  handle pm (addr content list) = (
    add_discovered_peers pm (map address_text list),
    if pm.listeners.on_addr then some (addr content list) else none,
  )
  handle pm msg = (pm, if is_forwarded pm.listeners msg then some msg else none)
