-- ===== src/Btcclient/Handlers/Addresses.antt =====
-- pkg/btcclient: messages from peers and the addresses in them, against the client's invariants.
use brewery_bitcoin.Stdlib.Decimal.{decimal, decimal-injective, decimal_no_colon}
use brewery_bitcoin.Btcclient.Manager.Effects.{CoveredOrFull, add_discovered_peers-covers}
use brewery_bitcoin.Btcclient.Client.{BtcClient}
use brewery_bitcoin.Btcclient.Client.Steps.{Reach, next, discovers}
use brewery_bitcoin.Btcclient.Handlers.{NetAddress, Message, addr, address_text, handle}
use brewery_bitcoin.Prelude.{◌^◌, ◌<◌, ◌≡◌, refl, ◌≢◌, List, [], ◌∷◌, ◌++◌, map, All, Bytes}

colon_inside : (zs ws vs : Bytes) → All (λ b. b ≢ 58) vs → vs ≡ zs ++ 58 ∷ ws → ⊥
colon_inside [] ws [] h e = cc e
colon_inside [] ws (v ∷ vs) h e = h.0 (cc e)
colon_inside (z ∷ zs) ws [] h e = cc e
colon_inside (z ∷ zs) ws (v ∷ vs) h e = colon_inside zs ws vs h.1 (cc e)

-- Two lists split at their last colon: equal lists have equal parts.
split_last :
    (xs xs' ys ys' : Bytes)
    → All (λ b. b ≢ 58) ys
    → All (λ b. b ≢ 58) ys'
    → xs ++ 58 ∷ ys ≡ xs' ++ 58 ∷ ys'
    → (xs ≡ xs') × (ys ≡ ys')
split_last [] [] ys ys' h h' e = (refl, cc e)
split_last [] (x' ∷ xs') ys ys' h h' e = absurd (colon_inside xs' ys' ys h (cc e))
split_last (x ∷ xs) [] ys ys' h h' e = absurd (colon_inside xs ys ys' h' (cc e))
split_last (x ∷ xs) (x' ∷ xs') ys ys' h h' e =
    let (a, b) = split_last xs xs' ys ys' h h' (cc e) in (cc (a, e), b)

-- Two addresses whose ports are uint16 have the same text only if they have the same IP text and
-- the same port: addDiscoveredPeers does not take one peer for another.
address_text-injective :
    (a b : NetAddress)
    → a.port < 2 ^ 16
    → b.port < 2 ^ 16
    → address_text a ≡ address_text b
    → (a.ip ≡ b.ip) × (a.port ≡ b.port)
unfolding address_text
address_text-injective a b ha hb e =
    let (ips, ports) =
      split_last a.ip b.ip (decimal a.port) (decimal b.port) (decimal_no_colon a.port)
        (decimal_no_colon b.port) e in
    (ips, decimal-injective a.port b.port ha hb ports)

handled :
    {Payload : Type 0} (c d : BtcClient) (msg : Message Payload)
    → Reach c d
    → Reach c (record d { manager = (handle d.manager msg).0 })
unfolding handle
handled c d (addr _ addresses) r = next r (discovers (map address_text addresses))
handled c d (Message.version _) r = r
handled c d (Message.verack _) r = r
handled c d (Message.headers _) r = r
handled c d (Message.inv _) r = r
handled c d (Message.block _) r = r
handled c d (Message.tx _) r = r
handled c d (Message.reject _) r = r

-- Handling any message leads a reachable client to a reachable one; and after an addr message,
-- whether a callback is set for it or not, every address in it is managed or the manager is full.
pub handle-Reach :
    {Payload : Type 0} (c d : BtcClient) (msg : Message Payload) (content : Payload)
    (list : List NetAddress)
    → Reach c d
    → Reach c (record d { manager = (handle d.manager msg).0 })
      × CoveredOrFull (map address_text list) (handle d.manager (addr content list)).0
unfolding handle
handle-Reach c d msg content list r =
    (handled c d msg r, add_discovered_peers-covers (map address_text list) d.manager)
