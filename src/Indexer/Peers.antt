-- ===== src/Indexer/Peers.antt =====
-- indexer/indexer.go: resolvePeers and connectPeers.
use brewery_bitcoin.Btcclient.Base.{ClientError}
use brewery_bitcoin.Btcclient.Client.{BtcClient}
use brewery_bitcoin.Btcclient.Client
use brewery_bitcoin.Indexer.Base.{Chaincfg, IndexerError, no_peers, all_peers_failed}
use brewery_bitcoin.Prelude.{
  ◌≤◌, Bool, Option, none, some, List, [], ◌∷◌, ◌++◌, map, arith, ◌==◌, if◌then◌else◌, is_some,
  length, Bytes, Dict, lookup, insert,
}

-- One of the two loops of resolvePeers, over the map seen and the slice peers.
unfoldable pub collect : Dict (Unit {0}) → List Bytes → List Bytes → Dict (Unit {0}) × List Bytes
collect seen peers [] = (seen, peers)
collect seen peers (addr ∷ rest) =
    let skipped = collect seen peers rest in
    let added = collect (insert addr tt seen) (peers ++ addr ∷ []) rest in
    if is_some (lookup addr seen) then skipped else added

module _ (chain : Chaincfg) where
  -- `fmt.Sprintf("%s:%s", seed.String(), DefaultPort)`
  unfoldable pub seed_addresses : chain.Params → List Bytes
  seed_addresses params =
      map (λ seed. seed ++ b':' ∷ chain.default_port params) (chain.dns_seeds params)

  unfoldable pub resolve_peers : List Bytes → chain.Params → List Bytes
  unfolding collect
  resolve_peers explicit params =
      let (seen, peers) = collect [] [] explicit in (collect seen peers (seed_addresses params)).1

-- The loop of connectPeers: the client, and the failures in order.
unfoldable pub add_each : Bool → BtcClient → List Bytes → BtcClient × List (Bytes × ClientError)
add_each cancelled c [] = (c, [])
add_each cancelled c (addr ∷ rest) =
    let (c', e) = Client.add_peer c cancelled addr in
    let (c'', errs) = add_each cancelled c' rest in
    (c'', elim e [ none ↦ errs | some x ↦ (addr, x) ∷ errs ])

-- connectPeers, on the resolved peers
unfoldable pub connect_peers : Bool → BtcClient → List Bytes → BtcClient × Option IndexerError
unfolding add_each
connect_peers cancelled c [] = (c, some no_peers)
connect_peers cancelled c (addr ∷ rest) =
    let (c', errs) = add_each cancelled c (addr ∷ rest) in
    (c', if length errs == length (addr ∷ rest) then some (all_peers_failed errs) else none)

-- There are at most as many failures as addresses.
pub length-add_each :
    (cancelled : Bool) (c : BtcClient) (xs : List Bytes)
    → length (add_each cancelled c xs).1 ≤ length xs
unfolding add_each
length-add_each cancelled c [] = omega arith
length-add_each cancelled c (x ∷ xs) =
    let (c', e) = Client.add_peer c cancelled x in ground (arith, length-add_each cancelled c' xs)
