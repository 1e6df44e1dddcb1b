-- ===== src/Indexer/Connected.antt =====
-- indexer/indexer.go: what connectPeers reports, against the number of peers it added.
use brewery_bitcoin.Btcclient.Base.{ClientError}
use brewery_bitcoin.Btcclient.Client.{BtcClient, peer_count}
use brewery_bitcoin.Btcclient.Client
use brewery_bitcoin.Btcclient.Manager
use brewery_bitcoin.Btcclient.Manager.{spawn}
use brewery_bitcoin.Indexer.Base.{all_peers_failed}
use brewery_bitcoin.Indexer.Peers.{add_each, connect_peers, length-add_each}
use brewery_bitcoin.Prelude.{
  ℕ, suc, ◌+◌, ◌≤◌, ◌<◌, ◌≡◌, refl, ◌↔◌, Bool, false, none, some, List, [], ◌∷◌, arith, ◌==◌,
  if◌then◌else◌, is_some, length, pos, lebℤ, Bytes, lookup, length-insert,
}

add_peer-counts :
    (c : BtcClient) (cancelled : Bool) (a : Bytes)
    → let (c', e) = Client.add_peer c cancelled a in
      peer_count c' ≡ (if is_some e then peer_count c else suc (peer_count c))
unfolding Client.add_peer Manager.add_peer spawn peer_count
add_peer-counts c cancelled a =
    ground (arith, length-insert a (length c.manager.heap) c.manager.peers)

-- Each address is added or fails.
add_each-counts :
    (cancelled : Bool) (xs : List Bytes) (c : BtcClient)
    → let (c', errs) = add_each cancelled c xs in
      peer_count c' + length errs ≡ peer_count c + length xs
unfolding add_each
add_each-counts cancelled [] c = refl
add_each-counts cancelled (x ∷ xs) c =
    let (c', e) = Client.add_peer c cancelled x in
    ground (arith, add_peer-counts c cancelled x, add_each-counts cancelled xs c')

reported :
    (errs : List (Bytes × ClientError)) (count before after : ℕ)
    → length errs ≤ count
    → after + length errs ≡ before + count
    → ((if length errs == count then some (all_peers_failed errs) else none) ≡ none)
      ↔ (before < after)
reported errs count before after few h = ground (arith, few, h)

-- connectPeers returns no error exactly when it has added a peer to the client.
pub connect_peers_lem :
    (cancelled : Bool) (c : BtcClient) (xs : List Bytes)
    → let (c', e) = connect_peers cancelled c xs in (e ≡ none) ↔ (peer_count c < peer_count c')
unfolding connect_peers
connect_peers_lem cancelled c [] = (λ h. absurd (cc h), λ h. absurd (omega (arith, h)))
connect_peers_lem cancelled c (x ∷ xs) =
    let (c', errs) = add_each cancelled c (x ∷ xs) in
    reported errs (length (x ∷ xs)) (peer_count c) (peer_count c')
      (length-add_each cancelled c (x ∷ xs)) (add_each-counts cancelled (x ∷ xs) c)

-- With room for the first address, which is new, connectPeers succeeds.
pub connect_peers-first :
    (cancelled : Bool) (c : BtcClient) (x : Bytes) (xs : List Bytes)
    → lookup x c.manager.peers ≡ none
    → lebℤ c.manager.max_peers (pos (peer_count c)) ≡ false
    → let (c', e) = connect_peers cancelled c (x ∷ xs) in
      (e ≡ none) × (peer_count c < peer_count c')
unfolding connect_peers Client.add_peer Manager.add_peer peer_count add_each
connect_peers-first cancelled c x xs absent room =
    let (c1, e) = Client.add_peer c cancelled x in
    let more : peer_count c < peer_count (connect_peers cancelled c (x ∷ xs)).0 = ground (
      arith,
      absent,
      room,
      add_peer-counts c cancelled x,
      add_each-counts cancelled xs c1,
      length-add_each cancelled c1 xs,
    ) in
    ((connect_peers_lem cancelled c (x ∷ xs)).1 more, more)

add_each-started :
    (cancelled : Bool) (xs : List Bytes) (c : BtcClient)
    → (add_each cancelled c xs).0.manager.started ≡ c.manager.started
unfolding add_each Client.add_peer Manager.add_peer spawn
add_each-started cancelled [] c = refl
add_each-started cancelled (x ∷ xs) c =
    let (c', e) = Client.add_peer c cancelled x in ground (arith, add_each-started cancelled xs c')

pub connect_peers-started :
    (cancelled : Bool) (xs : List Bytes) (c : BtcClient)
    → (connect_peers cancelled c xs).0.manager.started ≡ c.manager.started
unfolding connect_peers
connect_peers-started cancelled [] c = refl
connect_peers-started cancelled (x ∷ xs) c = add_each-started cancelled (x ∷ xs) c
