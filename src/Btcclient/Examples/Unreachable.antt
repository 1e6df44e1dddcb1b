-- ===== src/Btcclient/Examples/Unreachable.antt =====
-- The eviction of a peer that cannot be dialled, at a new peer with a threshold of 3.
use brewery_bitcoin.Btcclient.Peer.{ManagedPeer, new_managed_peer, exited}
use brewery_bitcoin.Btcclient.Manager.{PeerManager}
use brewery_bitcoin.Btcclient.Manager.Driven.{drive, failed_tries, last_try}
use brewery_bitcoin.Btcclient.Manager.Unreachable.{evicted_after_failures}
use brewery_bitcoin.Btcclient.Examples.{address, failing}
use brewery_bitcoin.Prelude.{
  ℕ, ◌+◌, ◌≤◌, ◌≡◌, refl, false, some, [], ◌∷◌, ◌++◌, arith, get_elem?, pos, same, lookup, remove,
}

abbrev trying : PeerManager
trying = record failing { heap = new_managed_peer address false ∷ [] }

evicted_after_failures_example :
    ((n : ℕ)
      → n ≤ 2
      → (pm' : PeerManager) × (mp' : ManagedPeer) × (drive trying 0 (failed_tries n) ≡ some pm')
        × (pm'.peers ≡ trying.peers)
        × (get_elem? pm'.heap 0 ≡ some mp')
        × (mp'.failure_count ≡ pos (0 + n)))
    × (pm' : PeerManager) × (mp' : ManagedPeer) × (drive trying 0 (failed_tries 2 ++ last_try)
        ≡ some pm')
    × (pm'.peers ≡ remove address trying.peers)
    × (pm'.wg ≡ 0)
    × (get_elem? pm'.heap 0 ≡ some mp')
    × (mp'.point ≡ exited)
    × (mp'.failure_count ≡ pos 3)
unfolding new_managed_peer lookup same
evicted_after_failures_example =
    evicted_after_failures {m = 3} (omega arith) 2 0 trying (new_managed_peer address false) refl
      (record {
        there = refl;
        managed = refl;
        at_top = refl;
        failures = refl;
        not_cancelled = refl;
        not_done = refl;
        threshold = refl;
      })
