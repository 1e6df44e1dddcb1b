-- ===== src/Btcclient/Manager/Orphans.antt =====
-- pkg/btcclient/manager.go: removePeer while connectionLoop is in dial. The dial honours the
-- cancelled context only until its connection is made; between that and setPeer the peer can be
-- removed.
use brewery_bitcoin.Btcclient.Peer.{
  ManagedPeer, dialing, opened, attached, up, cancel_and_disconnect, set_peer, set_status,
  reset_failures, go_to,
}
use brewery_bitcoin.Btcclient.Manager.{
  PeerManager, remove_peer, notify_if, peer_connected, addresses_asked,
}
use brewery_bitcoin.Btcclient.Manager.Loop.{
  Choice, moved, blocked, proceed, dial_ok, dial_error, timer, woken, connect, step_from, loop_step,
  write_peer,
}
use brewery_bitcoin.Btcclient.Manager.Driven.{dialed_step}
use brewery_bitcoin.Prelude.{
  ℕ, ◌≡◌, refl, true, none, some, is_some, arith, get_elem?, same_self, lookup, lookup-remove,
  modify, get_elem?-modify,
}

opened_step :
    (pm : PeerManager) (id : ℕ) (mp : ManagedPeer)
    → get_elem? pm.heap id ≡ some mp
    → mp.point ≡ opened
    → loop_step pm id proceed
      ≡ moved (record pm {
        heap = modify id connect pm.heap;
        notices =
            notify_if
              (is_some mp.peer)
              (addresses_asked id)
              (notify_if pm.listeners.on_peer_connected (peer_connected id) pm.notices);
      })
unfolding loop_step step_from
opened_step pm id mp there point = rw (loop_step, there, step_from, point) refl

attached_step :
    (pm : PeerManager) (id : ℕ) (mp : ManagedPeer) (choice : Choice)
    → get_elem? pm.heap id ≡ some mp
    → mp.point ≡ attached
    → mp.peer ≡ some up
    → loop_step pm id choice ≡ blocked
unfolding loop_step step_from
attached_step pm id mp proceed there point link = rw (loop_step, there, step_from, point, link) refl
attached_step pm id mp dial_ok there point link = rw (loop_step, there, step_from, point) refl
attached_step pm id mp dial_error there point link = rw (loop_step, there, step_from, point) refl
attached_step pm id mp timer there point link = rw (loop_step, there, step_from, point) refl
attached_step pm id mp woken there point link = rw (loop_step, there, step_from, point) refl

-- If a peer is removed while its goroutine dials, and the dial then succeeds, two steps later its
-- goroutine waits on an open connection: the address is no longer managed, no step of the goroutine
-- is possible, and its connection is up though its context is cancelled.
pub removed_while_dialing :
    (pm : PeerManager) (id : ℕ) (mp : ManagedPeer)
    → get_elem? pm.heap id ≡ some mp
    → lookup mp.address pm.peers ≡ some id
    → mp.point ≡ dialing
    → (pm1 : PeerManager) × (pm2 : PeerManager) × (orphan : ManagedPeer) × (loop_step
          (remove_peer pm mp.address).0
          id
          dial_ok
        ≡ moved pm1)
      × (loop_step pm1 id proceed ≡ moved pm2)
      × (lookup mp.address pm2.peers ≡ none)
      × (get_elem? pm2.heap id ≡ some orphan)
      × (orphan.peer ≡ some up)
      × (orphan.cancelled ≡ true)
      × ((choice : Choice) → loop_step pm2 id choice ≡ blocked)
unfolding remove_peer cancel_and_disconnect set_peer set_status reset_failures connect
removed_while_dialing pm id mp there managed point =
    let removed = (remove_peer pm mp.address).0 in
    let dialed = write_peer removed id (λ x. go_to opened (set_peer up x)) in
    let served = record dialed {
      heap = modify id connect dialed.heap;
      notices =
          notify_if true (addresses_asked id)
            (notify_if dialed.listeners.on_peer_connected (peer_connected id) dialed.notices);
    } in
    let orphan = connect (go_to opened (set_peer up (cancel_and_disconnect mp))) in
    let at_removed : get_elem? removed.heap id ≡ some (cancel_and_disconnect mp) =
      ground (arith, managed, there, get_elem?-modify id id cancel_and_disconnect pm.heap) in
    let at_dialed : get_elem? dialed.heap id
        ≡ some (go_to opened (set_peer up (cancel_and_disconnect mp))) =
      ground (
        arith,
        at_removed,
        get_elem?-modify id id (λ x. go_to opened (set_peer up x)) removed.heap,
      ) in
    let at_served : get_elem? served.heap id ≡ some orphan =
      ground (arith, at_dialed, get_elem?-modify id id connect dialed.heap) in
    (
      dialed,
      served,
      orphan,
      dialed_step removed id (cancel_and_disconnect mp) at_removed point,
      opened_step dialed id (go_to opened (set_peer up (cancel_and_disconnect mp))) at_dialed refl,
      ground (arith, managed, lookup-remove mp.address mp.address pm.peers, same_self mp.address),
      at_served,
      refl,
      refl,
      λ choice. attached_step served id orphan choice at_served refl refl,
    )
