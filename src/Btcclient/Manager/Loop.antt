-- ===== src/Btcclient/Manager/Loop.antt =====
-- connectionLoop of pkg/btcclient/manager.go as a machine: the goroutine of one peer, stepped from
-- one point to the next. The environment chooses how a dial ends and what waitOrCancel wakes for.
use brewery_bitcoin.Btcclient.Peer.{
  ManagedPeer, Link, up, down, Point, top, dialing, opened, evicting, attached, waiting, exited,
  disconnected, connecting, connected, set_status, increment_failure, reset_failures, clear_peer,
  set_peer, go_to,
}
use brewery_bitcoin.Btcclient.Manager.{
  PeerManager, peer_connected, peer_disconnected, addresses_asked, notify_if, evict_peer,
}
use brewery_bitcoin.Prelude.{
  ℕ, ◌-◌, Bool, true, ◌||◌, Option, none, some, if◌then◌else◌, is_some, get_elem?, ℤ, lebℤ, modify,
}

-- What the environment decides of the next step.
pub data Choice : Type 0 where
  proceed : Choice
  dial_ok : Choice
  dial_error : Choice
  timer : Choice  -- the timer of waitOrCancel
  woken : Choice  -- the channel done, or the context

-- `blocked`: the goroutine cannot make this step now. `panicked`: a nil pointer is dereferenced.
pub data Moved : Type 0 where
  moved : PeerManager → Moved
  blocked : Moved
  panicked : Moved

-- `return`, with the deferred `pm.wg.Done()`
abbrev pub exit_loop : PeerManager → ℕ → PeerManager
exit_loop pm id = record pm { heap = modify id (go_to exited) pm.heap; wg = pm.wg - 1 }

abbrev pub write_peer : PeerManager → ℕ → (ManagedPeer → ManagedPeer) → PeerManager
write_peer pm id f = record pm { heap = modify id f pm.heap }

abbrev pub stopping : PeerManager → ManagedPeer → Bool
stopping pm mp = pm.is_done || mp.cancelled

-- a failed dial: the count goes up, and decides between eviction and another try
unfoldable pub fail : ℤ → ManagedPeer → ManagedPeer
unfolding increment_failure set_status
fail limit mp =
    let mp' = increment_failure (set_status disconnected mp) in
    go_to (if lebℤ limit mp'.failure_count then evicting else waiting) mp'

unfoldable pub connect : ManagedPeer → ManagedPeer
unfolding set_status reset_failures
connect mp = go_to attached (reset_failures (set_status connected mp))

unfoldable pub detach : ManagedPeer → ManagedPeer
unfolding set_status clear_peer
detach mp = go_to waiting (clear_peer (set_status disconnected mp))

-- `mp.Peer().WaitForDisconnect()` and what follows it
abbrev pub after_wait : PeerManager → ℕ → Option Link → Moved
after_wait pm id none = panicked
after_wait pm id (some up) = blocked
after_wait pm id (some down) = moved (record pm {
  heap = modify id detach pm.heap;
  notices = notify_if pm.listeners.on_peer_disconnected (peer_disconnected id) pm.notices;
})

unfoldable pub step_from : PeerManager → ℕ → ManagedPeer → Point → Choice → Moved
unfolding fail connect detach set_status set_peer
step_from pm id mp top proceed =
    if stopping pm mp
    then moved (exit_loop pm id)
    else moved (write_peer pm id (λ x. go_to dialing (set_status connecting x)))
step_from pm id mp dialing dial_ok = moved (write_peer pm id (λ x. go_to opened (set_peer up x)))
step_from pm id mp dialing dial_error = moved (write_peer pm id (fail pm.max_failure_count))
step_from pm id mp evicting proceed = moved (exit_loop (evict_peer pm id) id)
step_from pm id mp opened proceed = moved (record pm {
  heap = modify id connect pm.heap;
  notices =
      notify_if (is_some mp.peer) (addresses_asked id)
        (notify_if pm.listeners.on_peer_connected (peer_connected id) pm.notices);
})
step_from pm id mp attached proceed = after_wait pm id mp.peer
step_from pm id mp waiting timer = moved (write_peer pm id (go_to top))
step_from pm id mp waiting woken = if stopping pm mp then moved (exit_loop pm id) else blocked
step_from pm id mp _ _ = blocked

-- One step of the goroutine of the peer with this identity.
unfoldable pub loop_step : PeerManager → ℕ → Choice → Moved
unfolding step_from
loop_step pm id choice = elim (get_elem? pm.heap id) [
  | none ↦ blocked
  | some mp ↦ step_from pm id mp mp.point choice
]

-- The remote end closes a connection.
unfoldable pub remote_close : PeerManager → ℕ → PeerManager
remote_close pm id =
    write_peer pm id (λ mp. record mp { peer = elim mp.peer [ none ↦ none | some _ ↦ some down ] })

-- The owner of the context that AddPeer was given cancels it.
unfoldable pub cancel_context : PeerManager → ℕ → PeerManager
cancel_context pm id = write_peer pm id (λ mp. record mp { cancelled = true })
