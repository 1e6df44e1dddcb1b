-- ===== src/Btcclient/Manager/Unreachable.antt =====
-- pkg/btcclient/manager.go: connectionLoop when every dial fails, up to the eviction of the peer.
use brewery_bitcoin.Btcclient.Peer.{
  ManagedPeer, top, dialing, evicting, waiting, exited, connecting, set_status, increment_failure,
  cancel_and_disconnect, go_to,
}
use brewery_bitcoin.Btcclient.Manager.{PeerManager, remove_peer, evict_peer}
use brewery_bitcoin.Btcclient.Manager.Loop.{
  Choice, proceed, dial_error, timer, exit_loop, write_peer, fail,
}
use brewery_bitcoin.Btcclient.Manager.Driven.{
  drive, failed_tries, last_try, top_step, failed_step, timer_step, evicting_step, drive-moved,
  drive-append, at_modified,
}
use brewery_bitcoin.Prelude.{
  ℕ, zero, suc, ◌+◌, ◌-◌, ◌≤◌, ◌<◌, ◌≡◌, refl, ap, ◌∙◌, subst, false, some, List, [], ◌∷◌, ◌++◌,
  arith, leb, if◌then◌else◌, get_elem?, pos, max_int32, increment, lookup, remove, get_elem?-modify,
}

-- The peer is managed under its address, nothing stops it, and its loop begins a round with `k`
-- failed dials behind it.
pub record IsTrying (m k id : ℕ) (pm : PeerManager) (mp : ManagedPeer) : Type 0 where
  pub there : get_elem? pm.heap id ≡ some mp
  pub managed : lookup mp.address pm.peers ≡ some id
  pub at_top : mp.point ≡ top
  pub failures : mp.failure_count ≡ pos k
  pub not_cancelled : mp.cancelled ≡ false
  pub not_done : pm.is_done ≡ false
  pub threshold : pm.max_failure_count ≡ pos m

module _ {m k id : ℕ} {pm : PeerManager} {mp : ManagedPeer} (fits : m ≤ max_int32)
    (h : IsTrying m k id pm mp) where
  abbrev dialed : ManagedPeer
  dialed = go_to dialing (set_status connecting mp)

  abbrev failed : ManagedPeer
  failed = fail pm.max_failure_count dialed

  abbrev at_dial : PeerManager
  at_dial = write_peer pm id (λ x. go_to dialing (set_status connecting x))

  abbrev after_dial : PeerManager
  after_dial = write_peer at_dial id (fail pm.max_failure_count)

  at_dial-there : get_elem? at_dial.heap id ≡ some dialed
  at_dial-there = at_modified pm id mp (λ x. go_to dialing (set_status connecting x)) h.there

  after_dial-there : get_elem? after_dial.heap id ≡ some failed
  after_dial-there = at_modified at_dial id dialed (fail pm.max_failure_count) at_dial-there

  -- a round up to the failure of the dial
  drive-failed :
      (rest : List Choice) → drive pm id (proceed ∷ dial_error ∷ rest) ≡ drive after_dial id rest
  drive-failed rest =
      drive-moved pm at_dial id proceed (dial_error ∷ rest)
        (top_step pm id mp h.there h.at_top h.not_cancelled h.not_done)
      ∙ drive-moved at_dial after_dial id dial_error rest
          (failed_step at_dial id dialed at_dial-there refl)

  failed-count : k < m → failed.failure_count ≡ pos (k + 1)
  unfolding fail increment_failure increment set_status
  failed-count below = ground (arith, h.failures, fits)

  failed-point : k < m → failed.point ≡ (if leb m (k + 1) then evicting else waiting)
  unfolding fail increment_failure increment set_status
  failed-point below = ground (arith, h.failures, h.threshold, fits)

module _ {m k id : ℕ} {pm : PeerManager} {mp : ManagedPeer} (fits : m ≤ max_int32) where
  -- A failed try below the threshold leaves the peer as it was, with one more failure.
  round :
      suc k < m
      → IsTrying m k id pm mp
      → (pm' : PeerManager) × (mp' : ManagedPeer) × (drive pm id (failed_tries 1) ≡ some pm')
        × (pm'.peers ≡ pm.peers)
        × (pm'.wg ≡ pm.wg)
        × (mp'.address ≡ mp.address)
        × IsTrying m (suc k) id pm' mp'
  unfolding drive fail increment_failure set_status
  round below h =
      let waits : (failed fits h).point ≡ waiting =
        ground (arith, failed-point fits h (omega (arith, below))) in
      let there = after_dial-there fits h in
      (
        write_peer (after_dial fits h) id (go_to top),
        go_to top (failed fits h),
        drive-failed fits h (timer ∷ [])
            ∙ drive-moved (after_dial fits h) _ id timer []
                (timer_step (after_dial fits h) id (failed fits h) there waits),
        refl,
        refl,
        refl,
        record {
          there = at_modified (after_dial fits h) id (failed fits h) (go_to top) there;
          managed = h.managed;
          at_top = refl;
          failures = failed-count fits h (omega (arith, below)) ∙ ap pos (omega arith);
          not_cancelled = h.not_cancelled;
          not_done = h.not_done;
          threshold = h.threshold;
        },
      )

  -- A failed try that reaches the threshold ends the goroutine and the management of the peer.
  last_round :
      suc k ≡ m
      → IsTrying m k id pm mp
      → (pm' : PeerManager) × (mp' : ManagedPeer) × (drive pm id last_try ≡ some pm')
        × (pm'.peers ≡ remove mp.address pm.peers)
        × (pm'.wg ≡ pm.wg - 1)
        × (get_elem? pm'.heap id ≡ some mp')
        × (mp'.point ≡ exited)
        × (mp'.failure_count ≡ pos m)
  unfolding drive evict_peer remove_peer cancel_and_disconnect fail increment_failure set_status
  last_round reached h =
      let evicts : (failed fits h).point ≡ evicting =
        ground (arith, failed-point fits h (omega (arith, reached))) in
      let there = after_dial-there fits h in
      let evicted = evict_peer (after_dial fits h) id in
      let at_evicted : get_elem? evicted.heap id ≡ some (cancel_and_disconnect (failed fits h)) =
        ground (
          arith,
          there,
          h.managed,
          get_elem?-modify id id cancel_and_disconnect (after_dial fits h).heap,
        ) in
      (
        exit_loop evicted id,
        go_to exited (cancel_and_disconnect (failed fits h)),
        drive-failed fits h (proceed ∷ [])
            ∙ drive-moved (after_dial fits h) _ id proceed []
                (evicting_step (after_dial fits h) id (failed fits h) there evicts),
        ground (arith, there, h.managed),
        ground (arith, there, h.managed),
        at_modified evicted id _ (go_to exited) at_evicted,
        refl,
        failed-count fits h (omega (arith, reached)) ∙ ap pos (omega (arith, reached)),
      )

module _ {m id : ℕ} (fits : m ≤ max_int32) where
  tries_below :
      (n k : ℕ) (pm : PeerManager) (mp : ManagedPeer)
      → k + n < m
      → IsTrying m k id pm mp
      → (pm' : PeerManager) × (mp' : ManagedPeer) × (drive pm id (failed_tries n) ≡ some pm')
        × (pm'.peers ≡ pm.peers)
        × (pm'.wg ≡ pm.wg)
        × (mp'.address ≡ mp.address)
        × IsTrying m (k + n) id pm' mp'
  unfolding drive
  tries_below zero k pm mp below h =
      (pm, mp, refl, refl, refl, refl, subst (λ n. IsTrying m n id pm mp) (omega arith) h)
  tries_below (suc n) k pm mp below h =
      let (pm1, mp1, ran1, peers1, wg1, address1, h1) = round fits (omega (arith, below)) h in
      let (pm2, mp2, ran2, peers2, wg2, address2, h2) =
        tries_below n (suc k) pm1 mp1 (omega (arith, below)) h1 in
      (
        pm2,
        mp2,
        drive-append (failed_tries 1) (failed_tries n) pm pm1 id ran1 ∙ ran2,
        peers2 ∙ peers1,
        wg2 ∙ wg1,
        address2 ∙ address1,
        subst (λ n. IsTrying m n id pm2 mp2) (omega arith) h2,
      )

  -- Let a peer that is managed, with `k` failed dials in a row behind it, begin a round of its
  -- loop, with nothing stopping it, and let the threshold `m` be an int32 above `k`. As long as
  -- fewer than `m - k` further dials fail, the peers managed do not change and the count is exact.
  -- After the failure of the `m - k`-th, the peer alone is removed, its goroutine has returned and
  -- is off the wait group's counter, and its count is `m`.
  pub evicted_after_failures :
      (d k : ℕ) (pm : PeerManager) (mp : ManagedPeer)
      → k + suc d ≡ m
      → IsTrying m k id pm mp
      → ((n : ℕ)
          → n ≤ d
          → (pm' : PeerManager) × (mp' : ManagedPeer) × (drive pm id (failed_tries n) ≡ some pm')
            × (pm'.peers ≡ pm.peers)
            × (get_elem? pm'.heap id ≡ some mp')
            × (mp'.failure_count ≡ pos (k + n)))
        × (pm' : PeerManager) × (mp' : ManagedPeer) × (drive pm id (failed_tries d ++ last_try)
            ≡ some pm')
        × (pm'.peers ≡ remove mp.address pm.peers)
        × (pm'.wg ≡ pm.wg - 1)
        × (get_elem? pm'.heap id ≡ some mp')
        × (mp'.point ≡ exited)
        × (mp'.failure_count ≡ pos m)
  evicted_after_failures d k pm mp reached h =
      let (pm1, mp1, ran1, peers1, wg1, address1, h1) =
        tries_below d k pm mp (omega (arith, reached)) h in
      let (pm2, mp2, ran2, peers2, wg2, there2, point2, count2) =
        last_round fits (omega (arith, reached)) h1 in
      (
        λ n within.
            let (pm3, mp3, ran3, peers3, wg3, address3, h3) =
              tries_below n k pm mp (omega (arith, reached, within)) h in
            (pm3, mp3, ran3, peers3, h3.there, h3.failures),
        pm2,
        mp2,
        drive-append (failed_tries d) last_try pm pm1 id ran1 ∙ ran2,
        peers2 ∙ ap (λ a. remove a pm1.peers) address1 ∙ ap (λ p. remove mp.address p) peers1,
        wg2 ∙ ap (λ n. n - 1) wg1,
        there2,
        point2,
        count2,
      )
