-- ===== src/Btcclient/Manager/Driven.antt =====
-- pkg/btcclient/manager.go: the goroutine of one peer, driven through a list of choices.
use brewery_bitcoin.Btcclient.Peer.{
  ManagedPeer, top, dialing, opened, evicting, waiting, up, set_peer, connecting, set_status, go_to,
}
use brewery_bitcoin.Btcclient.Manager.{PeerManager, evict_peer}
use brewery_bitcoin.Btcclient.Manager.Loop.{
  Choice, proceed, dial_ok, dial_error, timer, Moved, moved, blocked, panicked, exit_loop,
  write_peer, fail, step_from, loop_step,
}
use brewery_bitcoin.Prelude.{
  ℕ, zero, suc, ◌≡◌, refl, ap, false, Option, none, some, List, [], ◌∷◌, ◌++◌, arith, get_elem?,
  modify, get_elem?-modify,
}

-- the goroutine of a peer alone, as long as it can move
unfoldable pub drive : PeerManager → ℕ → List Choice → Option PeerManager
drive pm id [] = some pm
drive pm id (choice ∷ rest) = elim (loop_step pm id choice) [
  | moved pm' ↦ drive pm' id rest
  | blocked ↦ none
  | panicked ↦ none
]

-- tries that fail, each up to where the loop begins again
abbrev pub failed_tries : ℕ → List Choice
failed_tries zero = []
failed_tries (suc n) = proceed ∷ dial_error ∷ timer ∷ failed_tries n

-- a try that fails and after which the peer is evicted
abbrev pub last_try : List Choice
last_try = proceed ∷ dial_error ∷ proceed ∷ []

pub at_modified :
    (pm : PeerManager) (id : ℕ) (mp : ManagedPeer) (f : ManagedPeer → ManagedPeer)
    → get_elem? pm.heap id ≡ some mp
    → get_elem? (modify id f pm.heap) id ≡ some (f mp)
at_modified pm id mp f there = ground (arith, there, get_elem?-modify id id f pm.heap)

module _ (pm : PeerManager) (id : ℕ) (mp : ManagedPeer) where
  pub top_step :
      get_elem? pm.heap id ≡ some mp
      → mp.point ≡ top
      → mp.cancelled ≡ false
      → pm.is_done ≡ false
      → loop_step pm id proceed
        ≡ moved (write_peer pm id (λ x. go_to dialing (set_status connecting x)))
  unfolding loop_step step_from
  top_step there point alive running = rw (loop_step, there, step_from, point, alive, running) refl

  pub failed_step :
      get_elem? pm.heap id ≡ some mp
      → mp.point ≡ dialing
      → loop_step pm id dial_error ≡ moved (write_peer pm id (fail pm.max_failure_count))
  unfolding loop_step step_from
  failed_step there point = rw (loop_step, there, step_from, point) refl

  pub dialed_step :
      get_elem? pm.heap id ≡ some mp
      → mp.point ≡ dialing
      → loop_step pm id dial_ok ≡ moved (write_peer pm id (λ x. go_to opened (set_peer up x)))
  unfolding loop_step step_from
  dialed_step there point = rw (loop_step, there, step_from, point) refl

  pub timer_step :
      get_elem? pm.heap id ≡ some mp
      → mp.point ≡ waiting
      → loop_step pm id timer ≡ moved (write_peer pm id (go_to top))
  unfolding loop_step step_from
  timer_step there point = rw (loop_step, there, step_from, point) refl

  pub evicting_step :
      get_elem? pm.heap id ≡ some mp
      → mp.point ≡ evicting
      → loop_step pm id proceed ≡ moved (exit_loop (evict_peer pm id) id)
  unfolding loop_step step_from
  evicting_step there point = rw (loop_step, there, step_from, point) refl

pub drive-moved :
    (pm pm' : PeerManager) (id : ℕ) (choice : Choice) (rest : List Choice)
    → loop_step pm id choice ≡ moved pm'
    → drive pm id (choice ∷ rest) ≡ drive pm' id rest
unfolding drive
drive-moved pm pm' id choice rest e = rw (drive, e) refl

pub drive-append :
    (xs ys : List Choice) (pm pm' : PeerManager) (id : ℕ)
    → drive pm id xs ≡ some pm'
    → drive pm id (xs ++ ys) ≡ drive pm' id ys
unfolding drive
drive-append [] ys pm pm' id e = ap (λ o. elim o [ none ↦ none | some p ↦ drive p id ys ]) e
drive-append (x ∷ xs) ys pm pm' id e =
    after (loop_step pm id x) (λ p. drive-append xs ys p pm' id) e
  where
    after :
        (r : Moved)
        → ((p : PeerManager) → drive p id xs ≡ some pm' → drive p id (xs ++ ys) ≡ drive pm' id ys)
        → elim r [ moved p ↦ drive p id xs | blocked ↦ none | panicked ↦ none ] ≡ some pm'
        → elim r [ moved p ↦ drive p id (xs ++ ys) | blocked ↦ none | panicked ↦ none ]
          ≡ drive pm' id ys
    after (moved p) step h = step p h
    after blocked step h = absurd (cc h)
    after panicked step h = absurd (cc h)
