-- ===== src/Btcclient/Manager/Progress.antt =====
-- pkg/btcclient/manager.go: connectionLoop after the channel done is closed, with no connection up: a
-- goroutine that has not returned can make a step.
use brewery_bitcoin.Btcclient.Peer.{
  ManagedPeer, Link, up, down, Point, top, dialing, opened, evicting, attached, waiting, exited,
  cancel_and_disconnect, set_status, increment_failure, reset_failures, clear_peer, go_to,
}
use brewery_bitcoin.Btcclient.Manager.{PeerManager, remove_peer, evict_peer}
use brewery_bitcoin.Btcclient.Manager.Loop.{
  Choice, proceed, dial_error, woken, Moved, moved, panicked, exit_loop, fail, connect, detach,
  after_wait, step_from, loop_step,
}
use brewery_bitcoin.Btcclient.Manager.Goroutines.{weight, running}
use brewery_bitcoin.Prelude.{
  ℕ, zero, suc, ◌<◌, ◌≡◌, refl, ◌∙◌, ◌≢◌, inl, inr, Bool, true, false, Option, none, some, List, [],
  ◌∷◌, arith, ◌==◌, Bool-cases, Option-cases, get_elem?, All, lookup, modify,
}

abbrev pub is_up : Option Link → Bool
is_up none = false
is_up (some up) = true
is_up (some down) = false

abbrev pub IsDown : ManagedPeer → Type 0
IsDown mp = is_up mp.peer ≡ false

All-modify :
    (id : ℕ) (f : ManagedPeer → ManagedPeer) (heap : List ManagedPeer)
    → ((x : ManagedPeer) → IsDown x → IsDown (f x))
    → All IsDown heap
    → All IsDown (modify id f heap)
unfolding modify
All-modify id f [] keeps h = tt
All-modify zero f (x ∷ heap) keeps h = (keeps x h.0, h.1)
All-modify (suc id) f (x ∷ heap) keeps h = (h.0, All-modify id f heap keeps h.1)

All-evict_peer :
    (pm : PeerManager) (id : ℕ) → All IsDown pm.heap → All IsDown (evict_peer pm id).heap
unfolding evict_peer remove_peer cancel_and_disconnect
All-evict_peer pm id h = elim (Option-cases (get_elem? pm.heap id)) [
  | inl absent ↦ rw (absent, evict_peer) h
  | inr (mp, there) ↦ elim (Option-cases (lookup mp.address pm.peers)) [
    | inl unknown ↦ rw (there, evict_peer) (rw (unknown, remove_peer) h)
    | inr (id', managed) ↦
        rw (there, evict_peer)
          (rw (managed, remove_peer)
            (All-modify id' cancel_and_disconnect pm.heap (λ x d. ground arith) h))
  ]
]

-- a step that is possible, and what it leaves
abbrev pub CanStep : PeerManager → (Choice → Moved) → Type 0
CanStep pm step =
    (choice : Choice) × (pm' : PeerManager) × (step choice ≡ moved pm')
    × (All IsDown pm.heap → All IsDown pm'.heap)

from_attached :
    (pm : PeerManager) (id : ℕ) (l : Option Link)
    → is_up l ≡ false
    → after_wait pm id l ≢ panicked
    → (pm' : PeerManager) × (after_wait pm id l ≡ moved pm')
      × (All IsDown pm.heap → All IsDown pm'.heap)
unfolding detach set_status clear_peer
from_attached pm id none h sound = absurd (sound refl)
from_attached pm id (some up) h sound = absurd (cc h)
from_attached pm id (some down) h sound = (_, refl, All-modify id detach pm.heap (λ x d. refl))

from_point :
    (pm : PeerManager) (id : ℕ) (mp : ManagedPeer) (p : Point)
    → pm.is_done ≡ true
    → IsDown mp
    → weight p ≡ 1
    → ((choice : Choice) → step_from pm id mp p choice ≢ panicked)
    → CanStep pm (step_from pm id mp p)
unfolding step_from fail connect set_status increment_failure reset_failures
from_point pm id mp exited done d w sound = absurd (omega arith)
from_point pm id mp top done d w sound =
    (proceed, exit_loop pm id, rw done refl, All-modify id (go_to exited) pm.heap (λ x h. h))
from_point pm id mp dialing done d w sound =
    (dial_error, _, refl, All-modify id (fail pm.max_failure_count) pm.heap (λ x h. h))
from_point pm id mp opened done d w sound =
    (proceed, _, refl, All-modify id connect pm.heap (λ x h. h))
from_point pm id mp evicting done d w sound = (
  proceed,
  _,
  refl,
  λ h. All-modify id (go_to exited) (evict_peer pm id).heap (λ x h'. h') (All-evict_peer pm id h),
)
from_point pm id mp attached done d w sound =
    let (pm', e, keeps) = from_attached pm id mp.peer d (sound proceed) in (proceed, pm', e, keeps)
from_point pm id mp waiting done d w sound =
    (woken, exit_loop pm id, rw done refl, All-modify id (go_to exited) pm.heap (λ x h. h))

pub can_step :
    (pm : PeerManager) (id : ℕ) (mp : ManagedPeer)
    → pm.is_done ≡ true
    → get_elem? pm.heap id ≡ some mp
    → IsDown mp
    → weight mp.point ≡ 1
    → ((choice : Choice) → loop_step pm id choice ≢ panicked)
    → CanStep pm (loop_step pm id)
unfolding loop_step
can_step pm id mp done there d w sound =
    let same_step : (choice : Choice)
        → loop_step pm id choice ≡ step_from pm id mp mp.point choice =
      λ choice. rw (there, loop_step) refl in
    let (choice, pm', e, keeps) =
      from_point pm id mp mp.point done d w (λ choice e. sound choice (same_step choice ∙ e)) in
    (choice, pm', same_step choice ∙ e, keeps)

-- a goroutine that has not returned
pub some_running :
    (heap : List ManagedPeer)
    → 0 < running heap
    → All IsDown heap
    → (id : ℕ) × (mp : ManagedPeer) × (get_elem? heap id ≡ some mp)
      × (weight mp.point ≡ 1)
      × IsDown mp
some_running [] h d = elim h [ ]
some_running (mp ∷ heap) h d = elim (Bool-cases (weight mp.point == 1)) [
  | inl here ↦ (0, mp, refl, ground arith, d.0)
  | inr returned ↦
      let (id, mp', there, w, d') =
        some_running heap (omega (arith, h, weight-cases mp.point returned)) d.1 in
      (suc id, mp', there, w, d')
]
  where
    weight-cases : (p : Point) → (weight p == 1) ≡ false → weight p ≡ 0
    weight-cases p h = ground (arith, h)
