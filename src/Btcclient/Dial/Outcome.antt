-- ===== src/Btcclient/Dial/Outcome.antt =====
-- pkg/btcclient/manager.go: what a dial leaves behind, and the step of connectionLoop that it is.
use brewery_bitcoin.Btcclient.Dial.{Network, PeerConnectionError, Dialer, peer_config, dial}
use brewery_bitcoin.Btcclient.Peer.{ManagedPeer, dialing, opened, up, set_peer, go_to}
use brewery_bitcoin.Btcclient.Manager.{PeerManager}
use brewery_bitcoin.Btcclient.Manager.Loop.{
  Choice, dial_ok, dial_error, moved, fail, write_peer, loop_step,
}
use brewery_bitcoin.Btcclient.Manager.Driven.{failed_step, dialed_step, at_modified}
use brewery_bitcoin.Prelude.{
  ℕ, ◌≡◌, refl, inl, inr, not, Option, none, some, List, [], ◌∷◌, ◌++◌, if◌then◌else◌, is_some,
  get_elem?, ℤ, Result, ok, err, map_option, Result-cases,
}

module _ {Cause : Type 0} where
  -- the choice of the environment that an outcome is
  abbrev pub choice_of : Option (PeerConnectionError Cause) → Choice
  choice_of none = dial_ok
  choice_of (some e) = dial_error

  -- where the goroutine goes with it, for a failure threshold
  abbrev pub after_dial : ℤ → Option (PeerConnectionError Cause) → ManagedPeer → ManagedPeer
  after_dial limit none mp = go_to opened mp
  after_dial limit (some e) mp = fail limit mp

-- the connection that a dial opens, and the one that the btcd peer has
abbrev pub opened_by : {E A : Type 0} → Result E A → List A
opened_by (err e) = []
opened_by (ok conn) = conn ∷ []

abbrev pub kept_by : {R A : Type 0} → Option (R × A) → List A
kept_by none = []
kept_by (some (p, conn)) = conn ∷ []

module _ {Params : Type 0} {net : Network Params} (d : Dialer net) where
  -- The step of connectionLoop out of dial is the outcome of the dial: with an error the peer goes
  -- on as it was, with the failure counted, else it goes on with its connection. No connection
  -- leaks: what the dial opens, if anything, it keeps for the btcd peer, if there is no error, and
  -- closes otherwise. An error carries the address of the peer.
  pub dial-loop_step :
      (pm : PeerManager) (id : ℕ) (mp : ManagedPeer)
      → get_elem? pm.heap id ≡ some mp
      → mp.point ≡ dialing
      → (pm' : PeerManager) × (loop_step pm id (choice_of (dial d mp).failure) ≡ moved pm')
        × (get_elem? pm'.heap id
            ≡ some (after_dial pm.max_failure_count (dial d mp).failure (dial d mp).peer))
        × (opened_by (net.dial_context d.connection_timeout mp.cancelled mp.address)
            ≡ kept_by (dial d mp).remote ++ (dial d mp).closed)
        × (is_some (dial d mp).remote ≡ not (is_some (dial d mp).failure))
        × (map_option (λ (x : PeerConnectionError net.Cause). x.address) (dial d mp).failure
            ≡ (if is_some (dial d mp).failure then some mp.address else none))
  unfolding dial set_peer
  dial-loop_step pm id mp there point =
      let f = fail pm.max_failure_count in
      let counted = at_modified pm id mp f there in
      let step = failed_step pm id mp there point in
      elim (Result-cases (net.dial_context d.connection_timeout mp.cancelled mp.address)) [
        | inl (e, refused) ↦
            rw (dial, refused) (write_peer pm id f, step, counted, refl, refl, refl)
        | inr (conn, made) ↦
            elim (Result-cases (net.new_outbound_peer (peer_config d mp) mp.address)) [
              | inl (e, bad) ↦
                  rw (dial, made, bad) (write_peer pm id f, step, counted, refl, refl, refl)
              | inr (p, good) ↦
                  rw (dial, made, good)
                    (
                      write_peer pm id (λ x. go_to opened (set_peer up x)),
                      dialed_step pm id mp there point,
                      at_modified pm id mp (λ x. go_to opened (set_peer up x)) there,
                      refl,
                      refl,
                      refl,
                    )
            ]
      ]
