-- ===== src/Btcclient/Examples/Dialing.antt =====
-- A dial of the network where the connection is made and the btcd peer refuses it.
use brewery_bitcoin.Btcclient.Config.{no_listeners}
use brewery_bitcoin.Btcclient.Peer.{ManagedPeer, new_managed_peer, dialing, connecting}
use brewery_bitcoin.Btcclient.Manager.Loop.{moved, loop_step}
use brewery_bitcoin.Btcclient.Manager.{PeerManager}
use brewery_bitcoin.Btcclient.Dial.{Network, Dialer, PeerConnectionError, dial, error_text}
use brewery_bitcoin.Btcclient.Dial.Outcome.{
  choice_of, after_dial, opened_by, kept_by, dial-loop_step,
}
use brewery_bitcoin.Btcclient.Examples.{address, dialer}
use brewery_bitcoin.Prelude.{
  ℕ, ◌≡◌, refl, false, not, none, some, ◌++◌, if◌then◌else◌, is_some, get_elem?, pos, Bytes, codes,
  ok, err, map_option,
}

abbrev network : Network ℕ
network = record {
  Conn = Bytes;
  Remote = Bytes;
  Cause = Bytes;
  cause_text = λ e. e;
  sf_node_network = 1;
  dial_context = λ timeout cancelled a. if cancelled then err (codes "cancelled") else ok a;
  new_outbound_peer = λ cfg a. err (codes "no peer");
}

abbrev settings : Dialer network
settings = record { chain_params = 0; connection_timeout = pos 10; listeners = no_listeners }

abbrev dialed : ManagedPeer
dialed = record (new_managed_peer address false) { point = dialing; status = connecting }

dial-loop_step_example :
    (pm' : PeerManager) × (loop_step dialer 0 (choice_of (dial settings dialed).failure)
      ≡ moved pm')
    × (get_elem? pm'.heap 0
        ≡ some (after_dial (pos 3) (dial settings dialed).failure (dial settings dialed).peer))
    × (opened_by (network.dial_context (pos 10) dialed.cancelled dialed.address)
        ≡ kept_by (dial settings dialed).remote ++ (dial settings dialed).closed)
    × (is_some (dial settings dialed).remote ≡ not (is_some (dial settings dialed).failure))
    × (map_option (λ (x : PeerConnectionError Bytes). x.address) (dial settings dialed).failure
        ≡ (if is_some (dial settings dialed).failure then some dialed.address else none))
unfolding new_managed_peer
dial-loop_step_example = dial-loop_step settings dialer 0 dialed refl refl

-- the text of an error
refused_text :
    error_text network (record { address = codes "a:1"; cause = codes "no peer" })
    ≡ codes "btcclient: peer a:1 connection failed: no peer"
unfolding error_text
refused_text = refl
