-- ===== src/Indexer/Lifecycle/Restart.antt =====
-- indexer/indexer.go: Start and Stop of an indexer that was stopped before.
use brewery_bitcoin.Btcclient.Client.{BtcClient}
use brewery_bitcoin.Btcclient.Client
use brewery_bitcoin.Btcclient.Client.Steps.{Reach}
use brewery_bitcoin.Btcclient.Client.Stopping.{second_stop_panics}
use brewery_bitcoin.Indexer.Base.{Chaincfg, not_running}
use brewery_bitcoin.Indexer.Lifecycle.{
  Indexer, returned, panicked, waiting_for, stop_client, stop_begin,
}
use brewery_bitcoin.Prelude.{◌≡◌, ap, ◌∙◌, Bool, true, not, arith, if◌then◌else◌}

module _ {chain : Chaincfg} {Header : Type 0} where
  client_waits :
      (i j : Indexer chain Header) (b : Client.StopBegin)
      → stop_client i b ≡ waiting_for j
      → b ≡ Client.waiting_for j.client
  client_waits i j (Client.refused e) h = absurd (cc h)
  client_waits i j Client.panicked h = absurd (cc h)
  client_waits i j (Client.waiting_for c) h = cc h

  -- If Stop of a running indexer has begun to wait, then Stop panics at every later time at which the
  -- indexer runs and its client is started, whatever steps the client has made in between.
  pub stop_after_stop_panics :
      (i j k : Indexer chain Header)
      → stop_begin i ≡ waiting_for j
      → Reach j.client k.client
      → k.running ≡ true
      → k.client.manager.started ≡ true
      → stop_begin k ≡ panicked
  unfolding stop_begin
  stop_after_stop_panics i j k begun reached running started =
      let runs : i.running ≡ true = ground (arith, begun) in
      let waits = client_waits i j (Client.stop_begin i.client) (ground (arith, begun, runs)) in
      ap
        (λ (b : Bool).
          if not b then returned k not_running else stop_client k (Client.stop_begin k.client))
        running
      ∙ ap (stop_client k) (second_stop_panics i.client j.client k.client waits reached started)
