-- ===== src/Indexer/System/TimedOut.antt =====
-- indexer/indexer.go: an indexer after a Stop whose time was over.
use brewery_bitcoin.Btcclient.Base.{client_already_started, stop_timeout}
use brewery_bitcoin.Btcclient.Client.{BtcClient, waiting_for}
use brewery_bitcoin.Btcclient.Client
use brewery_bitcoin.Btcclient.Client.Steps as ClientSteps
use brewery_bitcoin.Btcclient.Client.Stopping.{waiting_flags}
use brewery_bitcoin.Btcclient.Manager.Flags.{flags-add_peer}
use brewery_bitcoin.Indexer.Base.{
  Chaincfg, IndexerError, not_running, start_failed, shutdown_failed,
}
use brewery_bitcoin.Indexer.Config.{Config}
use brewery_bitcoin.Indexer.Lifecycle.{
  Indexer, client_options, new_indexer, returned, start, stop_begin, stop_end,
}
use brewery_bitcoin.Indexer.System.{
  Step, starts, stop_begins, stop_returns, stop_ends, connects, receives, works, Reach, here, next,
  is_internal,
}
use brewery_bitcoin.Indexer.System.Reached.{internal-started, on_headers-kept}
use brewery_bitcoin.Indexer.System.Guarantees.{new_client, safe}
use brewery_bitcoin.Prelude.{
  ◌≡◌, refl, sym, ap, ◌∙◌, subst, Bool, true, false, Option, some, List, arith, ok,
}

-- The steps that no call of the indexer makes leave `stopping` as it is.
internal-stopping :
    {c d : BtcClient} (s : ClientSteps.Step c d) → is_internal s ≡ true → d.stopping ≡ c.stopping
unfolding Client.health_tick Client.health_exit
internal-stopping (ClientSteps.starts _) h = absurd (cc h)
internal-stopping (ClientSteps.stop_begins _ _) h = absurd (cc h)
internal-stopping (ClientSteps.stop_ends _ _ _) h = absurd (cc h)
internal-stopping (ClientSteps.adds _ _ _) h = absurd (cc h)
internal-stopping (ClientSteps.removes _ _) h = absurd (cc h)
internal-stopping (ClientSteps.discovers _) h = refl
internal-stopping (ClientSteps.checks_health _) h = refl
internal-stopping (ClientSteps.health_exits _ _) h = refl
internal-stopping (ClientSteps.loops _ _ _) h = refl
internal-stopping (ClientSteps.remote_closes _) h = refl
internal-stopping (ClientSteps.context_cancelled _) h = refl

-- The indexer does not run, its client is started, and no call of Stop waits.
pub record IsStuck {chain : Chaincfg} {Header : Type 0} (i : Indexer chain Header) : Type 0 where
  pub not_running : i.running ≡ false
  pub started : i.client.manager.started ≡ true
  pub free : i.client.stopping ≡ false

module _ {chain : Chaincfg} {Header : Type 0} (block_hash : Header → chain.Hash) where
  start-stuck :
      (i : Indexer chain Header)
      → IsStuck i
      → start i ≡ (i, some (start_failed client_already_started))
  unfolding start Client.start
  start-stuck i h = ground (arith, h.not_running, h.started)

  stop_begin-stuck : (i : Indexer chain Header) → IsStuck i → stop_begin i ≡ returned i not_running
  unfolding stop_begin
  stop_begin-stuck i h = ground (arith, h.not_running)

  Step-IsStuck : {i j : Indexer chain Header} → Step block_hash i j → IsStuck i → IsStuck j
  unfolding Client.add_peer
  Step-IsStuck {i = i} (starts _) h = subst IsStuck (ap (λ r. r.0) (sym (start-stuck i h))) h
  Step-IsStuck {i = i} (stop_begins _ e) h = absurd (cc (sym (stop_begin-stuck i h) ∙ e))
  Step-IsStuck {i = i} {j = j} (stop_returns x _ e) h =
      let same_state : i ≡ j = cc (sym (stop_begin-stuck i h) ∙ e) in subst IsStuck same_state h
  Step-IsStuck {i = i} (stop_ends _ waits _) h = absurd (cc (waits, h.free))
  Step-IsStuck {i = i} (connects cancelled address _) h = record {
    not_running = h.not_running;
    started =
        ap (λ (f : Bool × Bool). f.1) (flags-add_peer i.client.manager cancelled address)
        ∙ h.started;
    free = h.free;
  }
  Step-IsStuck {i = i} (receives hs _) h =
      let same_kept = on_headers-kept block_hash hs i in
      record {
        not_running = ap (λ k. k.1.0) same_kept ∙ h.not_running;
        started = ap (λ k. k.0.manager.started) same_kept ∙ h.started;
        free = ap (λ k. k.0.stopping) same_kept ∙ h.free;
      }
  Step-IsStuck (works s internal) h = record {
    not_running = h.not_running;
    started = internal-started s internal ∙ h.started;
    free = internal-stopping s internal ∙ h.free;
  }

  Reach-IsStuck : {i j : Indexer chain Header} → Reach block_hash i j → IsStuck i → IsStuck j
  Reach-IsStuck here h = h
  Reach-IsStuck (next r s) h = Step-IsStuck s (Reach-IsStuck r h)

  -- If, in any state that an indexer made by New can reach, a call of Stop waits and returns because
  -- its time is over, then it returns the client's timeout error, and in every state that can be
  -- reached from then on Start fails, since the client is still started, Stop fails, since the indexer
  -- does not run, and both change nothing.
  pub timed_out_stop_is_final :
      (opts : List (Config chain.Params → Config chain.Params)) (i j k l : Indexer chain Header)
      (r : Option IndexerError)
      → new_indexer chain Header opts ≡ ok i
      → Reach block_hash i j
      → j.client.stopping ≡ true
      → stop_end true j ≡ some (k, r)
      → Reach block_hash k l
      → (r ≡ some (shutdown_failed stop_timeout))
        × (start l ≡ (l, some (start_failed client_already_started)))
        × (stop_begin l ≡ returned l not_running)
  unfolding stop_end Client.stop_end
  timed_out_stop_is_final opts i j k l r created reached waiting ended later =
      let (done, started) =
        waiting_flags chain.main_net (client_options chain Header i.cfg) i.client j.client
          (new_client block_hash opts i j created) (safe block_hash opts i j created reached).client
          waiting in
      let stuck : IsStuck k = record {
        not_running = ground (arith, ended);
        started = ground (arith, ended, started);
        free = ground (arith, ended);
      } in
      let stuck' = Reach-IsStuck later stuck in
      (ground (arith, ended), start-stuck l stuck', stop_begin-stuck l stuck')
