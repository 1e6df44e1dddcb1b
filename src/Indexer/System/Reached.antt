-- ===== src/Indexer/System/Reached.antt =====
-- The states that an indexer can reach from New.
use brewery_bitcoin.Btcclient.Client.{BtcClient, new_btc_client, refused, panicked}
use brewery_bitcoin.Btcclient.Client
use brewery_bitcoin.Btcclient.Client.Steps as ClientSteps
use brewery_bitcoin.Btcclient.Manager.Flags.{
  flags-add_peer, flags-run_health_checks, flags-add_discovered_peers, flags-loop_step,
}
use brewery_bitcoin.Btcclient.Manager.Loop.{remote_close, cancel_context}
use brewery_bitcoin.Indexer.Base.{Chaincfg, IndexerError}
use brewery_bitcoin.Indexer.Config.{Config}
use brewery_bitcoin.Indexer.Headers.{on_headers, append_headers}
use brewery_bitcoin.Indexer.Lifecycle.{
  Indexer, returned, waiting_for, start, stop_begin, stop_client, stop_end,
}
use brewery_bitcoin.Indexer.System.{
  Step, starts, stop_begins, stop_returns, stop_ends, connects, receives, works, Reach, here, next,
  is_internal,
}
use brewery_bitcoin.Prelude.{
  ◌≡◌, refl, sym, ap, ◌∙◌, subst, inl, inr, Bool, true, false, ◌||◌, not, Option, some, List, [],
  ◌∷◌, arith, if◌then◌else◌, Bool-cases, Option-cases,
}

-- The steps that no call of the indexer makes leave `started` as it is.
pub internal-started :
    {c d : BtcClient} (s : ClientSteps.Step c d)
    → is_internal s ≡ true
    → d.manager.started ≡ c.manager.started
unfolding Client.health_tick Client.health_exit remote_close cancel_context
internal-started (ClientSteps.starts _) h = absurd (cc h)
internal-started (ClientSteps.stop_begins _ _) h = absurd (cc h)
internal-started (ClientSteps.stop_ends _ _ _) h = absurd (cc h)
internal-started (ClientSteps.adds _ _ _) h = absurd (cc h)
internal-started (ClientSteps.removes _ _) h = absurd (cc h)
internal-started {c} (ClientSteps.discovers addresses) h =
    ap (λ (f : Bool × Bool). f.1) (flags-add_discovered_peers addresses c.manager)
internal-started {c} (ClientSteps.checks_health _) h =
    ap (λ (f : Bool × Bool). f.1) (flags-run_health_checks c.manager)
internal-started {c} (ClientSteps.health_exits _ _) h = refl
internal-started {c} (ClientSteps.loops id choice {pm = pm} e) h =
    ap (λ (f : Bool × Bool). f.1) (flags-loop_step c.manager pm id choice e)
internal-started {c} (ClientSteps.remote_closes id) h = refl
internal-started {c} (ClientSteps.context_cancelled id) h = refl

module _ {chain : Chaincfg} {Header : Type 0} (block_hash : Header → chain.Hash) where
  -- what OnHeaders leaves as it is
  abbrev pub kept : Indexer chain Header → BtcClient × (Bool × Config chain.Params)
  kept i = (i.client, (i.running, i.cfg))

  append_headers-kept :
      (hs : List Header) (i : Indexer chain Header) → kept (append_headers block_hash hs i) ≡ kept i
  unfolding append_headers
  append_headers-kept [] i = refl
  append_headers-kept (h ∷ hs) i = append_headers-kept hs _

  pub on_headers-kept :
      (hs : List Header) (i : Indexer chain Header) → kept (on_headers block_hash hs i) ≡ kept i
  unfolding on_headers
  on_headers-kept [] i = refl
  on_headers-kept (h ∷ hs) i = ground (arith, append_headers-kept (h ∷ hs) i)

  -- An indexer whose client can be reached from `c`: it runs only while the client is started.
  pub record IsReached (c : BtcClient) (cfg : Config chain.Params) (i : Indexer chain Header)
      : Type 0 where
    pub client : ClientSteps.Reach c i.client
    pub same_cfg : i.cfg ≡ cfg
    pub runs : (not i.running || i.client.manager.started) ≡ true

  started_client :
      (i : Indexer chain Header)
      → (start i).0.client ≡ (if i.running then i.client else (Client.start i.client).0)
  unfolding start
  started_client i = ground arith

  start-IsReached :
      {c : BtcClient} {cfg : Config chain.Params} (i : Indexer chain Header)
      → i.client.stopping ≡ false
      → IsReached c cfg i
      → IsReached c cfg (start i).0
  unfolding start Client.start
  start-IsReached {c} i free h = record {
    client = subst (ClientSteps.Reach c) (sym (started_client i)) (elim (Bool-cases i.running) [
      | inl on ↦ rw on h.client
      | inr off ↦ rw off (ClientSteps.next h.client (ClientSteps.starts free))
    ]);
    same_cfg = ground (arith, h.same_cfg);
    runs = ground (arith, h.runs);
  }

  -- Stop that returns at once, without a wait
  returned-IsReached :
      {c : BtcClient} {cfg : Config chain.Params} (i j : Indexer chain Header) (e : IndexerError)
      → stop_begin i ≡ returned j e
      → IsReached c cfg i
      → IsReached c cfg j
  unfolding stop_begin
  returned-IsReached {c} {cfg} i j e h r = elim (Bool-cases i.running) [
    | inr off ↦
        let same_state : i ≡ j = ground (arith, h, off) in subst (IsReached c cfg) same_state r
    | inl on ↦ by_client (Client.stop_begin i.client) (ground (arith, h, on))
  ]
    where
      by_client : (b : Client.StopBegin) → stop_client i b ≡ returned j e → IsReached c cfg j
      by_client (Client.refused x) k =
          let same_state : record i { running = false } ≡ j = cc k in
          subst (IsReached c cfg) same_state
            (record { client = r.client; same_cfg = r.same_cfg; runs = refl })
      by_client Client.panicked k = absurd (cc k)
      by_client (Client.waiting_for d) k = absurd (cc k)

  -- Stop that begins to wait
  waiting-IsReached :
      {c : BtcClient} {cfg : Config chain.Params} (i j : Indexer chain Header)
      → i.client.stopping ≡ false
      → stop_begin i ≡ waiting_for j
      → IsReached c cfg i
      → IsReached c cfg j
  unfolding stop_begin Client.stop_begin
  waiting-IsReached {c} {cfg} i j free h r = elim (Bool-cases i.running) [
    | inr off ↦ absurd (ground (arith, h, off))
    | inl on ↦ by_client (Client.stop_begin i.client) refl (ground (arith, h, on))
  ]
    where
      by_client :
          (b : Client.StopBegin)
          → Client.stop_begin i.client ≡ b
          → stop_client i b ≡ waiting_for j
          → IsReached c cfg j
      by_client (Client.refused x) b k = absurd (cc k)
      by_client Client.panicked b k = absurd (cc k)
      by_client (Client.waiting_for d) b k =
          let same_state : record i { client = d } ≡ j = cc k in
          subst (IsReached c cfg) same_state (record {
            client = ClientSteps.next r.client (ClientSteps.stop_begins free b);
            same_cfg = r.same_cfg;
            runs = ground (arith, r.runs, b);
          })

  stop_end-IsReached :
      {c : BtcClient} {cfg : Config chain.Params} (timed_out : Bool) (i : Indexer chain Header)
      (r : Indexer chain Header × Option IndexerError)
      → i.client.stopping ≡ true
      → stop_end timed_out i ≡ some r
      → IsReached c cfg i
      → IsReached c cfg r.0
  unfolding stop_end
  stop_end-IsReached {c} {cfg} timed_out i r waits h reached =
      elim (Option-cases (Client.stop_end timed_out i.client)) [
        | inl still ↦ absurd (ground (arith, h, still))
        | inr ((d, e), ended) ↦
            let same_state : record i { client = d; running = false } ≡ r.0 =
              ground (arith, h, ended) in
            subst (IsReached c cfg) same_state (record {
              client =
                  ClientSteps.next reached.client (ClientSteps.stop_ends timed_out waits ended);
              same_cfg = reached.same_cfg;
              runs = refl;
            })
      ]

  Step-IsReached :
      {c : BtcClient} {cfg : Config chain.Params} {i j : Indexer chain Header}
      → Step block_hash i j
      → IsReached c cfg i
      → IsReached c cfg j
  unfolding Client.add_peer
  Step-IsReached {i = i} (starts free) h = start-IsReached i free h
  Step-IsReached {i = i} {j = j} (stop_begins free e) h = waiting-IsReached i j free e h
  Step-IsReached {i = i} {j = j} (stop_returns x free e) h = returned-IsReached i j x e h
  Step-IsReached {i = i} (stop_ends timed_out {r = r} waits e) h =
      stop_end-IsReached timed_out i r waits e h
  Step-IsReached {i = i} (connects cancelled address free) h = record {
    client = ClientSteps.next h.client (ClientSteps.adds cancelled address free);
    same_cfg = h.same_cfg;
    runs =
        ap (λ (f : Bool × Bool). not i.running || f.1)
          (flags-add_peer i.client.manager cancelled address)
        ∙ h.runs;
  }
  Step-IsReached {c} {cfg} {i = i} (receives hs free) h =
      let same_kept = on_headers-kept hs i in
      record {
        client = subst (ClientSteps.Reach c) (ap (λ k. k.0) (sym same_kept)) h.client;
        same_cfg = ap (λ k. k.1.1) same_kept ∙ h.same_cfg;
        runs = ap (λ k. not k.1.0 || k.0.manager.started) same_kept ∙ h.runs;
      }
  Step-IsReached {i = i} (works {c = d} s internal) h = record {
    client = ClientSteps.next h.client s;
    same_cfg = h.same_cfg;
    runs = ap (λ b. not i.running || b) (internal-started s internal) ∙ h.runs;
  }

  pub Reach-IsReached :
      {c : BtcClient} {cfg : Config chain.Params} {i j : Indexer chain Header}
      → Reach block_hash i j
      → IsReached c cfg i
      → IsReached c cfg j
  Reach-IsReached here h = h
  Reach-IsReached (next r s) h = Step-IsReached s (Reach-IsReached r h)
