-- ===== src/Btcclient/Examples/Draining.antt =====
-- The end of a client's goroutines, at the client of one peer that is stopping.
use brewery_bitcoin.Btcclient.Config.{validate, default_config, with_max_peers, apply_options}
use brewery_bitcoin.Btcclient.Peer.{new_managed_peer, cancel_and_disconnect}
use brewery_bitcoin.Btcclient.Manager.{
  add_peer, spawn, new_peer_manager, run_health_checks, to_remove, remove_all,
}
use brewery_bitcoin.Btcclient.Manager.Loop.{proceed, exit_loop, loop_step, step_from}
use brewery_bitcoin.Btcclient.Client
use brewery_bitcoin.Btcclient.Client.{BtcClient, new_btc_client, start, stop_begin}
use brewery_bitcoin.Btcclient.Client.Steps.{
  Reach, here, next, stop_begins, checks_health, loops, health_exits,
}
use brewery_bitcoin.Btcclient.Client.Draining.{Drain, IsStopped, stop_drains}
use brewery_bitcoin.Btcclient.Client.Ending.{goroutine_steps, start_calls, goroutines_end}
use brewery_bitcoin.Btcclient.Examples.{fresh, options, reach_busy, stopped}
use brewery_bitcoin.Prelude.{◌+◌, ◌*◌, ◌≤◌, refl, arith, length, lookup, insert, modify}

reach_stopped : Reach fresh stopped
unfolding start Client.add_peer add_peer spawn lookup new_peer_manager stop_begin
reach_stopped = next reach_busy (stop_begins refl refl)

-- A tick of the health check, the return of the peer's goroutine, and that of the health check.
abbrev ended : BtcClient
ended = Client.health_exit (record stopped { manager = exit_loop stopped.manager 0 })

run : Reach stopped ended
unfolding start Client.add_peer add_peer spawn lookup new_peer_manager stop_begin loop_step
    step_from new_managed_peer modify cancel_and_disconnect Client.disconnect_all insert
    Client.health_tick run_health_checks to_remove remove_all
run =
    next
      (next (next here (checks_health (omega arith)))
        (loops 0 proceed {pm = exit_loop stopped.manager 0} refl))
      (health_exits (omega arith) refl)

goroutines_end_example :
    goroutine_steps run + length stopped.manager.heap
    ≤ 5 * length stopped.manager.heap
      + length ended.manager.heap
      + stopped.health_loops
      + start_calls run
unfolding start
goroutines_end_example = goroutines_end run refl

stop_drains_example : (e : BtcClient) × Drain stopped e × IsStopped e
unfolding new_btc_client validate default_config with_max_peers apply_options new_peer_manager start
    Client.add_peer add_peer spawn lookup new_managed_peer modify cancel_and_disconnect
    Client.disconnect_all insert stop_begin
stop_drains_example = stop_drains 0 options fresh refl refl stopped reach_stopped refl (refl, tt)
