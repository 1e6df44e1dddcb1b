-- ===== src/Btcclient/Config.antt =====
-- pkg/btcclient/config.go: the client's configuration. Durations are nanoseconds; a nil pointer is
-- `none`. The logger is left out, since no result depends on it. The network parameters of
-- github.com/btcsuite/btcd/chaincfg are a type parameter.
pub mod Valid
use brewery_bitcoin.Btcclient.Base.{
  ClientError, invalid_config, chain_params_field, max_peers_field, max_failure_count_field,
  health_check_interval_field, reconnect_delay_field, connection_timeout_field,
}
use brewery_bitcoin.Prelude.{
  ℕ, ◌*◌, ◌^◌, Bool, false, not, Option, none, some, List, [], ◌∷◌, if◌then◌else◌, is_some, ℤ, pos,
  not_positive, Result, ok, err,
}

-- MessageListeners: which callbacks are set
pub record MessageListeners : Type 0 where
  pub on_headers : Bool
  pub on_inv : Bool
  pub on_block : Bool
  pub on_tx : Bool
  pub on_addr : Bool
  pub on_peer_connected : Bool
  pub on_peer_disconnected : Bool

abbrev pub no_listeners : MessageListeners
no_listeners = record {
  on_headers = false;
  on_inv = false;
  on_block = false;
  on_tx = false;
  on_addr = false;
  on_peer_connected = false;
  on_peer_disconnected = false;
}

abbrev pub second : ℕ
second = 10 ^ 9

pub record Config (Params : Type 0) : Type 0 where
  pub chain_params : Option Params
  pub max_peers : ℤ
  pub max_failure_count : ℤ
  pub health_check_interval : ℤ
  pub reconnect_delay : ℤ
  pub connection_timeout : ℤ
  pub listeners : Option MessageListeners

module _ {Params : Type 0} where
  unfoldable pub default_config : Params → Config Params
  default_config main_net = record {
    chain_params = some main_net;
    max_peers = pos 30;
    max_failure_count = pos 10;
    health_check_interval = pos (30 * second);
    reconnect_delay = pos (5 * second);
    connection_timeout = pos (10 * second);
    listeners = some no_listeners;
  }

  unfoldable pub with_chain_params : Option Params → Config Params → Config Params
  with_chain_params params c = record c { chain_params = params }

  unfoldable pub with_max_peers : ℤ → Config Params → Config Params
  with_max_peers n c = record c { max_peers = n }

  unfoldable pub with_max_failure_count : ℤ → Config Params → Config Params
  with_max_failure_count n c = record c { max_failure_count = n }

  unfoldable pub with_health_check_interval : ℤ → Config Params → Config Params
  with_health_check_interval d c = record c { health_check_interval = d }

  unfoldable pub with_reconnect_delay : ℤ → Config Params → Config Params
  with_reconnect_delay d c = record c { reconnect_delay = d }

  unfoldable pub with_connection_timeout : ℤ → Config Params → Config Params
  with_connection_timeout d c = record c { connection_timeout = d }

  unfoldable pub with_listeners : Option MessageListeners → Config Params → Config Params
  with_listeners l c = record c { listeners = l }

  unfoldable pub apply_options :
      Config Params → List (Config Params → Config Params) → Config Params
  apply_options c [] = c
  apply_options c (o ∷ os) = apply_options (o c) os

  -- validate: the first check that fails, or the configuration with its listeners filled in
  unfoldable pub validate : Config Params → Result ClientError (Config Params)
  validate c =
      if not (is_some c.chain_params)
      then err (invalid_config chain_params_field)
      else if not_positive c.max_peers
      then err (invalid_config max_peers_field)
      else if not_positive c.max_failure_count
      then err (invalid_config max_failure_count_field)
      else if not_positive c.health_check_interval
      then err (invalid_config health_check_interval_field)
      else if not_positive c.reconnect_delay
      then err (invalid_config reconnect_delay_field)
      else if not_positive c.connection_timeout
      then err (invalid_config connection_timeout_field)
      else ok
          (record c { listeners = elim c.listeners [ none ↦ some no_listeners | some l ↦ some l ] })
