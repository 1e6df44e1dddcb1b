-- ===== src/Btcclient/Base.antt =====
-- pkg/btcclient/errors.go: the sentinel errors. Errors that wrap ErrInvalidConfig carry the field.

pub data ConfigField : Type 0 where
  chain_params_field max_peers_field max_failure_count_field : ConfigField
  health_check_interval_field reconnect_delay_field connection_timeout_field : ConfigField

pub data ClientError : Type 0 where
  client_already_started client_not_started : ClientError
  peer_already_exists peer_not_found max_peers_reached : ClientError
  stop_timeout : ClientError
  invalid_config : ConfigField → ClientError
