-- ===== src/Btcclient/Config/Valid.antt =====
-- pkg/btcclient/config.go: what validate accepts.
use brewery_bitcoin.Btcclient.Config.{Config, MessageListeners, no_listeners, validate}
use brewery_bitcoin.Prelude.{◌≡◌, ◌↔◌, true, false, none, some, arith, is_some, not_positive, ok}

-- A configuration that a client can run with.
pub record IsUsable {Params : Type 0} (c : Config Params) : Type 0 where
  pub chain_params : is_some c.chain_params ≡ true
  pub max_peers : not_positive c.max_peers ≡ false
  pub max_failure_count : not_positive c.max_failure_count ≡ false
  pub health_check_interval : not_positive c.health_check_interval ≡ false
  pub reconnect_delay : not_positive c.reconnect_delay ≡ false
  pub connection_timeout : not_positive c.connection_timeout ≡ false

module _ {Params : Type 0} where
  -- validate accepts a configuration exactly when network parameters are given and all five
  -- numbers are positive.
  validate_lem : (c : Config Params) → ((v : Config Params) × (validate c ≡ ok v)) ↔ IsUsable c
  unfolding validate
  validate_lem c = (
    λ (v, h). record {
      chain_params = ground (arith, h);
      max_peers = ground (arith, h);
      max_failure_count = ground (arith, h);
      health_check_interval = ground (arith, h);
      reconnect_delay = ground (arith, h);
      connection_timeout = ground (arith, h);
    },
    λ u. (
      record c { listeners = elim c.listeners [ none ↦ some no_listeners | some l ↦ some l ] },
      ground (arith, u),
    ),
  )

  -- A configuration that validate returns differs from the given one at most in its listeners, which
  -- are the given ones unless these were nil and are not nil; to validate it again changes nothing.
  validate_result :
      (c v : Config Params)
      → validate c ≡ ok v
      → (v ≡ record c { listeners = v.listeners })
        × (is_some v.listeners ≡ true)
        × ((l : MessageListeners) → c.listeners ≡ some l → v.listeners ≡ some l)
        × (validate v ≡ ok v)
  unfolding validate
  validate_result c v h =
      (ground (arith, h), ground (arith, h), λ l given. ground (arith, h, given), ground (arith, h))
