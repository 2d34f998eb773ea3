-- ===== src/Core/Params.antt =====
-- crates/core/src/genesis.rs: the consensus parameters.
use rustblockchain.Base.{ℕ}

pub record ConsensusParams : Type 0 where
  pub block_time_ms : ℕ
  pub epoch_length : ℕ
  pub min_validators : ℕ
  pub max_validators : ℕ
  pub slash_fraction_double_sign : ℕ
  pub slash_fraction_downtime : ℕ
  pub downtime_jail_duration_ms : ℕ
  pub min_stake : ℕ
  pub unbonding_period_epochs : ℕ
  pub max_missed_blocks : ℕ
  pub signed_blocks_window : ℕ

abbrev pub default_params : ConsensusParams
default_params = record {
  block_time_ms = 5000;
  epoch_length = 100;
  min_validators = 1;
  max_validators = 100;
  slash_fraction_double_sign = 500;
  slash_fraction_downtime = 100;
  downtime_jail_duration_ms = 600000;
  min_stake = 1000000000000000000;
  unbonding_period_epochs = 10;
  max_missed_blocks = 50;
  signed_blocks_window = 100;
}
