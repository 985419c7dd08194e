-- ===== src/Examples/Facts.antt =====
-- What the examples' data satisfy.
use iot_devices_ledger_audit.Prelude.{true, false, ◌≡◌, refl, [], ◌∷◌, none, ok, arith}
use iot_devices_ledger_audit.Json.Sample.{sample, sample_laws}
use iot_devices_ledger_audit.Block.{compute_hash, hash_input, make_block, zero_hash, genesis_event}
use iot_devices_ledger_audit.Chain.{latest}
use iot_devices_ledger_audit.Chain.Links.{IsLinked}
use iot_devices_ledger_audit.Chain.Growth.{make_block-Follows}
use iot_devices_ledger_audit.Storage.{append_block, write}
use iot_devices_ledger_audit.Startup.{is_fresh}
use iot_devices_ledger_audit.Storage.Reload.{Encodes, nothing, IsStorable, append_block-Encodes}
use iot_devices_ledger_audit.Broadcast.{no_subscribers}
use iot_devices_ledger_audit.Broadcast.Sound.{IsSound, no_subscribers-IsSound, subscribe_lem}
use iot_devices_ledger_audit.Writer.Request.{Inv}
use iot_devices_ledger_audit.Examples.Data.{
  second_log, valve_opened, genesis_block, second_block, first_chain, first_log, one_subscriber,
  first_state, empty_log,
}

genesis_made : make_block sample 0 0 (genesis_event sample) zero_hash ≡ ok genesis_block
unfolding genesis_block make_block compute_hash hash_input sample
genesis_made = refl

second_made : make_block sample 60 1 valve_opened genesis_block.hash ≡ ok second_block
unfolding second_block make_block compute_hash hash_input sample
second_made = refl

pub two-IsLinked : IsLinked sample zero_hash (genesis_block ∷ second_block ∷ [])
two-IsLinked = (
  (make_block-Follows sample 0 0 (genesis_event sample) zero_hash genesis_block genesis_made).3,
  ((make_block-Follows sample 60 1 valve_opened genesis_block.hash second_block second_made).3, tt),
)

first_written : append_block sample none empty_log genesis_block ≡ (ok tt, first_log)
unfolding first_log append_block sample
first_written = refl

pub first-Encodes : Encodes sample first_log.contents (genesis_block ∷ [])
first-Encodes =
    (append_block-Encodes sample none empty_log first_log genesis_block [] first_written nothing).0

pub one_subscriber-IsSound : IsSound one_subscriber
unfolding one_subscriber
one_subscriber-IsSound = (subscribe_lem no_subscribers 1 no_subscribers-IsSound (omega arith)).3

pub first_sound : Inv sample first_state first_log
unfolding first_state first_chain latest
first_sound = record {
  tail = genesis_block;
  tail_is = refl;
  intact = (two-IsLinked.0, tt);
  on_disk = λ _. first-Encodes;
  hub = one_subscriber-IsSound;
}

pub genesis-IsStorable : IsStorable sample sample_laws genesis_block
unfolding genesis_block make_block compute_hash hash_input sample genesis_event
genesis-IsStorable = record { index_fits = omega arith; exact = sample_laws.exact_fields [] tt }

pub second-IsStorable : IsStorable sample sample_laws second_block
unfolding second_block make_block compute_hash hash_input sample valve_opened
second-IsStorable = record {
  index_fits = omega arith;
  exact = sample_laws.exact_uint 3 (omega arith);
}

pub second_healthy : second_log.failed ≡ false
unfolding append_block write first_log sample
second_healthy = refl

pub fresh_none : is_fresh none ≡ true
unfolding is_fresh
fresh_none = refl

pub first_healthy : first_log.failed ≡ false
unfolding first_log append_block write sample
first_healthy = refl
