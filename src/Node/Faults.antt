-- ===== src/Node/Faults.antt =====
-- services/cache-node/src/fault/FaultInjector.ts: the faults that a node is told to show. `Math.random()` is an
-- argument.
use distributive_cache.Base.{ℕ, Bool, true, false, not, Option, none, some}
use distributive_cache.Shared.Numbers.{Numbers, max_of, min_of}

pub record FaultState (F : Type 0) : Type 0 where
  pub killed : Bool
  pub replication_delay_ms : ℕ
  pub drop_rate : F

-- `FaultInjectionCommand`, with the fields that its type uses.
pub data FaultCommand (F : Type 0) : Type 0 where
  kill restart : FaultCommand F
  delay_replication : Option ℕ → FaultCommand F
  drop_messages : Option F → FaultCommand F

abbrev pub delay_or_default : Option ℕ → ℕ
delay_or_default none = 2000
delay_or_default (some ms) = ms

module _ {F : Type 0} (n : Numbers F) where
  abbrev pub no_faults : FaultState F
  no_faults = record { killed = false; replication_delay_ms = 0; drop_rate = n.of_nat 0 }

  unfoldable pub clamp_01 : F → F
  clamp_01 value = min_of n (n.of_nat 1) (max_of n (n.of_nat 0) value)

  -- A half, unless the command has a rate.
  abbrev pub rate_or_default : Option F → F
  rate_or_default none = n.divide (n.of_nat 1) (n.of_nat 2)
  rate_or_default (some rate) = rate

  unfoldable pub apply : FaultCommand F → FaultState F → FaultState F
  apply kill s = record s { killed = true }
  apply restart s = record s { killed = false }
  apply (delay_replication ms) s = record s { replication_delay_ms = delay_or_default ms }
  apply (drop_messages rate) s = record s { drop_rate = clamp_01 (rate_or_default rate) }

  -- `Math.random() < this.state.dropRate`
  unfoldable pub should_drop_replication_message : F → FaultState F → Bool
  should_drop_replication_message draw s = not (n.le s.drop_rate draw)
