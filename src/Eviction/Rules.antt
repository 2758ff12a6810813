-- ===== src/Eviction/Rules.antt =====
-- packages/eviction/src/DecisionRules.ts: the policy that the signals call for, and why.
use distributive_cache.Base.{ℕ, ◌&&◌, ◌++◌, if◌then◌else◌, Text}
use distributive_cache.Shared.{EvictionPolicyType, lru, lfu, tiny_lfu}
use distributive_cache.Shared.Errors.{codes}
use distributive_cache.Shared.Numbers.{Numbers}
use distributive_cache.Eviction.Monitor.{WorkloadSignals}

pub record PolicyDecision : Type 0 where
  pub policy : EvictionPolicyType
  pub reason : Text

module _ {F : Type 0} (n : Numbers F) where
  abbrev pub hundredths : ℕ → F
  hundredths k = n.divide (n.of_nat k) (n.of_nat 100)

  abbrev pub memory_pressure_threshold : F
  memory_pressure_threshold = hundredths 85

  abbrev pub sequential_score_threshold : F
  sequential_score_threshold = hundredths 50

  abbrev pub read_heavy_threshold : F
  read_heavy_threshold = hundredths 70

  abbrev pub frequency_skew_threshold : F
  frequency_skew_threshold = hundredths 40

  abbrev pub write_heavy_threshold : F
  write_heavy_threshold = hundredths 60

  abbrev pub percent : F → ℕ → Text
  percent x digits = n.to_fixed (n.times x (n.of_nat 100)) digits

  unfoldable pub pressure_reason : WorkloadSignals F → Text
  pressure_reason s =
      codes "memory usage "
      ++ (percent s.memory_usage_ratio 1
          ++ (codes "% >= "
              ++ (percent memory_pressure_threshold 0
                  ++ codes
                      "% threshold — switching to TinyLFU for scan-resistant, frequency-aware eviction under pressure")))

  unfoldable pub scan_reason : WorkloadSignals F → Text
  scan_reason s =
      codes "sequential access score "
      ++ (percent s.sequential_access_score 1
          ++ codes "% indicates a scan pattern — switching to LRU")

  unfoldable pub read_reason : WorkloadSignals F → Text
  read_reason s =
      codes "read-heavy workload ("
      ++ (percent s.read_ratio 1
          ++ (codes "% reads) with skewed key popularity (Gini "
              ++ (n.to_fixed s.frequency_skew 2
                  ++ codes ") — switching to LFU to protect hot keys")))

  unfoldable pub write_reason : WorkloadSignals F → Text
  write_reason s =
      codes "write-heavy workload ("
      ++ (percent s.write_ratio 1
          ++ codes "% writes) — switching to LRU to prioritize recency over historical frequency")

  unfoldable pub default_reason : Text
  default_reason =
      codes
        "no single workload signal dominates — defaulting to TinyLFU as a balanced, scan-resistant policy"

  unfoldable pub decide_policy : WorkloadSignals F → PolicyDecision
  decide_policy s =
      if n.le memory_pressure_threshold s.memory_usage_ratio
      then record { policy = tiny_lfu; reason = pressure_reason s }
      else if n.le sequential_score_threshold s.sequential_access_score
      then record { policy = lru; reason = scan_reason s }
      else if n.le read_heavy_threshold s.read_ratio
          && n.le frequency_skew_threshold s.frequency_skew
      then record { policy = lfu; reason = read_reason s }
      else if n.le write_heavy_threshold s.write_ratio
      then record { policy = lru; reason = write_reason s }
      else record { policy = tiny_lfu; reason = default_reason }
