-- ===== src/Relay/Metrics.antt =====
-- internal/relay/metrics.go: the counters that the server's parts share. The unsigned counters
-- wrap at 2 ^ 64. The two signed ones move by at most the size of a table at a time, and are kept
-- as integers without a bound.
use fafsturmudprelay.Prelude.{ℕ, ◌+◌, ◌%◌, ◌^◌}
use fafsturmudprelay.Prelude.Int.{ℤ, pos, ◌+ℤ◌}

pub record Metrics : Type 0 where
  pub packets_routed : ℕ
  pub packets_dropped : ℕ
  pub packets_spoofed : ℕ
  pub packets_rate_limited : ℕ
  pub bytes_routed : ℕ
  pub active_sessions : ℤ
  pub active_players : ℤ

abbrev pub no_metrics : Metrics
no_metrics = record {
  packets_routed = 0;
  packets_dropped = 0;
  packets_spoofed = 0;
  packets_rate_limited = 0;
  bytes_routed = 0;
  active_sessions = pos 0;
  active_players = pos 0;
}

-- atomic.Uint64.Add
abbrev pub add_uint64 : ℕ → ℕ → ℕ
add_uint64 counter n = (counter + n) % 2 ^ 64

abbrev pub count_dropped : Metrics → Metrics
count_dropped m = record m { packets_dropped = add_uint64 m.packets_dropped 1 }

abbrev pub count_spoofed : Metrics → Metrics
count_spoofed m = record m { packets_spoofed = add_uint64 m.packets_spoofed 1 }

abbrev pub count_rate_limited : Metrics → Metrics
count_rate_limited m = record m { packets_rate_limited = add_uint64 m.packets_rate_limited 1 }

abbrev pub count_routed : Metrics → Metrics
count_routed m = record m { packets_routed = add_uint64 m.packets_routed 1 }

abbrev pub count_bytes : Metrics → ℕ → Metrics
count_bytes m n = record m { bytes_routed = add_uint64 m.bytes_routed n }

abbrev pub add_sessions : Metrics → ℤ → Metrics
add_sessions m n = record m { active_sessions = m.active_sessions +ℤ n }

abbrev pub add_players : Metrics → ℤ → Metrics
add_players m n = record m { active_players = m.active_players +ℤ n }

-- `goroutines` is what the runtime counts.
pub record MetricsSnapshot : Type 0 where
  pub counters : Metrics
  pub goroutines : ℕ

unfoldable pub snapshot : Metrics → ℕ → MetricsSnapshot
snapshot m goroutines = record { counters = m; goroutines = goroutines }
