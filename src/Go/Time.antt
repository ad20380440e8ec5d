-- ===== src/Go/Time.antt =====
-- `time.Time` is a count of nanoseconds from Go's zero time. A text in the RFC 3339 layout keeps
-- whole seconds and is held as their count: for the instants that the layout covers, the order of
-- two UTC texts is that of the counts.
use tiny_aws.Prelude.{ℕ, ◌*◌, ◌/◌}

abbrev pub Time : Type 0
Time = ℕ

abbrev pub second : ℕ
second = 1_000_000_000

-- `t.Format(time.RFC3339)`
abbrev pub format_rfc3339 : Time → ℕ
format_rfc3339 t = t / second

-- `time.Parse(time.RFC3339, s)` of a text that `format_rfc3339` wrote
abbrev pub parse_rfc3339 : ℕ → Time
parse_rfc3339 s = s * second
