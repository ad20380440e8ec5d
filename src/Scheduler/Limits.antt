-- ===== src/Scheduler/Limits.antt =====
-- control-plane/scheduler/main.go, `jobTimeout` and `maxJobsPerNode`: the limits that the environment
-- sets.
use tiny_aws.Prelude.{
  ℕ, zero, suc, ◌*◌, ◌%◌, ◌-◌, leb, ◌^◌, ◌≤◌, ◌≡◌, refl, arith, eq_false, if◌then◌else◌,
}
use tiny_aws.Prelude.Int.{pos, negsuc}
use tiny_aws.Go.Fmt.{decimal}
use tiny_aws.Go.Fmt.RoundTrip.{scan_int-decimal, decimal-ne-nil}
use tiny_aws.Go.Time.{second}
use tiny_aws.Scheduler.Job.{job_timeout, seconds_or_default, at_least_one, max_jobs_per_node}

-- what `jobTimeout` makes of a positive number of seconds that an `int` holds
seconds_as_written :
    (n : ℕ)
    → 1 ≤ n
    → n ≤ 18_446_744_073
    → seconds_or_default (pos n)
      ≡ (if leb n 9_223_372_036 then pos (n * second) else negsuc (2 ^ 64 - n * second - 1))
seconds_as_written zero lower upper = absurd (omega arith)
seconds_as_written (suc n) lower upper =
    let small : suc n * second % 2 ^ 64 ≡ suc n * second = omega arith in rw small (ground arith)

at_least_one-pos : (n : ℕ) → 1 ≤ n → at_least_one (pos n) ≡ n
at_least_one-pos zero lower = absurd (omega arith)
at_least_one-pos (suc n) lower = refl

-- JOB_TIMEOUT_SECS and MAX_JOBS_PER_NODE are set to the decimal text of a number from 1 to
-- 18446744073. The limit on jobs is the number. The timeout is that many seconds, in nanoseconds,
-- up to 9223372036 seconds; above that it is negative, the number of nanoseconds less 2 ^ 64.
pub limits_as_written :
    (n : ℕ)
    → 1 ≤ n
    → n ≤ 18_446_744_073
    → (job_timeout (decimal n)
        ≡ (if leb n 9_223_372_036 then pos (n * second) else negsuc (2 ^ 64 - n * second - 1)))
      × (max_jobs_per_node (decimal n) ≡ n)
unfolding job_timeout max_jobs_per_node
limits_as_written n lower upper = rw (eq_false (decimal n) "" (decimal-ne-nil n)) (
    rw (scan_int-decimal n (omega arith))
      (seconds_as_written n lower upper, at_least_one-pos n lower))
