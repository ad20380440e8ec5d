-- ===== src/Scheduler/Timeout.antt =====
-- control-plane/scheduler/main.go, `watchJobTimeouts`: which jobs one pass ends.
use mathlib.Core.Option
use tiny_aws.Prelude.{
  ℕ, ◌+◌, ◌-◌, ◌^◌, ◌<◌, none, some, String, Bool, ◌&&◌, ◌≡◌, ap, ◌∙◌, arith, if◌then◌else◌, ltb,
  ◌==◌, fun_ext,
}
use tiny_aws.Prelude.Int.{pos, negsuc, ltb_ℤ}
use tiny_aws.Go.Map.{lookup}
use tiny_aws.Go.Time.{Time}
use tiny_aws.Scheduler.Job.{Job, start_time, sub_time, is_timed_out, timed_out_job}
use tiny_aws.Scheduler.Server.{Scheduler, watch_job_timeouts}
use tiny_aws.Scheduler.Durable.{swept, lookup-sweep}

-- the job runs, and has run for more than `d` nanoseconds
unfoldable pub is_late : Time → ℕ → Job → Bool
is_late now d j = j.status == "running" && ltb (start_time j + d) now

exceeds :
    (d now start : ℕ) → d < 2 ^ 63 - 1 → ltb_ℤ (pos d) (sub_time now start) ≡ ltb (start + d) now
unfolding sub_time
exceeds d now start h = ground arith

after_pass :
    (now : Time) (d : ℕ) (h : d < 2 ^ 63 - 1) (j : Job)
    → swept now (pos d) j ≡ (if is_late now d j then timed_out_job now j else j)
unfolding swept is_timed_out is_late
after_pass now d h j =
    ap (λ b. if j.status == "running" && b then timed_out_job now j else j)
      (exceeds d now (start_time j) h)

-- One pass with a timeout of `d` nanoseconds, below the largest `int64`: a job that is running and
-- started (or, without a start, was created) more than `d` ago becomes failed at `now`, with the exit
-- code -1 and the text "job timed out"; every other job is what it was, and no job appears or
-- disappears, whichever rows can be written.
pub watch_ends_late_jobs :
    (saves : String → Bool) (now : Time) (d : ℕ) (s : Scheduler) (id : String)
    → d < 2 ^ 63 - 1
    → lookup id (watch_job_timeouts saves now (pos d) s).jobs
      ≡ Option.map
          (λ j.
            if j.status == "running"
              && ltb (elim j.running_at [ none ↦ j.created_at | some t ↦ t ] + d) now
            then record j {
              status = "failed";
              exit_code = some (negsuc 0);
              stderr = "job timed out";
              finished_at = some now;
            }
            else j)
          (lookup id s.jobs)
unfolding watch_job_timeouts is_late timed_out_job
watch_ends_late_jobs saves now d s id h =
    lookup-sweep saves now (pos d) id s.jobs s.rows
    ∙ ap (λ f. Option.map f (lookup id s.jobs)) (fun_ext (after_pass now d h))
