-- ===== src/Scheduler/Queue/Examples.antt =====
-- control-plane/scheduler/main.go with control-plane/messaging/sqs/main.go: a text is sent to the
-- queue "jobs" and becomes a job.
use tiny_aws.Prelude.{
  ne_of_eq_false, ◌*◌, String, true, ◌≡◌, refl, Option, none, some, [], ◌∷◌, select, All, arith,
}
use tiny_aws.Prelude.Int.{pos}
use tiny_aws.Go.Errors.{ok}
use tiny_aws.Go.Fmt.{format_id, next_seq}
use tiny_aws.Go.Map.{lookup}
use tiny_aws.Go.RoundRobin.{round_robin}
use tiny_aws.Go.Time.{second}
use tiny_aws.Sql
use tiny_aws.Sqs.{Sqs, send, receive_request}
use tiny_aws.Sqs.DeadLetter.{all_ok}
use tiny_aws.Sqs.Hidden.{Withholds}
use tiny_aws.Sqs.Invariant.{initial}
use tiny_aws.Sqs
use tiny_aws.Scheduler.Job.{Node, Job, JobRequest, new_job}
use tiny_aws.Scheduler.Store.{row_key, to_row}
use tiny_aws.Scheduler.Pick.{
  InstanceAnswer, nodes, fetch_compute_nodes, is_healthy, pick_from, pick_healthy_among,
  pick_healthy_compute_node,
}
use tiny_aws.Scheduler.Server.{Scheduler, Registry, pick_node, is_empty_request}
use tiny_aws.Scheduler.Queue.{poll_queue, sent_message_becomes_job}

abbrev node : Node
node = record { id = "n-1"; role = "compute"; status = "healthy" }

abbrev registry : Registry
registry = record { nodes_answer = nodes (node ∷ []); instance_answer = InstanceAnswer.unreachable }

abbrev request : JobRequest
request = record {
  command = "ls";
  instance_id = "";
  deploy_url = "";
  job_type = "";
  port = pos 0;
  env_vars = none;
}

abbrev no_jobs : Scheduler
no_jobs = record { jobs = []; rows = []; job_seq = 0; counter = 0 }

abbrev no_messages : Sqs
no_messages = record { queues = []; messages = []; msg_seq = 0 }

abbrev decode : String → Option JobRequest
decode body = some request

abbrev job : Job
job = new_job 1 "n-1" request (5 * second)

abbrev polled : Scheduler × Sqs
polled =
    poll_queue decode all_ok true true registry (4 * second) (5 * second)
      (no_jobs, (send true "jobs" (some "{\"command\":\"ls\"}") second no_messages).0)

picked : (pick_node registry request 0).0 ≡ ok node
unfolding pick_node pick_healthy_compute_node pick_healthy_among pick_from fetch_compute_nodes
    round_robin select is_healthy next_seq
picked = refl

sent_message_becomes_job_example :
    (lookup job.id polled.0.jobs ≡ some job)
    × (Sql.find row_key job.id polled.0.rows ≡ some (to_row job))
    × All
        (Withholds "msg-1")
        (Sqs.serve_all (receive_request all_ok "jobs" (100 * second) ∷ []) polled.1).1
unfolding next_seq format_id
sent_message_becomes_job_example =
    sent_message_becomes_job decode registry request node "{\"command\":\"ls\"}" second (4 * second)
      (5 * second) no_jobs no_messages (receive_request all_ok "jobs" (100 * second) ∷ []) initial
      (omega arith) tt (ne_of_eq_false "{\"command\":\"ls\"}" "" refl) refl
      (unfold is_empty_request in refl) (omega arith) picked
