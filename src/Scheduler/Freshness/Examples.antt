-- ===== src/Scheduler/Freshness/Examples.antt =====
-- control-plane/scheduler/main.go with control-plane/registry/main.go: a node that registers, is
-- checked and gets a job.
use tiny_aws.Registry.Nodes
use tiny_aws.Registry.Nodes.Reach
use tiny_aws.Prelude.{◌+◌, ◌*◌, ◌≤◌, true, false, ◌≡◌, refl, none, some, [], ◌∷◌, select}
use tiny_aws.Prelude.Int.{pos}
use tiny_aws.Go.Errors.{ok}
use tiny_aws.Go.Fmt.{next_seq}
use tiny_aws.Go.Map.{GoMap, lookup, insert, values}
use tiny_aws.Go.Map.Order.{IsSameMap}
use tiny_aws.Go.RoundRobin.{round_robin}
use tiny_aws.Go.Time.{second}
use tiny_aws.Scheduler.Job.{Node, JobRequest}
use tiny_aws.Scheduler.Pick.{
  InstanceAnswer, nodes, fetch_compute_nodes, is_healthy, pick_from, pick_healthy_among,
  pick_healthy_compute_node,
}
use tiny_aws.Scheduler.Server.{Registry, pick_node}
use tiny_aws.Scheduler.Freshness.{node_of, picked_node_fresh}

abbrev seen_node : Nodes.Node
seen_node = record {
  id = "n-1";
  hostname = "host";
  addr = "";
  cpu_count = pos 4;
  role = "compute";
  status = "healthy";
  last_seen = 100 * second;
}

abbrev no_nodes : Nodes.Nodes
no_nodes = record { nodes = []; rows = [] }

abbrev one_node : Nodes.Nodes
one_node = (Nodes.handle_register true (some seen_node) (100 * second) no_nodes).0

abbrev seen : GoMap Nodes.Node
seen = ("n-1", seen_node) ∷ []

abbrev node : Node
node = record { id = "n-1"; role = "compute"; status = "healthy" }

abbrev registry : Registry
registry = record { nodes_answer = nodes (node ∷ []); instance_answer = InstanceAnswer.unreachable }

abbrev request : JobRequest
request = record {
  command = "ls";
  instance_id = "";
  deploy_url = "";
  job_type = "";
  port = pos 0;
  env_vars = none;
}

picked : (pick_node registry request 0).0 ≡ ok node
unfolding pick_node pick_healthy_compute_node pick_healthy_among pick_from fetch_compute_nodes
    round_robin select is_healthy next_seq
picked = refl

seen-IsSameMap :
    IsSameMap seen (
      Nodes.by_role "compute"
        (Nodes.check_nodes_health (λ id. false) (110 * second) one_node).nodes)
unfolding Nodes.by_role Nodes.check_nodes_health Nodes.check Nodes.verdict Nodes.handle_register
    Nodes.registered insert
seen-IsSameMap id = refl

picked_node_fresh_example :
    (m : Nodes.Node) × (lookup "n-1"
        (Nodes.check_nodes_health (λ id. false) (110 * second) one_node).nodes
      ≡ some m)
    × (m.role ≡ "compute")
    × (m.status ≡ "healthy")
    × (110 * second ≤ m.last_seen + 30 * second)
picked_node_fresh_example =
    picked_node_fresh one_node (λ id. false) (110 * second) seen registry request 0 {n = node}
      (Reach.registers true (some seen_node) (100 * second) Reach.empty)
      (unfold lookup in (refl, tt)) seen-IsSameMap (unfold node_of values in refl) picked
