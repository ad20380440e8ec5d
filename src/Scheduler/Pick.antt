-- ===== src/Scheduler/Pick.antt =====
-- control-plane/scheduler/main.go: the choice of a node, from what the registry answers. The
-- answers are HTTP, and so arguments.
use tiny_aws.Prelude.{
  ℕ, String, Bool, ◌&&◌, Option, none, some, List, [], ◌∷◌, leb, eqb, ◌==◌, if◌then◌else◌, select,
}
use tiny_aws.Go.Fmt.{prefixed}
use tiny_aws.Go.Errors.{Result, ok, err}
use tiny_aws.Go.RoundRobin.{round_robin}
use tiny_aws.Scheduler.Job.{Node, Instance}

-- the answer to `GET /nodes?role=compute`; the nodes stand in the order in which `range` visits them
pub data NodesAnswer : Type 0 where
  no_request unreachable unreadable undecodable : NodesAnswer
  nodes : List Node → NodesAnswer

-- the answer to `GET /instances/{id}`: its status code, its body, and the instance if it decodes
pub data InstanceAnswer : Type 0 where
  no_request unreachable : InstanceAnswer
  answer : ℕ → String → Option Instance → InstanceAnswer

unfoldable pub fetch_compute_nodes : NodesAnswer → Result (List Node)
fetch_compute_nodes NodesAnswer.no_request = err "failed to build request"
fetch_compute_nodes NodesAnswer.unreachable = err "failed to reach registry"
fetch_compute_nodes NodesAnswer.unreadable = err "failed to read registry response"
fetch_compute_nodes NodesAnswer.undecodable = err "failed to decode registry response"
fetch_compute_nodes (nodes ns) = ok ns

unfoldable pub is_healthy : Node → Bool
is_healthy n = n.status == "healthy"

abbrev pub or_error : String → Option Node → Result Node
or_error e none = err e
or_error e (some n) = ok n

unfoldable pub pick_from : ℕ → List Node → Result Node × ℕ
unfolding round_robin
pick_from counter healthy =
    let (choice, counter') = round_robin counter healthy in
    (or_error "no healthy compute nodes" choice, counter')

unfoldable pub pick_healthy_among : ℕ → Result (List Node) → Result Node × ℕ
pick_healthy_among counter (err e) = (err e, counter)
pick_healthy_among counter (ok ns) = pick_from counter (select is_healthy ns)

-- with the counter after it
unfoldable pub pick_healthy_compute_node : NodesAnswer → ℕ → Result Node × ℕ
unfolding fetch_compute_nodes
pick_healthy_compute_node a counter = pick_healthy_among counter (fetch_compute_nodes a)

-- the loop that looks for the instance's node
unfoldable pub find_node : String → List Node → Option Node
find_node id [] = none
find_node id (n ∷ ns) = if n.id == id && is_healthy n then some n else find_node id ns

unfoldable pub node_of_instance : Instance → Result (List Node) → Result Node
node_of_instance inst (err e) = err e
node_of_instance inst (ok ns) =
    or_error
      (prefixed "node "
        (prefixed inst.node_id (prefixed " for instance " (prefixed inst.id " is not healthy"))))
      (find_node inst.node_id ns)

unfoldable pub node_for_decoded : Option Instance → NodesAnswer → Result Node
node_for_decoded none a = err "failed to decode instance"
node_for_decoded (some inst) a =
    if inst.status == "terminated"
    then err (prefixed "instance " (prefixed inst.id " is terminated"))
    else node_of_instance inst (fetch_compute_nodes a)

unfoldable pub pick_node_for_instance : InstanceAnswer → NodesAnswer → Result Node
pick_node_for_instance InstanceAnswer.no_request a = err "failed to build request"
pick_node_for_instance InstanceAnswer.unreachable a = err "failed to reach registry"
pick_node_for_instance (answer code body decoded) a =
    if eqb code 404
    then err "instance not found"
    else if leb 400 code
    then err (prefixed "registry error: " body)
    else node_for_decoded decoded a
