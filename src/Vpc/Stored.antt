-- ===== src/Vpc/Stored.antt =====
-- control-plane/networking/vpc/main.go: what the tables hold after the requests of one run.
use tiny_aws.Prelude.{
  ◌+◌, ◌<◌, String, true, ◌||◌, ◌≡◌, refl, ap, ◌∙◌, Option, none, some, List, [], ◌∷◌, length,
  arith, ◌==◌, Bool-cases, inl, inr,
}
use tiny_aws.Go.Fmt.{u64_mod}
use tiny_aws.Go.Fmt.RoundTrip.{next_seq-lt}
use tiny_aws.Go.Http.{no_body, status_no_content}
use tiny_aws.Sql
use tiny_aws.Vpc.{
  Vpc, Network, vpc_key, next_id, completed_rule, handle_vpc_create, handle_vpc_list,
  handle_vpc_get, handle_subnet_create, handle_subnet_list, handle_route_create, handle_route_list,
  handle_sg_create, handle_sg_list, handle_sg_rule_add, handle_sg_rule_list, handle_instance_subnet,
  handle_instance_subnet_get, found_vpc, found_subnet, InstanceSubnet, instance_key,
}
use tiny_aws.Vpc.Created.{nothing, created_by, join, join-nothing, join_assoc, all_created, tables}
use tiny_aws.Vpc.Routes.{
  Request, create_vpc, list_vpcs, get_vpc, create_subnet, list_subnets, create_route, list_routes,
  create_group, list_groups, add_rule, list_rules, assign_subnet, get_subnet, serve, serve_all,
}
use tiny_aws.Vpc.Given.{
  IsGiven, Stores, same, insert_vpc-Stores, insert_subnet-Stores, insert_route-Stores,
  insert_group-Stores, insert_rule-Stores,
}

-- An answer that finds a row creates nothing.
found_vpc-nothing : (o : Option Vpc) → created_by (found_vpc o) ≡ nothing
found_vpc-nothing none = refl
found_vpc-nothing (some v) = refl

found_subnet-nothing :
    (id : String) (o : Option InstanceSubnet) → created_by (found_subnet id o) ≡ nothing
found_subnet-nothing id none = refl
found_subnet-nothing id (some r) = refl

assigned-Stores :
    (s : Network) (t : List InstanceSubnet)
    → IsGiven s
    → Stores s (record s { instance_subnets = t }) (no_body status_no_content)
unfolding tables
assigned-Stores s t g = record { given = g; few = omega arith; stored = join-nothing (tables s) }

-- Every request whose statement succeeds, while the sequence has numbers left.
serve-Stores :
    (r : Request) (s : Network)
    → IsGiven s
    → s.seq + 1 < u64_mod
    → let (s', reply) = serve true r s in Stores s s' reply
unfolding serve handle_vpc_create handle_vpc_list handle_vpc_get handle_subnet_create
    handle_subnet_list handle_route_create handle_route_list handle_sg_create handle_sg_list
    handle_sg_rule_add handle_sg_rule_list handle_instance_subnet handle_instance_subnet_get next_id
    completed_rule
serve-Stores (create_vpc v now) s g room = elim (Bool-cases (v.name == "" || v.cidr == "")) [
  | inl e ↦ rw e (same s _ refl g)
  | inr e ↦ rw e (rw (next_seq-lt s.seq room) (insert_vpc-Stores s g _ refl))
]
serve-Stores list_vpcs s g room = same s _ refl g
serve-Stores (get_vpc id) s g room = same s _ (found_vpc-nothing (Sql.find vpc_key id s.vpcs)) g
serve-Stores (create_subnet v now) s g room = elim (Bool-cases (v.vpc_id == "" || v.cidr == "")) [
  | inl e ↦ rw e (same s _ refl g)
  | inr e ↦ rw e (rw (next_seq-lt s.seq room) (insert_subnet-Stores s g _ refl))
]
serve-Stores (list_subnets id) s g room = elim (Bool-cases (id == "")) [
  | inl e ↦ rw e (same s _ refl g)
  | inr e ↦ rw e (same s _ refl g)
]
serve-Stores (create_route v now) s g room =
    elim (Bool-cases (v.subnet_id == "" || (v.dest == "" || v.target == ""))) [
      | inl e ↦ rw e (same s _ refl g)
      | inr e ↦ rw e (rw (next_seq-lt s.seq room) (insert_route-Stores s g _ refl))
    ]
serve-Stores (list_routes id) s g room = elim (Bool-cases (id == "")) [
  | inl e ↦ rw e (same s _ refl g)
  | inr e ↦ rw e (same s _ refl g)
]
serve-Stores (create_group v now) s g room = elim (Bool-cases (v.name == "" || v.vpc_id == "")) [
  | inl e ↦ rw e (same s _ refl g)
  | inr e ↦ rw e (rw (next_seq-lt s.seq room) (insert_group-Stores s g _ refl))
]
serve-Stores list_groups s g room = same s _ refl g
serve-Stores (add_rule id v) s g room = elim (Bool-cases (v.direction == "" || v.action == "")) [
  | inl e ↦ rw e (same s _ refl g)
  | inr e ↦ rw e (rw (next_seq-lt s.seq room) (insert_rule-Stores s g _ refl))
]
serve-Stores (list_rules id) s g room = same s _ refl g
serve-Stores (assign_subnet id subnet) s g room = elim (Bool-cases (subnet == "")) [
  | inl e ↦ rw e (same s _ refl g)
  | inr e ↦ rw e (assigned-Stores s _ g)
]
serve-Stores (get_subnet id) s g room =
    same s _ (found_subnet-nothing id (Sql.find instance_key id s.instance_subnets)) g

serve_all-stores :
    (rs : List Request) (s : Network)
    → IsGiven s
    → s.seq + length rs < u64_mod
    → let (s', replies) = serve_all rs s in tables s' ≡ join (tables s) (all_created replies)
unfolding serve_all all_created
serve_all-stores [] s g room = join-nothing (tables s)
serve_all-stores (r ∷ rs) s g room =
    let t = serve true r s in
    let step = serve-Stores r s g (omega arith) in
    serve_all-stores rs t.0 step.given (omega (arith, step.few))
    ∙ ap (λ a. join a (all_created (serve_all rs t.0).1)) step.stored
    ∙ join_assoc (tables s) (created_by t.1) (all_created (serve_all rs t.0).1)

-- the tables before the first request
abbrev pub empty : Network
empty = record {
  vpcs = [];
  subnets = [];
  route_tables = [];
  security_groups = [];
  sg_rules = [];
  instance_subnets = [];
  seq = 0;
}

-- In one run from empty tables, after any requests whose statements succeed, fewer than the
-- sequence has numbers: the clouds, subnets, routes, groups and rules of the tables are those that
-- the answers with status 201 have reported, each once, in the order of the answers.
pub tables_as_answered :
    (rs : List Request)
    → length rs < u64_mod
    → let (s, replies) = serve_all rs empty in tables s ≡ all_created replies
unfolding tables
tables_as_answered rs room = serve_all-stores rs empty (tt, tt, tt, tt, tt) (omega arith)
