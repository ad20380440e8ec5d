-- ===== src/Vpc/Created.antt =====
-- control-plane/networking/vpc/main.go: the resources that answers of the service report.
use mathlib.Core.List.{append-nil, append_assoc}
use tiny_aws.Prelude.{◌≡◌, sym, List, [], ◌∷◌, ◌++◌, eqb, if◌then◌else◌}
use tiny_aws.Go.Http.{Response, json, error, no_body, status_created}
use tiny_aws.Vpc.{
  Vpc, Subnet, RouteTable, SecurityGroup, SgRule, Network, Reply, one_vpc, vpc_list, one_subnet,
  subnet_list, one_route, route_list, one_group, group_list, one_rule, rule_list, assigned,
}

-- What an answer says was created: nothing, unless its status is 201.
pub record Created : Type 0 where
  pub vpcs : List Vpc
  pub subnets : List Subnet
  pub route_tables : List RouteTable
  pub security_groups : List SecurityGroup
  pub sg_rules : List SgRule

abbrev pub nothing : Created
nothing = record { vpcs = []; subnets = []; route_tables = []; security_groups = []; sg_rules = [] }

abbrev pub created_reply : Reply → Created
created_reply (one_vpc v) = record nothing { vpcs = v ∷ [] }
created_reply (one_subnet v) = record nothing { subnets = v ∷ [] }
created_reply (one_route v) = record nothing { route_tables = v ∷ [] }
created_reply (one_group v) = record nothing { security_groups = v ∷ [] }
created_reply (one_rule v) = record nothing { sg_rules = v ∷ [] }
created_reply (vpc_list l) = nothing
created_reply (subnet_list l) = nothing
created_reply (route_list l) = nothing
created_reply (group_list l) = nothing
created_reply (rule_list l) = nothing
created_reply (assigned id subnet) = nothing

abbrev pub created_by : Response Reply → Created
created_by (json status reply) = if eqb status status_created then created_reply reply else nothing
created_by (error status text) = nothing
created_by (no_body status) = nothing

-- the resources of two sets, in order
abbrev pub join : Created → Created → Created
join a b = record {
  vpcs = a.vpcs ++ b.vpcs;
  subnets = a.subnets ++ b.subnets;
  route_tables = a.route_tables ++ b.route_tables;
  security_groups = a.security_groups ++ b.security_groups;
  sg_rules = a.sg_rules ++ b.sg_rules;
}

unfoldable pub all_created : List (Response Reply) → Created
all_created [] = nothing
all_created (r ∷ rs) = join (created_by r) (all_created rs)

-- the five tables of resources
unfoldable pub tables : Network → Created
tables s = record {
  vpcs = s.vpcs;
  subnets = s.subnets;
  route_tables = s.route_tables;
  security_groups = s.security_groups;
  sg_rules = s.sg_rules;
}

pub join-nothing : (a : Created) → a ≡ join a nothing
join-nothing a = λ i. record {
  vpcs = sym (append-nil a.vpcs) i;
  subnets = sym (append-nil a.subnets) i;
  route_tables = sym (append-nil a.route_tables) i;
  security_groups = sym (append-nil a.security_groups) i;
  sg_rules = sym (append-nil a.sg_rules) i;
}

pub join_assoc : (a b c : Created) → join (join a b) c ≡ join a (join b c)
join_assoc a b c = λ i. record {
  vpcs = append_assoc a.vpcs b.vpcs c.vpcs i;
  subnets = append_assoc a.subnets b.subnets c.subnets i;
  route_tables = append_assoc a.route_tables b.route_tables c.route_tables i;
  security_groups = append_assoc a.security_groups b.security_groups c.security_groups i;
  sg_rules = append_assoc a.sg_rules b.sg_rules c.sg_rules i;
}
