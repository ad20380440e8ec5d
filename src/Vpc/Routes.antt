-- ===== src/Vpc/Routes.antt =====
-- control-plane/networking/vpc/main.go: the routes of the service.
use tiny_aws.Prelude.{String, Bool, true, List, [], ◌∷◌}
use tiny_aws.Go.Time.{Time}
use tiny_aws.Go.Http.{Response}
use tiny_aws.Vpc.{
  Vpc, Subnet, RouteTable, SecurityGroup, SgRule, Network, Reply, handle_vpc_create,
  handle_vpc_list, handle_vpc_get, handle_subnet_create, handle_subnet_list, handle_route_create,
  handle_route_list, handle_sg_create, handle_sg_list, handle_sg_rule_add, handle_sg_rule_list,
  handle_instance_subnet, handle_instance_subnet_get,
}

-- the routes but the health check, with what each handler reads of its request
pub data Request : Type 0 where
  create_vpc : Vpc → Time → Request
  list_vpcs : Request
  get_vpc : String → Request
  create_subnet : Subnet → Time → Request
  list_subnets : String → Request
  create_route : RouteTable → Time → Request
  list_routes : String → Request
  create_group : SecurityGroup → Time → Request
  list_groups : Request
  add_rule : String → SgRule → Request
  list_rules : String → Request
  assign_subnet : String → String → Request
  get_subnet : String → Request

-- The `Bool` is the outcome of the statement of the handler.
unfoldable pub serve : Bool → Request → Network → Network × Response Reply
serve ok (create_vpc v now) s = handle_vpc_create ok v now s
serve ok list_vpcs s = (s, handle_vpc_list s)
serve ok (get_vpc id) s = (s, handle_vpc_get ok id s)
serve ok (create_subnet v now) s = handle_subnet_create ok v now s
serve ok (list_subnets vpc_id) s = (s, handle_subnet_list vpc_id s)
serve ok (create_route v now) s = handle_route_create ok v now s
serve ok (list_routes subnet_id) s = (s, handle_route_list subnet_id s)
serve ok (create_group v now) s = handle_sg_create ok v now s
serve ok list_groups s = (s, handle_sg_list s)
serve ok (add_rule sg_id v) s = handle_sg_rule_add ok sg_id v s
serve ok (list_rules sg_id) s = (s, handle_sg_rule_list sg_id s)
serve ok (assign_subnet id subnet_id) s = handle_instance_subnet ok id subnet_id s
serve ok (get_subnet id) s = (s, handle_instance_subnet_get ok id s)

-- requests one after the other, whose statements all succeed, with their answers
unfoldable pub serve_all : List Request → Network → Network × List (Response Reply)
serve_all [] s = (s, [])
serve_all (r ∷ rs) s =
    let (t, reply) = serve true r s in let (u, replies) = serve_all rs t in (u, reply ∷ replies)
