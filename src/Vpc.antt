-- ===== src/Vpc.antt =====
-- control-plane/networking/vpc/main.go: virtual private clouds and what they hold. The tables and
-- the global `seq` are the record `Vpc.Network`. A request is the record that the decoder leaves,
-- whose errors the service discards, as it does those of its inserts. A text of a time is its
-- second count.
pub mod Ids
pub mod Routes
pub mod Created
pub mod Given
pub mod Stored
mod Examples
use tiny_aws.Prelude.{
  ℕ, ◌+◌, String, Bool, true, false, ◌||◌, Option, none, some, List, [], ◌∷◌, ◌==◌, select,
  if◌then◌else◌,
}
use tiny_aws.Prelude.Int.{ℤ}
use tiny_aws.Go.Fmt.{format_id, prefixed, next_seq}
use tiny_aws.Go.Time.{Time, format_rfc3339}
use tiny_aws.Go.Http.{
  Response, json, error, no_body, status_ok, status_created, status_no_content, status_bad_request,
  status_not_found,
}
use tiny_aws.Sql

pub record Vpc : Type 0 where
  pub id : String
  pub name : String
  pub cidr : String
  pub created_at : Option ℕ

pub record Subnet : Type 0 where
  pub id : String
  pub vpc_id : String
  pub name : String
  pub cidr : String
  pub created_at : Option ℕ

pub record RouteTable : Type 0 where
  pub id : String
  pub subnet_id : String
  pub dest : String
  pub target : String
  pub created_at : Option ℕ

pub record SecurityGroup : Type 0 where
  pub id : String
  pub name : String
  pub vpc_id : String
  pub created_at : Option ℕ

pub record SgRule : Type 0 where
  pub id : String
  pub security_group_id : String
  pub direction : String
  pub action : String
  pub protocol : String
  pub port : ℤ
  pub cidr : String

pub record InstanceSubnet : Type 0 where
  pub instance_id : String
  pub subnet_id : String

pub record Network : Type 0 where
  pub vpcs : List Vpc
  pub subnets : List Subnet
  pub route_tables : List RouteTable
  pub security_groups : List SecurityGroup
  pub sg_rules : List SgRule
  pub instance_subnets : List InstanceSubnet
  pub seq : ℕ

abbrev pub vpc_key : Vpc → String
vpc_key v = v.id

abbrev pub subnet_key : Subnet → String
subnet_key v = v.id

abbrev pub route_key : RouteTable → String
route_key v = v.id

abbrev pub group_key : SecurityGroup → String
group_key v = v.id

abbrev pub rule_key : SgRule → String
rule_key v = v.id

abbrev pub instance_key : InstanceSubnet → String
instance_key v = v.instance_id

pub data Reply : Type 0 where
  one_vpc : Vpc → Reply
  vpc_list : List Vpc → Reply
  one_subnet : Subnet → Reply
  subnet_list : List Subnet → Reply
  one_route : RouteTable → Reply
  route_list : List RouteTable → Reply
  one_group : SecurityGroup → Reply
  group_list : List SecurityGroup → Reply
  one_rule : SgRule → Reply
  rule_list : List SgRule → Reply
  assigned : String → String → Reply

-- a start on existing tables: `seq` is 0
unfoldable pub restart : Network → Network
restart s = record s { seq = 0 }

-- `nextID(prefix)`
unfoldable pub next_id : String → ℕ → ℕ × String
next_id prefix seq = let n = next_seq seq in (n, format_id (prefixed prefix "-") n)

-- `db.Exec("INSERT …")` without a look at its error
unfoldable pub insert_unchecked {ℓ} : {R : Type ℓ} → (R → String) → Bool → R → List R → List R
insert_unchecked key db_ok r t = (Sql.exec db_ok (Sql.insert key r t) t).0

unfoldable pub handle_vpc_create : Bool → Vpc → Time → Network → Network × Response Reply
handle_vpc_create db_ok v now s =
    let (n, id) = next_id "vpc" s.seq in
    let v' : Vpc = record v { id = id; created_at = some (format_rfc3339 now) } in
    if v.name == "" || v.cidr == ""
    then (s, error status_bad_request "name and cidr required")
    else (
      record s { vpcs = insert_unchecked vpc_key db_ok v' s.vpcs; seq = n },
      json status_created (one_vpc v'),
    )

unfoldable pub handle_vpc_list : Network → Response Reply
handle_vpc_list s = json status_ok (vpc_list s.vpcs)

abbrev no_vpc : Vpc
no_vpc = record { id = ""; name = ""; cidr = ""; created_at = none }

abbrev pub found_vpc : Option Vpc → Response Reply
found_vpc none = error status_not_found "not found"
found_vpc (some v) = json status_ok (one_vpc v)

-- A query that fails for another reason than a missing row leaves the record empty.
unfoldable pub handle_vpc_get : Bool → String → Network → Response Reply
handle_vpc_get true id s = found_vpc (Sql.find vpc_key id s.vpcs)
handle_vpc_get false id s = json status_ok (one_vpc no_vpc)

unfoldable pub handle_subnet_create : Bool → Subnet → Time → Network → Network × Response Reply
handle_subnet_create db_ok v now s =
    let (n, id) = next_id "subnet" s.seq in
    let v' : Subnet = record v { id = id; created_at = some (format_rfc3339 now) } in
    if v.vpc_id == "" || v.cidr == ""
    then (s, error status_bad_request "vpc_id and cidr required")
    else (
      record s { subnets = insert_unchecked subnet_key db_ok v' s.subnets; seq = n },
      json status_created (one_subnet v'),
    )

unfoldable pub handle_subnet_list : String → Network → Response Reply
handle_subnet_list vpc_id s =
    if vpc_id == ""
    then json status_ok (subnet_list s.subnets)
    else json status_ok (subnet_list (select (λ v. v.vpc_id == vpc_id) s.subnets))

unfoldable pub handle_route_create : Bool → RouteTable → Time → Network → Network × Response Reply
handle_route_create db_ok v now s =
    let (n, id) = next_id "rt" s.seq in
    let v' : RouteTable = record v { id = id; created_at = some (format_rfc3339 now) } in
    if v.subnet_id == "" || (v.dest == "" || v.target == "")
    then (s, error status_bad_request "subnet_id, destination, target required")
    else (
      record s { route_tables = insert_unchecked route_key db_ok v' s.route_tables; seq = n },
      json status_created (one_route v'),
    )

unfoldable pub handle_route_list : String → Network → Response Reply
handle_route_list subnet_id s =
    if subnet_id == ""
    then json status_ok (route_list s.route_tables)
    else json status_ok (route_list (select (λ v. v.subnet_id == subnet_id) s.route_tables))

unfoldable pub handle_sg_create : Bool → SecurityGroup → Time → Network → Network × Response Reply
handle_sg_create db_ok v now s =
    let (n, id) = next_id "sg" s.seq in
    let v' : SecurityGroup = record v { id = id; created_at = some (format_rfc3339 now) } in
    if v.name == "" || v.vpc_id == ""
    then (s, error status_bad_request "name and vpc_id required")
    else (
      record s { security_groups = insert_unchecked group_key db_ok v' s.security_groups; seq = n },
      json status_created (one_group v'),
    )

unfoldable pub handle_sg_list : Network → Response Reply
handle_sg_list s = json status_ok (group_list s.security_groups)

-- The rule that is stored for a request.
unfoldable pub completed_rule : String → String → SgRule → SgRule
completed_rule id sg_id v = record v {
  id = id;
  security_group_id = sg_id;
  protocol = if v.protocol == "" then "*" else v.protocol;
  cidr = if v.cidr == "" then "0.0.0.0/0" else v.cidr;
}

unfoldable pub handle_sg_rule_add : Bool → String → SgRule → Network → Network × Response Reply
handle_sg_rule_add db_ok sg_id v s =
    let (n, id) = next_id "rule" s.seq in
    let v' = completed_rule id sg_id v in
    if v.direction == "" || v.action == ""
    then (s, error status_bad_request "direction and action required")
    else (
      record s { sg_rules = insert_unchecked rule_key db_ok v' s.sg_rules; seq = n },
      json status_created (one_rule v'),
    )

unfoldable pub handle_sg_rule_list : String → Network → Response Reply
handle_sg_rule_list sg_id s =
    json status_ok (rule_list (select (λ v. v.security_group_id == sg_id) s.sg_rules))

unfoldable pub handle_instance_subnet : Bool → String → String → Network → Network × Response Reply
handle_instance_subnet db_ok id subnet_id s =
    let row : InstanceSubnet = record { instance_id = id; subnet_id = subnet_id } in
    let t = s.instance_subnets in
    if subnet_id == "" then (s, error status_bad_request "subnet_id required") else (
      record s { instance_subnets = (Sql.exec db_ok (some (Sql.upsert instance_key row t)) t).0 },
      no_body status_no_content,
    )

abbrev pub found_subnet : String → Option InstanceSubnet → Response Reply
found_subnet id none = error status_not_found "not found"
found_subnet id (some r) = json status_ok (assigned id r.subnet_id)

unfoldable pub handle_instance_subnet_get : Bool → String → Network → Response Reply
handle_instance_subnet_get true id s = found_subnet id (Sql.find instance_key id s.instance_subnets)
handle_instance_subnet_get false id s = json status_ok (assigned id "")
