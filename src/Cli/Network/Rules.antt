-- ===== src/Cli/Network/Rules.antt =====
-- control-plane/cli/vpc.go with control-plane/networking/vpc: a rule of a security group that is
-- added from the command line.
use tiny_aws.Prelude.{
  ◌+◌, ◌<◌, String, true, false, ◌≡◌, ◌≢◌, refl, sym, subst, some, [], ◌∷◌, ◌++◌, ◌==◌, eq_false,
  if◌then◌else◌,
}
use tiny_aws.Prelude.Int.{pos}
use tiny_aws.Cli.{Value, text}
use tiny_aws.Cli.Network.{rule_payload}
use tiny_aws.Go.Fmt.{u64_mod, format_id, prefixed}
use tiny_aws.Go.Fmt.RoundTrip.{next_seq-lt}
use tiny_aws.Go.Http.{json, status_created}
use tiny_aws.Go.Map.{GoMap, lookup}
use tiny_aws.Sql
use tiny_aws.Sql.Laws.{insert-new}
use tiny_aws.Vpc.{
  SgRule, Network, rule_key, one_rule, next_id, insert_unchecked, completed_rule,
  handle_sg_rule_add,
}

-- What `json.Decode` makes of an object, in the struct of a rule: the texts of the text fields, and
-- nothing of a text in the field of an integer, which stays 0, while the other fields are read.
pub record IsDecoder (decode : GoMap Value → SgRule) : Type 0 where
  pub reads_direction :
      (m : GoMap Value) (t : String)
      → lookup "direction" m ≡ some (text t)
      → (decode m).direction ≡ t
  pub reads_action :
      (m : GoMap Value) (t : String) → lookup "action" m ≡ some (text t) → (decode m).action ≡ t
  pub reads_protocol :
      (m : GoMap Value) (t : String) → lookup "protocol" m ≡ some (text t) → (decode m).protocol ≡ t
  pub reads_cidr :
      (m : GoMap Value) (t : String) → lookup "cidr" m ≡ some (text t) → (decode m).cidr ≡ t
  pub skips_port :
      (m : GoMap Value) (t : String) → lookup "port" m ≡ some (text t) → (decode m).port ≡ pos 0

-- the rule that is stored for a decoded one, with the port that it has
abbrev stored_rule : String → String → SgRule → SgRule
stored_rule id group v = record v {
  id = id;
  security_group_id = group;
  protocol = if v.protocol == "" then "*" else v.protocol;
  cidr = if v.cidr == "" then "0.0.0.0/0" else v.cidr;
}

rule-added :
    (group : String) (v : SgRule) (s : Network)
    → v.direction ≢ ""
    → v.action ≢ ""
    → s.seq + 1 < u64_mod
    → Sql.has rule_key (format_id "rule-" (s.seq + 1)) s.sg_rules ≡ false
    → let row = stored_rule (format_id "rule-" (s.seq + 1)) group v in
      let (s', reply) = handle_sg_rule_add true group v s in
      (reply ≡ json status_created (one_rule row)) × (s'.sg_rules ≡ s.sg_rules ++ row ∷ [])
unfolding handle_sg_rule_add next_id insert_unchecked prefixed Sql.exec completed_rule
rule-added group v s full_d full_a room fresh =
    simp (next_seq-lt s.seq room, eq_false v.direction "" full_d, eq_false v.action "" full_a)
      (simp
        (insert-new rule_key (stored_rule (format_id "rule-" (s.seq + 1)) group v) s.sg_rules fresh)
        (refl, refl))

-- The command line sends the port of a rule as a text. Whatever port is asked for, with a direction and
-- an action: the request is answered 201, and the table gets the rule with the port 0, behind all
-- others, with the direction and the action as they are asked for, and with the protocol and the
-- addresses, where they are not empty, and otherwise "*" and "0.0.0.0/0". The statement succeeds,
-- a number is left, and no rule has the next identifier.
pub rule_port_lost :
    (decode : GoMap Value → SgRule) (group action direction protocol port cidr : String)
    (s : Network)
    → IsDecoder decode
    → direction ≢ ""
    → action ≢ ""
    → s.seq + 1 < u64_mod
    → Sql.has rule_key (format_id "rule-" (s.seq + 1)) s.sg_rules ≡ false
    → let row : SgRule = record {
      id = format_id "rule-" (s.seq + 1);
      security_group_id = group;
      direction = direction;
      action = action;
      protocol = if protocol == "" then "*" else protocol;
      port = pos 0;
      cidr = if cidr == "" then "0.0.0.0/0" else cidr;
    } in
      let (s', reply) =
        handle_sg_rule_add true group
          (decode (rule_payload action direction protocol port cidr))
          s in
      (reply ≡ json status_created (one_rule row)) × (s'.sg_rules ≡ s.sg_rules ++ row ∷ [])
rule_port_lost decode group action direction protocol port cidr s d full_d full_a room fresh =
    subst
      (λ v.
        let row = stored_rule (format_id "rule-" (s.seq + 1)) group asked in
        let (s', reply) = handle_sg_rule_add true group v s in
        (reply ≡ json status_created (one_rule row)) × (s'.sg_rules ≡ s.sg_rules ++ row ∷ []))
      (sym is_asked) (rule-added group asked s full_d full_a room fresh)
  where
    m : GoMap Value
    m = rule_payload action direction protocol port cidr

    asked : SgRule
    asked = record (decode m) {
      direction = direction;
      action = action;
      protocol = protocol;
      port = pos 0;
      cidr = cidr;
    }

    is_direction : (decode m).direction ≡ direction
    is_direction = d.reads_direction m direction (unfold rule_payload lookup in refl)

    is_action : (decode m).action ≡ action
    is_action = d.reads_action m action (unfold rule_payload lookup in refl)

    is_protocol : (decode m).protocol ≡ protocol
    is_protocol = d.reads_protocol m protocol (unfold rule_payload lookup in refl)

    is_cidr : (decode m).cidr ≡ cidr
    is_cidr = d.reads_cidr m cidr (unfold rule_payload lookup in refl)

    is_port : (decode m).port ≡ pos 0
    is_port = d.skips_port m port (unfold rule_payload lookup in refl)

    is_asked : decode m ≡ asked
    is_asked = λ i. record (decode m) {
      direction = is_direction i;
      action = is_action i;
      protocol = is_protocol i;
      port = is_port i;
      cidr = is_cidr i;
    }
