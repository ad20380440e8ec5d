-- ===== src/Vpc/Given.antt =====
-- control-plane/networking/vpc/main.go: the identifiers of the tables, and the storing of a row.
use tiny_aws.Prelude.{
  ℕ, ◌+◌, ◌≤◌, String, true, ◌≡◌, sym, ap, ◌∙◌, List, [], ◌∷◌, ◌++◌, arith, All, All-append,
}
use tiny_aws.Go.Fmt.{format_id, prefixed}
use tiny_aws.Go.Http.{Response, json, status_created}
use tiny_aws.Sql
use tiny_aws.Sql.Laws.{insert-new}
use tiny_aws.Sql.Sequence.{IsNumbered, IsNumbered-mono, has-fresh}
use tiny_aws.Vpc.{
  Vpc, Subnet, RouteTable, SecurityGroup, SgRule, Network, vpc_key, subnet_key, route_key,
  group_key, rule_key, Reply, one_vpc, one_subnet, one_route, one_group, one_rule, insert_unchecked,
}
use tiny_aws.Vpc.Created.{nothing, created_by, join, join-nothing, tables}

-- The identifiers of each table are those of numbers that were given out.
abbrev pub IsGiven : Network → Type 0
IsGiven s =
    All (IsNumbered (prefixed "vpc" "-") vpc_key s.seq) s.vpcs
    × All (IsNumbered (prefixed "subnet" "-") subnet_key s.seq) s.subnets
    × All (IsNumbered (prefixed "rt" "-") route_key s.seq) s.route_tables
    × All (IsNumbered (prefixed "sg" "-") group_key s.seq) s.security_groups
    × All (IsNumbered (prefixed "rule" "-") rule_key s.seq) s.sg_rules

-- A request stores what it says that it created, behind what there was.
pub record Stores (s s' : Network) (reply : Response Reply) : Type 0 where
  pub given : IsGiven s'
  pub few : s'.seq ≤ s.seq + 1
  pub stored : tables s' ≡ join (tables s) (created_by reply)

module _ {R : Type 0} (prefix : String) (key : R → String) where
  -- The next number is that of no row.
  insert_unchecked-fresh :
      (n : ℕ) (r : R) (t : List R)
      → key r ≡ format_id prefix (n + 1)
      → All (IsNumbered prefix key n) t
      → insert_unchecked key true r t ≡ t ++ r ∷ []
  unfolding insert_unchecked Sql.exec
  insert_unchecked-fresh n r t e h =
      ap (λ o. (Sql.exec true o t).0)
        (insert-new key r t
          (ap (λ k. Sql.has key k t) e ∙ has-fresh prefix key n (n + 1) t h (omega arith)))

  IsNumbered-append :
      (n : ℕ) (r : R) (t : List R)
      → key r ≡ format_id prefix (n + 1)
      → All (IsNumbered prefix key n) t
      → All (IsNumbered prefix key (n + 1)) (t ++ r ∷ [])
  IsNumbered-append n r t e h =
      All-append (IsNumbered prefix key (n + 1)) t (r ∷ [])
        (IsNumbered-mono prefix key t (omega arith) h) ((n + 1, e, omega arith), tt)

-- a number is taken, and no table has changed yet
later : (s : Network) → IsGiven s → IsGiven (record s { seq = s.seq + 1 })
later s (vpcs, subnets, routes, groups, rules) = (
  IsNumbered-mono _ vpc_key s.vpcs (omega arith) vpcs,
  IsNumbered-mono _ subnet_key s.subnets (omega arith) subnets,
  IsNumbered-mono _ route_key s.route_tables (omega arith) routes,
  IsNumbered-mono _ group_key s.security_groups (omega arith) groups,
  IsNumbered-mono _ rule_key s.sg_rules (omega arith) rules,
)

pub same :
    (s : Network) (reply : Response Reply)
    → created_by reply ≡ nothing
    → IsGiven s
    → Stores s s reply
same s reply e g = record {
  given = g;
  few = omega arith;
  stored = join-nothing (tables s) ∙ ap (join (tables s)) (sym e);
}

module _ (s : Network) (g : IsGiven s) where
  pub insert_vpc-Stores :
      (x : Vpc)
      → x.id ≡ format_id (prefixed "vpc" "-") (s.seq + 1)
      → Stores s
          (record s { vpcs = insert_unchecked vpc_key true x s.vpcs; seq = s.seq + 1 })
          (json status_created (one_vpc x))
  unfolding tables
  insert_vpc-Stores x e = record {
    given = rw fresh (
      IsNumbered-append _ vpc_key s.seq x s.vpcs e g.0,
      (later s g).1,
      (later s g).2,
      (later s g).3,
      (later s g).4,
    );
    few = omega arith;
    stored = λ i. record (join-nothing (tables s) i) { vpcs = fresh i };
  }
    where
      fresh : insert_unchecked vpc_key true x s.vpcs ≡ s.vpcs ++ x ∷ []
      fresh = insert_unchecked-fresh (prefixed "vpc" "-") vpc_key s.seq x s.vpcs e g.0

  pub insert_subnet-Stores :
      (x : Subnet)
      → x.id ≡ format_id (prefixed "subnet" "-") (s.seq + 1)
      → Stores s
          (record s { subnets = insert_unchecked subnet_key true x s.subnets; seq = s.seq + 1 })
          (json status_created (one_subnet x))
  unfolding tables
  insert_subnet-Stores x e = record {
    given = rw fresh (
      (later s g).0,
      IsNumbered-append _ subnet_key s.seq x s.subnets e g.1,
      (later s g).2,
      (later s g).3,
      (later s g).4,
    );
    few = omega arith;
    stored = λ i. record (join-nothing (tables s) i) { subnets = fresh i };
  }
    where
      fresh : insert_unchecked subnet_key true x s.subnets ≡ s.subnets ++ x ∷ []
      fresh = insert_unchecked-fresh (prefixed "subnet" "-") subnet_key s.seq x s.subnets e g.1

  pub insert_route-Stores :
      (x : RouteTable)
      → x.id ≡ format_id (prefixed "rt" "-") (s.seq + 1)
      → Stores s
          (record s {
            route_tables = insert_unchecked route_key true x s.route_tables;
            seq = s.seq + 1;
          })
          (json status_created (one_route x))
  unfolding tables
  insert_route-Stores x e = record {
    given = rw fresh (
      (later s g).0,
      (later s g).1,
      IsNumbered-append _ route_key s.seq x s.route_tables e g.2,
      (later s g).3,
      (later s g).4,
    );
    few = omega arith;
    stored = λ i. record (join-nothing (tables s) i) { route_tables = fresh i };
  }
    where
      fresh : insert_unchecked route_key true x s.route_tables ≡ s.route_tables ++ x ∷ []
      fresh = insert_unchecked-fresh (prefixed "rt" "-") route_key s.seq x s.route_tables e g.2

  pub insert_group-Stores :
      (x : SecurityGroup)
      → x.id ≡ format_id (prefixed "sg" "-") (s.seq + 1)
      → Stores s
          (record s {
            security_groups = insert_unchecked group_key true x s.security_groups;
            seq = s.seq + 1;
          })
          (json status_created (one_group x))
  unfolding tables
  insert_group-Stores x e = record {
    given = rw fresh (
      (later s g).0,
      (later s g).1,
      (later s g).2,
      IsNumbered-append _ group_key s.seq x s.security_groups e g.3,
      (later s g).4,
    );
    few = omega arith;
    stored = λ i. record (join-nothing (tables s) i) { security_groups = fresh i };
  }
    where
      fresh : insert_unchecked group_key true x s.security_groups ≡ s.security_groups ++ x ∷ []
      fresh = insert_unchecked-fresh (prefixed "sg" "-") group_key s.seq x s.security_groups e g.3

  pub insert_rule-Stores :
      (x : SgRule)
      → x.id ≡ format_id (prefixed "rule" "-") (s.seq + 1)
      → Stores s
          (record s { sg_rules = insert_unchecked rule_key true x s.sg_rules; seq = s.seq + 1 })
          (json status_created (one_rule x))
  unfolding tables
  insert_rule-Stores x e = record {
    given = rw fresh (
      (later s g).0,
      (later s g).1,
      (later s g).2,
      (later s g).3,
      IsNumbered-append _ rule_key s.seq x s.sg_rules e g.4,
    );
    few = omega arith;
    stored = λ i. record (join-nothing (tables s) i) { sg_rules = fresh i };
  }
    where
      fresh : insert_unchecked rule_key true x s.sg_rules ≡ s.sg_rules ++ x ∷ []
      fresh = insert_unchecked-fresh (prefixed "rule" "-") rule_key s.seq x s.sg_rules e g.4
