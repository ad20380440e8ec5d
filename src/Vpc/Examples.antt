-- ===== src/Vpc/Examples.antt =====
-- control-plane/networking/vpc/main.go: clouds and assignments at concrete inputs.
use tiny_aws.Prelude.{◌*◌, true, ◌≡◌, refl, none, some, [], ◌∷◌, ne_of_eq_false}
use tiny_aws.Go.Http.{json, status_created}
use tiny_aws.Go.Time.{second, format_rfc3339}
use tiny_aws.Sql
use tiny_aws.Vpc.{next_id, Vpc, Network, one_vpc, restart, handle_vpc_create}
use tiny_aws.Vpc.Routes.{Request, create_vpc, get_vpc, serve, serve_all}
use tiny_aws.Vpc.Created.{tables, all_created}
use tiny_aws.Vpc.Stored.{empty, tables_as_answered}
use tiny_aws.Vpc.{insert_unchecked, handle_vpc_get}
use tiny_aws.Prelude.{List, arith}
use tiny_aws.Go.Fmt.{next_seq, format_id}
use tiny_aws.Vpc.Ids.{restart_loses_vpc}

abbrev request : Vpc
request = record { id = ""; name = "blue"; cidr = "10.0.0.0/16"; created_at = none }

abbrev first : Vpc
first = record { id = "vpc-1"; name = "old"; cidr = "10.1.0.0/16"; created_at = some 5 }

abbrev used : Network
used = record empty { vpcs = first ∷ []; seq = 1 }

-- After a restart the first identifier is that of a row, and the cloud is lost.
lost : handle_vpc_create true request (7 * second) (restart used) ≡ (
  record used { seq = 1 },
  json status_created
      (one_vpc (record request { id = "vpc-1"; created_at = some (format_rfc3339 (7 * second)) })),
)
lost =
    restart_loses_vpc true request (7 * second) used (unfold Sql.has in refl)
      (ne_of_eq_false "blue" "" refl) (ne_of_eq_false "10.0.0.0/16" "" refl)

abbrev asked : List Request
asked =
    create_vpc request (7 * second)
    ∷ create_vpc (record request { name = "" }) (8 * second)
    ∷ get_vpc "vpc-1"
    ∷ []

tables_as_answered_example :
    let (s, replies) = serve_all asked empty in tables s ≡ all_created replies
tables_as_answered_example = tables_as_answered asked (omega arith)

-- One cloud is stored: the request without a name and the query store none.
stored : (serve_all asked empty).0.vpcs ≡ record request { id = "vpc-1"; created_at = some 7 } ∷ []
unfolding serve_all serve handle_vpc_create handle_vpc_get next_id next_seq format_id
    insert_unchecked Sql.exec Sql.insert
stored = refl
