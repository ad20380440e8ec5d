-- ===== src/Registry/Nodes/Overlap.antt =====
-- control-plane/registry/main.go: `handleRegister` gives the lock back before it writes the row, and
-- other requests may come between.
use mathlib.Core.Option
use tiny_aws.Prelude.{true, ◌≡◌, ◌≢◌, refl, ap, ◌∙◌, none, some, List, eq_refl, eq_false}
use tiny_aws.Go.Http.{json, no_body, status_created, status_no_content}
use tiny_aws.Go.Map.{lookup, insert, lookup-insert, lookup-delete}
use tiny_aws.Go.Time.{Time}
use tiny_aws.Sql
use tiny_aws.Sql.Laws.{find-upsert, Unique, Unique-upsert, Unique-remove}
use tiny_aws.Registry.Nodes.{
  Node, Nodes, NodeRow, row_key, to_row, of_row, save, remove, start, one_node, registered,
  store_node, persist_node, delete_node, handle_node_by_id, handle_register,
}
use tiny_aws.Registry.Nodes.Restart.{Runs, Runs-Mirrors, lookup-start, restored}

-- A registration is a change of memory and then a write of the row. A node registers, and between the
-- two it is removed. The removal is answered 204 and the registration 201, and the node is gone; but
-- a restart has it again.
pub late_save_restores_node :
    (n : Node) (now : Time) (s : Nodes)
    → Runs s
    → n.id ≢ ""
    → let n' = registered n now in
      let (s1, removed) = handle_node_by_id true n.id (store_node n' s) in
      let (s2, answer) = persist_node true n' s1 in
      (handle_register true (some n) now s ≡ persist_node true n' (store_node n' s))
      × (removed ≡ no_body status_no_content)
      × (answer ≡ json status_created (one_node n'))
      × (lookup n.id s2.nodes ≡ none)
      × (lookup n.id (start s2.rows).nodes ≡ some (restored n'))
unfolding handle_register handle_node_by_id delete_node save remove Sql.exec
late_save_restores_node n now s r named =
    rw (eq_false n.id "" named, there)
      (
        refl,
        refl,
        refl,
        lookup-delete n.id n.id (store_node n' s).nodes ∙ rw (eq_refl n.id) refl,
        lookup-start rows n.id unique ∙ ap (Option.map of_row) written ∙ back,
      )
  where
    n' : Node
    n' = registered n now

    rows : List NodeRow
    rows = Sql.upsert row_key (to_row n') (Sql.remove row_key n.id s.rows)

    unique : Unique row_key rows
    unique =
        Unique-upsert row_key (to_row n') (Sql.remove row_key n.id s.rows)
          (Unique-remove row_key n.id s.rows (Runs-Mirrors r).row_keys)

    there : lookup n.id (insert n'.id n' s.nodes) ≡ some n'
    there = lookup-insert n'.id n.id n' s.nodes ∙ (unfold registered in rw (eq_refl n.id) refl)

    written : Sql.find row_key n.id rows ≡ some (to_row n')
    written =
        find-upsert row_key (to_row n') n.id (Sql.remove row_key n.id s.rows)
        ∙ (unfold to_row registered in rw (eq_refl n.id) refl)

    back : Option.map of_row (some (to_row n')) ≡ some (restored n')
    back = unfold of_row to_row restored in refl
