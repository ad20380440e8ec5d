-- ===== src/Vpc/Ids.antt =====
-- control-plane/networking/vpc/main.go: what a restart does to identifiers, and the assignment of
-- instances to subnets.
use tiny_aws.Prelude.{
  String, Bool, true, false, ◌≡◌, ◌≢◌, refl, ap, ◌∙◌, some, List, ◌==◌, eq_false, eq_refl,
  if◌then◌else◌, Bool-cases, inl, inr,
}
use tiny_aws.Go.Fmt.{format_id, next_seq}
use tiny_aws.Go.Time.{Time, format_rfc3339}
use tiny_aws.Go.Http.{json, status_created, status_ok}
use tiny_aws.Sql
use tiny_aws.Sql.Laws.{exec-none, insert-dup, insert-new, find-upsert, find-append}
use tiny_aws.Vpc.{
  Vpc, Network, vpc_key, instance_key, one_vpc, assigned, restart, next_id, insert_unchecked,
  handle_vpc_create, handle_vpc_get, handle_instance_subnet, handle_instance_subnet_get, found_vpc,
}

module _ {ℓ} {R : Type ℓ} (key : R → String) where
  insert_unchecked-dup :
      (db_ok : Bool) (r : R) (t : List R)
      → Sql.has key (key r) t ≡ true
      → insert_unchecked key db_ok r t ≡ t
  unfolding insert_unchecked
  insert_unchecked-dup db_ok r t h =
      ap (λ o. (Sql.exec db_ok o t).0) (insert-dup key r t h) ∙ ap (λ p. p.0) (exec-none db_ok t)

  find-insert_unchecked :
      (r : R) (t : List R)
      → Sql.has key (key r) t ≡ false
      → Sql.find key (key r) (insert_unchecked key true r t) ≡ some r
  unfolding insert_unchecked Sql.exec
  find-insert_unchecked r t h =
      ap (λ o. Sql.find key (key r) (Sql.exec true o t).0) (insert-new key r t h)
      ∙ find-append key r (key r) t h
      ∙ rw (eq_refl (key r))

-- After a restart on a table that holds the identifier vpc-1, the first request that names a cloud
-- and its range is answered 201 with that identifier, and is not stored.
pub restart_loses_vpc :
    (db_ok : Bool) (v : Vpc) (now : Time) (s : Network)
    → Sql.has vpc_key "vpc-1" s.vpcs ≡ true
    → v.name ≢ ""
    → v.cidr ≢ ""
    → handle_vpc_create db_ok v now (restart s) ≡ (
      record s { seq = 1 },
      json status_created
          (one_vpc (record v { id = "vpc-1"; created_at = some (format_rfc3339 now) })),
    )
unfolding handle_vpc_create next_id restart format_id
restart_loses_vpc db_ok v now s held named ranged = rw (eq_false v.name "" named) (
    rw (eq_false v.cidr "" ranged) (
      rw first (
        ap (λ t. (record s { vpcs = t; seq = 1 }, json status_created (one_vpc stored)))
          (insert_unchecked-dup vpc_key db_ok stored s.vpcs held))))
  where
    stored : Vpc
    stored = record v { id = "vpc-1"; created_at = some (format_rfc3339 now) }

    first : next_seq 0 ≡ 1
    first = unfold next_seq in refl

-- While the next identifier is new to the table, a cloud that is stored is found under the
-- identifier of the answer.
pub vpc_get-create :
    (v : Vpc) (now : Time) (s : Network)
    → Sql.has vpc_key (next_id "vpc" s.seq).1 s.vpcs ≡ false
    → v.name ≢ ""
    → v.cidr ≢ ""
    → let id = (next_id "vpc" s.seq).1 in
      let stored : Vpc = record v { id = id; created_at = some (format_rfc3339 now) } in
      let (s', reply) = handle_vpc_create true v now s in
      (reply ≡ json status_created (one_vpc stored))
      × (handle_vpc_get true id s' ≡ json status_ok (one_vpc stored))
unfolding handle_vpc_create handle_vpc_get
vpc_get-create v now s fresh named ranged = rw (eq_false v.name "" named) (
    rw (eq_false v.cidr "" ranged)
      (refl, ap found_vpc (find-insert_unchecked vpc_key _ s.vpcs fresh)))

-- An instance is in the subnet that it was last assigned to, and other assignments stay.
pub subnet_get-assign :
    (id other subnet : String) (s : Network)
    → subnet ≢ ""
    → handle_instance_subnet_get true other (handle_instance_subnet true id subnet s).0 ≡ (
        if id == other
        then json status_ok (assigned other subnet)
        else handle_instance_subnet_get true other s)
unfolding handle_instance_subnet handle_instance_subnet_get Sql.exec
subnet_get-assign id other subnet s named = rw (eq_false subnet "" named) (
    rw
      (find-upsert instance_key (record { instance_id = id; subnet_id = subnet }) other
        s.instance_subnets)
      (elim (Bool-cases (id == other)) [ inl e ↦ rw e | inr e ↦ rw e ]))
