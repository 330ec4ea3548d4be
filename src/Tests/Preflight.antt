-- ===== src/Tests/Preflight.antt =====
-- A server whose settings are written in letters of either case, and one with partial documents.
use mulligan.Base.{◌≡◌, ◌↔◌, refl, true, false, Option, none, some, [], ok, err, if◌then◌else◌}
use mulligan.Base.Text.{Bytes, codes, beq, has_prefix}
use mulligan.Source.Preflight.{
  mysql, mariadb, partial_json, has_part, check_setting, check_options, check_each, check_settings,
  statement_capture, flavor_from_version, server_identity, identity_mariadb,
}
use mulligan.Source.Preflight.Identity.{SameServer, server_identity-SameServer}
use mulligan.Source.Preflight.Reversible.{LogsWholeRows, check_settings-iff-LogsWholeRows}
use mulligan.Tests.Change.{ascii}

abbrev reported : Bytes → Bytes → Option Bytes
reported options name =
    if beq name (codes "binlog_format")
    then some (codes "row")
    else if beq name (codes "binlog_row_image")
    then some (codes "Full")
    else if beq name (codes "binlog_row_metadata")
    then some (codes "FULL")
    else if beq name (codes "binlog_rows_query_log_events")
    then some (codes "ON")
    else if beq name (codes "binlog_row_value_options")
    then some options
    else none

check_settings_admits : check_settings ascii (reported []) ≡ ok tt
unfolding check_settings check_each check_setting check_options has_part has_prefix
check_settings_admits = refl

check_settings_partial :
    check_settings ascii (reported (codes "x,partial_json"))
    ≡ err (partial_json (codes "x,partial_json"))
unfolding check_settings check_each check_setting check_options has_part has_prefix
check_settings_partial = refl

statement_capture_flavors :
    (statement_capture ascii mysql (reported []) ≡ true)
    × (statement_capture ascii mariadb (reported []) ≡ false)
unfolding statement_capture
statement_capture_flavors = (refl, refl)

flavor_of_mariadb : flavor_from_version ascii (codes "10.11-MariaDB") ≡ mariadb
unfolding flavor_from_version has_part has_prefix
flavor_of_mariadb = refl

check_settings-iff-LogsWholeRows_example :
    (check_settings ascii (reported []) ≡ ok tt) ↔ LogsWholeRows ascii (reported [])
check_settings-iff-LogsWholeRows_example = check_settings-iff-LogsWholeRows ascii (reported [])

abbrev second_replica : Bytes → Option Bytes
second_replica name =
    if beq name (codes "gtid_domain_id")
    then some (codes "1")
    else if beq name (codes "server_id")
    then some (codes "12")
    else none

replica_identity :
    server_identity ascii mariadb second_replica ≡ ok (codes "mariadb:1:12", codes "mariadb")
unfolding server_identity identity_mariadb
replica_identity = refl

server_identity-SameServer_example : SameServer mariadb second_replica mariadb second_replica
server_identity-SameServer_example =
    server_identity-SameServer ascii mariadb mariadb second_replica second_replica
      (codes "mariadb:1:12") (codes "mariadb") (codes "mariadb") (refl, tt) (refl, tt)
      replica_identity replica_identity
