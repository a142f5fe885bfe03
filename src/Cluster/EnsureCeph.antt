-- ===== src/Cluster/EnsureCeph.antt =====
-- pkg/cluster/rook_ceph.go: `EnsureCephCluster`, which installs the chart of the CephCluster.
pub mod Values
pub mod Releases
pub mod Charts
pub mod Installs
use ekco.Prelude.{String, Option, none, some, map, ◌==◌, if◌then◌else◌}
use ekco.Errors.{is_not_found_err, is_already_exists, Result, failure, wrapped, ok, err}
use ekco.Kube.{
  Value, Fields, null, text_value, map_value, other_value, no_fields, with_field, CephCluster, Call,
  Action, raise, lift, attempt, wrap, send, ◌>>=◌, ◌>>◌, expect, done,
}
use ekco.Cluster.Config.{ControllerConfig}
use ekco.Cluster.Daemons.{get_ceph_cluster}
use ekco.Helm.{latest_chart_by_name, new_helm_manager, install_chart_archive}

-- `m[key]`, which is nil without the key, and `m[key] = value`
unfoldable pub field_at : String → Fields → Value
field_at key no_fields = null
field_at key (with_field k v rest) = if k == key then v else field_at key rest

unfoldable pub set_field : String → Value → Fields → Fields
set_field key value no_fields = with_field key value no_fields
set_field key value (with_field k v rest) =
    if k == key then with_field key value rest else with_field k v (set_field key value rest)

-- A map that is made if there is none; another value is an error.
abbrev pub as_map : Value → Option Fields
as_map null = some no_fields
as_map (map_value fields) = some fields
as_map (text_value s) = none
as_map (other_value s) = none

abbrev image_in_version : String → Fields → Fields → Option Fields → Result Fields
image_in_version image values spec none =
    err (failure "failed to get parse cephVersion as map[string]interface{}")
image_in_version image values spec (some version) = ok (
    set_field "cephClusterSpec"
      (map_value
        (set_field "cephVersion" (map_value (set_field "image" (text_value image) version)) spec))
      values)

abbrev image_in_spec : String → Fields → Option Fields → Result Fields
image_in_spec image values none =
    err (failure "failed to get parse cephClusterSpec as map[string]interface{}")
image_in_spec image values (some spec) =
    image_in_version image values spec (as_map (field_at "cephVersion" spec))

-- Go changes the maps in place; the new values hold the changed maps.
unfoldable pub with_ceph_image : String → Fields → Result Fields
with_ceph_image image values =
    if image == ""
    then ok values
    else image_in_spec image values (as_map (field_at "cephClusterSpec" values))

unfoldable pub ensure_ceph_cluster_helm : ControllerConfig → Action (Unit {0})
ensure_ceph_cluster_helm cfg = do
  (archive, file) ←
      wrap "unable to get rook-ceph-cluster chartfile" (latest_chart_by_name "rook-ceph-cluster")
  wrap "failed to initialize Helm Manager" (new_helm_manager "rook-ceph")
  values ← expect "failed to get rook-ceph chart values" (send Call.chart_values)
  changed ← lift (with_ceph_image cfg.rook_ceph_image values)
  wrap "unable to apply chart" (install_chart_archive archive changed "" "rook-ceph")

abbrev unless_missing : Result CephCluster → Action (Unit {0})
unless_missing (ok cluster) = done
unless_missing (err e) = if is_not_found_err e then done else raise (wrapped "get ceph cluster" e)

abbrev unless_existing : Result (Unit {0}) → Action (Unit {0})
unless_existing (ok _) = done
unless_existing (err e) = if is_already_exists e then done else raise e

-- The name of the storage class, which is passed too, is used by nothing.
unfoldable pub ensure_ceph_cluster : ControllerConfig → Action (Unit {0})
ensure_ceph_cluster cfg = do
  found ← attempt get_ceph_cluster
  unless_missing found
  ensure_ceph_cluster_helm cfg
  created ← send (Call.create_object_store_user "kurl" "rook-ceph-store")
  unless_existing created
