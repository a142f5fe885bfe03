-- ===== src/Cli/Init.antt =====
-- cmd/ekco/cli/init.go: the settings and the controller that the commands begin with.
pub mod Accepted
use ekco.Prelude.{String, Bool, not, ◌&&◌, List, ltb, if◌then◌else◌}
use ekco.Errors.{Result, failure}
use ekco.Kube.{Action, pure, raise, lift, wrap, ◌>>=◌, ◌>>◌, expect}
use ekco.Cluster.Config.{ControllerConfig}
use ekco.Ekcoops.Config.{Config}

-- `ekcoops.Config`: what the operator reads itself, what it passes on to the controller under the same
-- names, and what only the command reads.
pub record EkcoConfig : Type 0 where
  pub operator : Config
  pub controller : ControllerConfig
  pub contour_cert_namespace : String
  pub pod_image_overrides : List String

-- github.com/spf13/viper: the settings, read into a `Config`, and whether one of them was set.
pub record Viper : Type 0 where
  pub unmarshal : Result EkcoConfig
  pub is_set : String → Bool

-- What the command gets of other libraries: the logger, the configuration inside a cluster and the
-- clients.
pub record Host : Type 0 where
  pub logger : Result (Unit {0})
  pub in_cluster_config : Result (Unit {0})
  pub kubernetes_client : Result (Unit {0})
  pub controller_runtime_client : Result (Unit {0})
  pub ceph_client : Result (Unit {0})
  pub dynamic_client : Result (Unit {0})

-- The deprecated setting stands in for the one that is missing.
abbrev pub with_contour_namespace : Viper → EkcoConfig → EkcoConfig
with_contour_namespace v config =
    if not (v.is_set "contour_namespace") && v.is_set "contour_cert_namespace"
    then record config {
      controller = record config.controller { contour_namespace = config.contour_cert_namespace };
    }
    else config

abbrev pub checked_config : Viper → EkcoConfig → Action EkcoConfig
checked_config v config =
    if ltb config.operator.min_ready_master_nodes 1
    then raise (failure "min_ready_master_nodes must be at least 1")
    else pure (with_contour_namespace v config)

unfoldable pub init_ekco_config : Viper → Action EkcoConfig
init_ekco_config v = do
  config ← expect "failed to unmarshal config" (pure v.unmarshal)
  checked_config v config

unfoldable pub init_cluster_controller : Host → EkcoConfig → Action ControllerConfig
init_cluster_controller host config = do
  expect "load kubernetes config" (pure host.in_cluster_config)
  expect "initialize kubernetes client" (pure host.kubernetes_client)
  expect "initialize controller runtime client" (pure host.controller_runtime_client)
  expect "initialize ceph client" (pure host.ceph_client)
  expect "failed creating Kubernetes client." (pure host.dynamic_client)
  pure config.controller

-- How the commands that need the controller begin.
unfoldable pub initialize : Viper → Host → Action EkcoConfig
initialize v host = do
  config ← wrap "failed to initialize config" (init_ekco_config v)
  wrap "failed to initialize logger" (lift host.logger)
  controller ← wrap "failed to initialize cluster controller" (init_cluster_controller host config)
  pure (record config { controller = controller })
