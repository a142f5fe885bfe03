-- ===== src/Cli/SetKubeconfigServer.antt =====
-- pkg/kubeconfig/kubeconfig.go and cmd/ekco/cli/set-kubeconfig-server.go: the server in the kubeconfig
-- files of a host. What restarts the kubelet, over D-Bus, is one call.
pub mod Writes
use Prim.Native.String.{◌++◌ as join_text}
use ekco.Prelude.{String, Bool, Option, none, some, map}
use ekco.Errors.{failure}
use ekco.Kube.{
  KubeConfig, Call, Action, pure, raise, lift, asks, send, ◌>>=◌, ◌>>◌, plain, expect_plain, when,
}

abbrev at_server : String → String × String → String × String
at_server server (key, old) = (key, server)

abbrev pub with_server : String → KubeConfig → KubeConfig
with_server server config = record config { clusters = map (at_server server) config.clusters }

abbrev loaded : Option KubeConfig → Action KubeConfig
loaded none = raise (failure "load kubeconfig")
loaded (some config) = pure config

abbrev printed : Option String → Action String
printed none = raise (failure "write kubeconfig")
printed (some updated) = pure updated

-- The file is emptied only once the new text is there.
unfoldable pub overwrite : String → String → Action (Unit {0})
overwrite file updated = do
  lift (← send (Call.truncate_file file))
  lift (← send (Call.seek_start file))
  lift (← send (Call.write_opened file updated))

unfoldable pub set_server : String → String → Action (Unit {0})
set_server file server = do
  lift (← send (Call.open_file file))
  text ← lift (← send (Call.read_file file))
  read ← asks (λ env. env.load_kubeconfig text)
  config ← loaded read
  shown ← asks (λ env. env.print_kubeconfig (with_server server config))
  updated ← printed shown
  overwrite file updated

-- `filepath.Join` of a directory without a slash at its end
abbrev pub kubelet_conf : String → String
kubelet_conf etc_dir = join_text etc_dir "/kubernetes/kubelet.conf"

abbrev pub admin_conf : String → String
admin_conf etc_dir = join_text etc_dir "/kubernetes/admin.conf"

unfoldable pub set_kubeconfig_server_command : String → String → Bool → Action (Unit {0})
set_kubeconfig_server_command etc_dir server admin = do
  plain "update kubelet.conf" (set_server (kubelet_conf etc_dir) server)
  when admin (plain "update admin.conf" (set_server (admin_conf etc_dir) server))
  expect_plain "restart kubelet" (send Call.restart_kubelet)
