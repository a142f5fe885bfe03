-- ===== src/Rotate.antt =====
-- pkg/rotate/rotate.go: what a rotation pod does on its node, `ekco rotate-certs`. kubeadm's renewal
-- manager names the certificates; a residual time that is negative counts as 0.
pub mod Restarts
pub mod External
use Prim.Native.String.{◌++◌ as join_text}
use ekco.Prelude.{
  ℕ, String, Bool, true, false, not, Option, none, some, List, [], ◌∷◌, ◌==◌, ltb, if◌then◌else◌,
}
use ekco.Kube.{Call, Action, pure, send, ◌>>=◌, ◌>>◌, expect, done, when}

-- The names that kubeadm gives the files: parameters.
pub record CertNames : Type 0 where
  pub controller_manager_conf : String
  pub scheduler_conf : String
  pub apiserver_etcd_client : String
  pub apiserver_kubelet_client : String
  pub front_proxy_client : String

-- Which components are to be restarted.
pub record RestartFlags : Type 0 where
  pub controller_manager : Bool
  pub scheduler : Bool
  pub api_server : Bool

abbrev pub no_restarts : RestartFlags
no_restarts = record { controller_manager = false; scheduler = false; api_server = false }

-- The `switch` on the name of a renewed certificate.
abbrev pub mark : CertNames → String → RestartFlags → RestartFlags
mark names name flags =
    if name == names.controller_manager_conf
    then record flags { controller_manager = true }
    else if name == names.scheduler_conf
    then record flags { scheduler = true }
    else if name == names.apiserver_etcd_client
    then record flags { api_server = true }
    else if name == names.apiserver_kubelet_client
    then record flags { api_server = true }
    else if name == names.front_proxy_client
    then record flags { api_server = true }
    else flags

-- `none` is the early return for a certificate of an external CA: its `errors.Wrapf` of a nil error is
-- nil.
unfoldable pub rotate_each :
    CertNames → ℕ → RestartFlags → List String → Action (Option RestartFlags)
rotate_each names ttl flags [] = pure (some flags)
rotate_each names ttl flags (name ∷ certs) = do
  exists ← expect "check for existing certificate" (send (Call.certificate_exists name))
  if not exists then rotate_each names ttl flags certs else do
    left ← expect "get certificate expiration" (send (Call.residual_time name))
    if ltb ttl left then rotate_each names ttl flags certs else do
      renewed ← expect "renew certificate" (send (Call.renew_using_local_ca name))
      if not renewed then pure none else rotate_each names ttl (mark names name flags) certs

abbrev manifest : String → String
manifest filename = join_text "/etc/kubernetes/manifests/" filename

-- The manifest is moved away and back.
unfoldable pub restart_static_pod : String → Action (Unit {0})
restart_static_pod filename = do
  let away = join_text "/etc/kubernetes/" filename
  expect "mv" (send (Call.rename_file (manifest filename) away))
  expect "mv" (send (Call.rename_file away (manifest filename)))

unfoldable pub restart_marked : RestartFlags → Action (Unit {0})
restart_marked flags = do
  when flags.controller_manager (restart_static_pod "kube-controller-manager.yaml")
  when flags.scheduler (restart_static_pod "kube-scheduler.yaml")
  when flags.api_server (restart_static_pod "kube-apiserver.yaml")

abbrev pub after_each : Option RestartFlags → Action (Unit {0})
after_each none = done
after_each (some flags) = restart_marked flags

unfoldable pub rotate_certs : CertNames → ℕ → Action (Unit {0})
rotate_certs names ttl = do
  certs ← expect "new renewal manager" (send Call.renewal_certificates)
  flags ← rotate_each names ttl no_restarts certs
  after_each flags
