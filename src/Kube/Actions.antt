-- ===== src/Kube/Actions.antt =====
-- An action runs against an environment and the calls made so far, newest first, and gives its result
-- and the longer list. An answer may depend on everything that was called before it, so an
-- environment is any cluster, any other actor and any fault.
use ekco.Prelude.{ℕ, String, Bool, Option, none, some, List, ◌∷◌, if◌then◌else◌}
use ekco.Errors.{failure, is_not_found_err, Error, Result, wrapped, ok, err}
use ekco.Prelude.Int.{ℤ}
use ekco.Kube.Ceph.{Version}
use ekco.Kube.Tasks.{Certificate}
use ekco.Kube.Kubeadm.{ClusterStatus}
use ekco.Kube.Files.{PodManifest, KubeConfig}
use ekco.Kube.Calls.{Call, Reply}

abbrev pub Trace : Type 0
Trace = List Call

pub record Env : Type 0 where
  pub answer : (c : Call) → Trace → Reply c
  -- github.com/blang/semver
  pub semver_lt : Version → Version → Bool
  pub semver_parse : String → Option Version
  -- gopkg.in/yaml.v2 on a ClusterStatus
  pub unmarshal_status : String → Option ClusterStatus
  pub marshal_status : ClusterStatus → Option String
  -- time.RFC3339
  pub format_time : ℕ → String
  pub parse_time : String → Option ℕ
  -- k8s.io/kubernetes/cmd/kubeadm: the advertise address of an endpoint's text, and etcd's ports
  pub parse_api_endpoint : String → Option String
  pub etcd_peer_port : String
  pub etcd_client_port : String
  -- k8s.io/client-go/util/cert
  pub parse_certs : String → Option (List Certificate)
  -- k8s.io/kubernetes/cmd/kubeadm: `CertificateValidityPeriod` and `RemoveDuplicateAltNames`
  pub certificate_validity_period : ℕ
  pub remove_duplicate_names : List String → List String
  -- `fmt.Sprint` of a number
  pub format_int : ℕ → String
  -- `String` of a time.Duration
  pub format_duration : ℕ → String
  -- The order in which a loop over a map takes its keys: each loop has its own.
  pub map_order : ℕ → Trace → List String → List String
  -- What a conversion to int makes of the infinity or the NaN that a division by zero gives.
  pub int_of_division_by_zero : ℤ
  -- The text of the address that `net.ParseIP` reads, if it reads one.
  pub parse_ip : String → Option String
  -- The template haproxy.yaml at an image and a file version, and the YAML of a pod
  pub haproxy_manifest : String → String → Option String
  pub unmarshal_pod : String → Option PodManifest
  -- k8s.io/client-go/tools/clientcmd
  pub load_kubeconfig : String → Option KubeConfig
  pub print_kubeconfig : KubeConfig → Option String

abbrev pub Action {ℓ} : Type ℓ → Type ℓ
Action A = Env → Trace → Result A × Trace

module _ {ℓ} {A : Type ℓ} where
  abbrev pub pure : A → Action A
  pure a env t = (ok a, t)

  abbrev pub raise : Error → Action A
  raise e env t = (err e, t)

  abbrev pub lift : Result A → Action A
  lift r env t = (r, t)

  abbrev pub asks : (Env → A) → Action A
  asks f env t = (ok (f env), t)

  -- What follows a call that returns an error beside its value.
  abbrev pub attempt : Action A → Action (Result A)
  attempt m env t = let (r, t') = m env t in (ok r, t')

  abbrev wrap_result : String → Result A → Result A
  wrap_result note (ok a) = ok a
  wrap_result note (err e) = err (wrapped note e)

  -- `errors.Wrap` on the error of an action.
  abbrev pub wrap : String → Action A → Action A
  wrap note m env t = let (r, t') = m env t in (wrap_result note r, t')

abbrev pub send : (c : Call) → Action (Reply c)
send c env t = (ok (env.answer c t), c ∷ t)

infixl 5 ◌>>=◌ ◌>>◌
abbrev pub ◌>>=◌ {ℓ κ} : {A : Type ℓ} {B : Type κ} → Action A → (A → Action B) → Action B
◌>>=◌ m f env t = let (r, t') = m env t in elim r [ ok a ↦ f a env t' | err e ↦ (err e, t') ]

abbrev pub ◌>>◌ {ℓ κ} : {A : Type ℓ} {B : Type κ} → Action A → Action B → Action B
m >> k = m >>= λ _. k

-- A call whose error is returned wrapped, as nearly all are.
abbrev pub expect {ℓ} : {A : Type ℓ} → String → Action (Result A) → Action A
expect note m = m >>= λ r. wrap note (lift r)

-- `fmt.Errorf` with `%v`, which keeps no error to test.
abbrev pub plain {ℓ} : {A : Type ℓ} → String → Action A → Action A
plain note m env t =
    let (r, t') = m env t in (elim r [ ok a ↦ ok a | err e ↦ err (failure note) ], t')

abbrev pub expect_plain {ℓ} : {A : Type ℓ} → String → Action (Result A) → Action A
expect_plain note m = m >>= λ r. plain note (lift r)

-- `time.Now().Format(time.RFC3339)`
abbrev pub format_now : Action String
format_now = send Call.now >>= λ now. asks (λ env. env.format_time now)

-- The value, or `none` if the server has no such object.
abbrev pub found_or_none {ℓ} : {A : Type ℓ} → String → Action (Result A) → Action (Option A)
found_or_none note m = m >>= λ r. elim r [
  | ok a ↦ pure (some a)
  | err e ↦ if is_not_found_err e then pure none else raise (failure note)
]

-- A deletion, which may find that there is nothing to delete.
abbrev pub delete_if_present : String → Action (Result (Unit {0})) → Action (Unit {0})
delete_if_present note m = found_or_none note m >>= λ r. pure tt

abbrev pub done : Action (Unit {0})
done = pure tt

abbrev pub when : Bool → Action (Unit {0}) → Action (Unit {0})
when b m = if b then m else done

-- A nil `multiErr` is success.
abbrev pub report : Option Error → Action (Unit {0})
report none = pure tt
report (some e) = raise e
