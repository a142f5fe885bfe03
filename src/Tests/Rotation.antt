-- ===== src/Tests/Rotation.antt =====
-- The renewal of certificates, the tasks on the nodes and the webhooks at concrete values.
use ekco.Prelude.{
  ℕ, ◌≤◌, String, ◌≡◌, refl, ◌⊎◌, true, false, Option, none, some, List, [], ◌∷◌, map, arith, ◌==◌,
}
use ekco.Errors.{Error, ok, err}
use ekco.Kube.{ConfigMap, Certificate, rsa_key, Call, Trace, Env}
use ekco.Cluster.RegistryCert.{cert_to_config, generate_new_cert_and_key, new_signed_cert}
use ekco.Cluster.RegistryCert.Renewal.{renewal, Made, renewal-calls}
use mathlib.Core.List.Permᴰ.{swap}
use ekco.Cluster.InternalLb.{
  noted, next_internal_lb, first_map, update_internal_lb_value, reconcile_internal_lb,
}
use ekco.Cluster.InternalLb.AnyOrder.{reconcile_internal_lb-settled}
use ekco.Cluster.Tasks.{rotate_on}
use ekco.Cluster.Tasks.Polls.{task_pods, first_pods, rotation_pods, StoppedAt, rotate_on-pods}
use ekco.Rotate.{CertNames, RestartFlags, no_restarts, rotate_each, rotate_certs}
use ekco.Rotate.Restarts.{renewals, Marked, DistinctNames, rotate_each-marks}
use ekco.Rotate.External.{rotate_certs-external}
use ekco.Webhook.{
  AdmissionRequest, AdmissionResponse, PodImages, override_pod_images, review_of, replied,
  image_patches, rook_priority, priority_patch,
}
use ekco.Webhook.Images.{overridden, apply_patches, image_patches-apply, rook_priority-uid}
use ekco.Tests.Env.{nothing, env_with, tools_pod, master, dead_worker}
use ekco.Tests.Settings.{no_services}

abbrev env : Env
env = env_with none (record nothing {
  nodes = ok (master ∷ dead_worker ∷ []);
  pod = ok (record tools_pod {
    status = record {
      phase = "Succeeded";
      pod_ip = "";
      host_ip = "";
      container_statuses = [];
      conditions = [];
    };
  });
})

abbrev registry_cert : Certificate
registry_cert = record {
  common_name = "registry";
  issuer_common_name = "kubernetes";
  organization = [];
  dns_names = "registry.kurl.svc" ∷ [];
  ip_addresses = "10.96.0.2" ∷ [];
  ext_key_usage = 1 ∷ [];
  not_after = 2000;
  public_key = rsa_key 256;
}

abbrev renewed_trace : Trace
renewed_trace = (renewal registry_cert env []).1

renewal_works : renewal registry_cert env [] ≡ (ok ("certificate", "key"), renewed_trace)
unfolding cert_to_config generate_new_cert_and_key new_signed_cert
renewal_works = refl

renewal-calls_example : Made registry_cert env [] renewed_trace ("certificate", "key") renewal_works
renewal-calls_example =
    renewal-calls registry_cert env [] renewed_trace ("certificate", "key") renewal_works

rotate_on-pods_example :
    let run = rotate_on no_services.controller (master ∷ []) env [] in
    (run.0 ≡ ok tt)
      × (task_pods run.1 ≡ first_pods 1 (rotation_pods no_services.controller env (master ∷ [])) [])
    ⊎ ((e : Error) × (run.0 ≡ err e)
        × StoppedAt no_services.controller env (master ∷ []) [] e run.1)
rotate_on-pods_example = rotate_on-pods no_services.controller env (master ∷ []) []

abbrev names : CertNames
names = record {
  controller_manager_conf = "controller-manager.conf";
  scheduler_conf = "scheduler.conf";
  apiserver_etcd_client = "apiserver-etcd-client";
  apiserver_kubelet_client = "apiserver-kubelet-client";
  front_proxy_client = "front-proxy-client";
}

abbrev scheduler_only : RestartFlags
scheduler_only = record no_restarts { scheduler = true }

abbrev one_renewed : Trace
one_renewed = (rotate_each names 3600 no_restarts ("scheduler.conf" ∷ []) env []).1

one_works :
    rotate_each names 3600 no_restarts ("scheduler.conf" ∷ []) env []
    ≡ (ok (some scheduler_only), one_renewed)
unfolding rotate_each
one_works = refl

distinct : DistinctNames names
distinct = (refl, refl, refl, refl, refl, refl, refl)

rotate_each-marks_example : Marked names scheduler_only (renewals env one_renewed)
rotate_each-marks_example =
    rotate_each-marks names 3600 env distinct ("scheduler.conf" ∷ []) scheduler_only [] one_renewed
      refl one_works

abbrev reached : Trace
reached =
    (rotate_each names 3600 no_restarts ("scheduler.conf" ∷ []) env
      (Call.renewal_certificates ∷ [])).1

scheduler_renewed :
    rotate_each names 3600 no_restarts ("scheduler.conf" ∷ []) env (Call.renewal_certificates ∷ [])
    ≡ (ok (some scheduler_only), reached)
unfolding rotate_each
scheduler_renewed = refl

soon : 10 ≤ 3600
soon = omega arith

-- The scheduler's certificate was renewed, and the scheduler is not restarted.
rotate_certs-external_example : rotate_certs names 3600 env [] ≡ (
  ok tt,
  Call.renew_using_local_ca "external"
      ∷ Call.residual_time "external"
      ∷ Call.certificate_exists "external"
      ∷ reached,
)
rotate_certs-external_example =
    rotate_certs-external names 3600 env ("scheduler.conf" ∷ []) [] "external" 10 scheduler_only []
      reached refl scheduler_renewed refl refl soon refl

abbrev overrides : List (String × String)
overrides = ("nginx:1", "mirror/nginx:1") ∷ []

image_patches-apply_example :
    apply_patches
      (image_patches overrides 0 ("redis:7" ∷ "nginx:1" ∷ []))
      ("redis:7" ∷ "nginx:1" ∷ [])
    ≡ map (overridden overrides) ("redis:7" ∷ "nginx:1" ∷ [])
image_patches-apply_example = image_patches-apply overrides ("redis:7" ∷ "nginx:1" ∷ [])

abbrev request : AdmissionRequest
request = record {
  uid = "705ab4f5";
  group = "apps";
  resource = "deployments";
  namespace = "rook-ceph";
  object = "";
}

abbrev response : AdmissionResponse
response = record {
  uid = "";
  allowed = true;
  patch = some (priority_patch "node-critical");
  message = none;
}

answered : rook_priority "node-critical" (review_of request) ≡ replied response
unfolding rook_priority
answered = refl

rook_priority-uid_example :
    ((response.uid == request.uid) ≡ false)
    × ((format_int : ℕ → String) (decode_pod : String → Option PodImages)
          (overrides : List (String × String)) (other : AdmissionResponse)
        → override_pod_images format_int decode_pod overrides (review_of request) ≡ replied other
        → other.uid ≡ request.uid)
rook_priority-uid_example = rook_priority-uid "node-critical" request response refl answered

abbrev recorded : ConfigMap
recorded = noted (next_internal_lb (master ∷ dead_worker ∷ [])) first_map

reconcile_internal_lb-settled_example :
    reconcile_internal_lb no_services.controller
      (dead_worker ∷ master ∷ [])
      (env_with none (record nothing { config_map = ok recorded }))
      []
    ≡ (ok tt, Call.get_config_map "kurl" update_internal_lb_value ∷ [])
reconcile_internal_lb-settled_example =
    reconcile_internal_lb-settled no_services.controller (master ∷ dead_worker ∷ [])
      (dead_worker ∷ master ∷ []) first_map
      (env_with none (record nothing { config_map = ok recorded })) [] (swap refl refl) refl
