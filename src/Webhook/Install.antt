-- ===== src/Webhook/Install.antt =====
-- pkg/webhook/server.go and the part of cmd/ekco/cli/operator.go that starts or removes the webhooks:
-- the objects that the server needs in the cluster, and the routes that it serves.
pub mod Installed
pub mod Removed
pub mod Started
pub mod Quiet
use Prim.Native.String.{◌++◌ as join_text}
use ekco.Prelude.{
  String, ◌&&◌, Option, none, some, List, [], ◌∷◌, ◌++◌, map, ◌==◌, if◌then◌else◌, is_empty, insert,
}
use ekco.Errors.{is_not_found_err, Result, failure, wrapped, ok, err}
use ekco.Kube.{
  Service, NewService, PriorityClass, HookRule, MutatingWebhook, HookConfig, Call, Action, pure,
  raise, wrap, send, ◌>>=◌, ◌>>◌, expect, done, when,
}
use ekco.Prelude.Text.{split}

abbrev pub webhook_service_name : String
webhook_service_name = "ekco"

abbrev pub rook_priority_hook : String
rook_priority_hook = "rook-priority.kurl.sh"

abbrev pub pod_image_overrides_hook : String
pod_image_overrides_hook = "pod-image-overrides.kurl.sh"

-- The certificate and the key stand for the TLS configuration.
pub record WebhookServer : Type 0 where
  pub certificate : String
  pub key : String
  pub rook_priority_class : String
  pub overrides : List (String × String)

abbrev webhook_service : String → NewService
webhook_service ns = record {
  name = webhook_service_name;
  namespace = ns;
  selector = ("app", "ekc-operator") ∷ [];
  ports = (443, 443) ∷ [];
}

abbrev service_found : String → Result Service → Action (Unit {0})
service_found ns (ok s) = done
service_found ns (err e) =
    if is_not_found_err e
    then expect "create service" (send (Call.create_service (webhook_service ns)))
    else raise (wrapped "get service" e)

unfoldable pub ensure_service : String → Action (Unit {0})
ensure_service ns = do
  found ← send (Call.get_service ns webhook_service_name)
  service_found ns found

-- Of the host that the API server calls the service by.
unfoldable pub make_certificate : String → Action (String × String)
make_certificate ns = do
  pair ← expect "generate self-signed cert for webhook" (
      send (
        Call.generate_self_signed
          (join_text webhook_service_name (join_text "." (join_text ns ".svc"))) [] []))
  expect "load self-signed tls certificate" (send (Call.load_key_pair pair.0 pair.1))
  pure pair

abbrev priority_class : String → PriorityClass
priority_class name = record {
  name = name;
  value = 1000000000;
  description = "Used for pods that provide critical services to their node";
}

abbrev class_found : String → Result (Unit {0}) → Action (Unit {0})
class_found name (ok _) = done
class_found name (err e) =
    if is_not_found_err e
    then expect "create priorityclass" (send (Call.create_priority_class (priority_class name)))
    else raise (wrapped "get priorityclass" e)

unfoldable pub ensure_priority_class : String → Action (Unit {0})
ensure_priority_class name = do found ← send (Call.get_priority_class name); class_found name found

abbrev hook : String → String → String → List String → HookRule → String → MutatingWebhook
hook name path ns labels rule ca = record {
  name = name;
  match_policy = "Equivalent";
  failure_policy = "Ignore";
  side_effects = "None";
  timeout_seconds = 10;
  admission_review_versions = "v1" ∷ [];
  namespace_labels = labels;
  rules = rule ∷ [];
  service_namespace = ns;
  service_name = webhook_service_name;
  path = path;
  port = 443;
  ca_bundle = ca;
}

abbrev rule_for : String → List String → HookRule
rule_for group resources = record {
  api_groups = group ∷ [];
  api_versions = "v1" ∷ [];
  resources = resources;
  operations = "CREATE" ∷ "UPDATE" ∷ [];
}

-- Only in namespaces with a label of the webhook's name.
abbrev pub priority_webhook : String → String → MutatingWebhook
priority_webhook ns ca =
    hook rook_priority_hook "/rook-priority" ns (rook_priority_hook ∷ [])
      (rule_for "apps" ("deployments" ∷ "daemonsets" ∷ [])) ca

abbrev pub overrides_webhook : String → String → MutatingWebhook
overrides_webhook ns ca =
    hook pod_image_overrides_hook "/pod-image-overrides" ns [] (rule_for "" ("pods" ∷ [])) ca

-- The text that both errors of a write begin with is left out.
abbrev write_hook : String → MutatingWebhook → Result HookConfig → Action (Unit {0})
write_hook name webhook (ok config) =
    expect "update mutating admission webhook"
      (send (Call.update_hook_config (record config { webhooks = webhook ∷ [] })))
write_hook name webhook (err e) =
    if is_not_found_err e
    then expect "create mutating admission webhook"
        (send (Call.create_hook_config (record { name = name; webhooks = webhook ∷ [] })))
    else raise (wrapped "get mutating admission webhook" e)

unfoldable pub ensure_hook : String → MutatingWebhook → Action (Unit {0})
ensure_hook name webhook = do
  found ← send (Call.get_hook_config name)
  write_hook name webhook found

unfoldable pub install_priority : String → String → String → Action (Unit {0})
install_priority ns class ca =
    if class == ""
    then done
    else do ensure_priority_class class; ensure_hook rook_priority_hook (priority_webhook ns ca)

unfoldable pub install_overrides : String → List (String × String) → String → Action (Unit {0})
install_overrides ns overrides ca =
    if is_empty overrides
    then done
    else ensure_hook pod_image_overrides_hook (overrides_webhook ns ca)

unfoldable pub new_server : String → String → List (String × String) → Action WebhookServer
new_server ns class overrides = do
  ensure_service ns
  pair ← make_certificate ns
  install_priority ns class pair.0
  install_overrides ns overrides pair.0
  pure (record {
    certificate = pair.0;
    key = pair.1;
    rook_priority_class = class;
    overrides = overrides;
  })

-- The routes that `Run` serves.
abbrev pub routes : WebhookServer → List String
routes s =
    (if s.rook_priority_class == "" then [] else "/rook-priority" ∷ [])
    ++ (if is_empty s.overrides then [] else "/pod-image-overrides" ∷ [])

unfoldable pub remove_hook : String → Action (Unit {0})
remove_hook name = do
  gone ← send (Call.delete_hook_config name)
  elim gone [
    | ok _ ↦ done
    | err e ↦
        if is_not_found_err e
        then done
        else raise (wrapped "failed to delete mutating webhook config" e)
  ]

-- One `image=override` of the settings.
abbrev pub override_of : List String → Option (String × String)
override_of (image ∷ new ∷ []) = some (image, new)
override_of _ = none

-- The map of all, or `none` if one cannot be parsed.
unfoldable pub parse_overrides :
    List (String × String) → List String → Option (List (String × String))
parse_overrides parsed [] = some parsed
parse_overrides parsed (text ∷ texts) = elim (override_of (split b'=' text)) [
  | none ↦ none
  | some (image, new) ↦ parse_overrides (insert image new parsed) texts
]

abbrev server_of : String → Option (List (String × String)) → Action (Option WebhookServer)
server_of class none = raise (failure "Cannot parse pod image override")
server_of class (some overrides) = do
  server ← wrap "initialize webhook server" (new_server "kurl" class overrides)
  pure (some server)

-- The server that is to run, if one is.
unfoldable pub start_server : String → List String → Action (Option WebhookServer)
start_server class texts =
    if class == "" && is_empty texts then pure none else server_of class (parse_overrides [] texts)

unfoldable pub start_webhooks : String → List String → Action (Option WebhookServer)
start_webhooks class texts = do
  server ← start_server class texts
  when (class == "") (wrap "delete webhook config" (remove_hook rook_priority_hook))
  when (is_empty texts) (wrap "delete webhook config" (remove_hook pod_image_overrides_hook))
  pure server
