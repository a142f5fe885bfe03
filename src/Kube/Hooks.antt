-- ===== src/Kube/Hooks.antt =====
-- The objects that the webhook server installs: its service, a priority class, and the configurations
-- of admissionregistration/v1.
use ekco.Prelude.{ℕ, String, List}

-- A port is that of the service and that of its pods.
pub record NewService : Type 0 where
  pub name : String
  pub namespace : String
  pub selector : List (String × String)
  pub ports : List (ℕ × ℕ)

pub record PriorityClass : Type 0 where
  pub name : String
  pub value : ℕ
  pub description : String

pub record HookRule : Type 0 where
  pub api_groups : List String
  pub api_versions : List String
  pub resources : List String
  pub operations : List String

-- The namespaces must have the labels `namespace_labels`, with any value; the client configuration is
-- that of a service.
pub record MutatingWebhook : Type 0 where
  pub name : String
  pub match_policy : String
  pub failure_policy : String
  pub side_effects : String
  pub timeout_seconds : ℕ
  pub admission_review_versions : List String
  pub namespace_labels : List String
  pub rules : List HookRule
  pub service_namespace : String
  pub service_name : String
  pub path : String
  pub port : ℕ
  pub ca_bundle : String

pub record HookConfig : Type 0 where
  pub name : String
  pub webhooks : List MutatingWebhook
