-- ===== src/Cluster/Certs.antt =====
-- pkg/cluster/certs.go: `CheckRotateCertsDue`, which keeps the time of the last attempt in a ConfigMap.
pub mod Due
use ekco.Prelude.{
  ℕ, ◌+◌, String, Bool, true, false, not, ◌&&◌, Option, none, some, [], ◌∷◌, ltb, if◌then◌else◌,
  lookup, insert,
}
use ekco.Errors.{is_not_found_err, Result, failure, wrapped, ok, err}
use ekco.Kube.{
  ConfigMap, Call, Action, pure, raise, asks, attempt, send, ◌>>=◌, ◌>>◌, expect, format_now,
}
use ekco.Cluster.Config.{ControllerConfig}
use ekco.Cluster.Storage.{value_or_empty}

abbrev pub rotate_certs_value : String
rotate_certs_value = "rotate-certs"

abbrev pub rotate_certs_last_attempted : String
rotate_certs_last_attempted = "rotate-certs-last-attempted"

abbrev pub first_stamp : String → ConfigMap
first_stamp now = record {
  name = rotate_certs_value;
  contents = (rotate_certs_last_attempted, now) ∷ [];
}

abbrev pub stamped : String → ConfigMap → ConfigMap
stamped now cm = record cm { contents = insert rotate_certs_last_attempted now cm.contents }

abbrev due_from : ControllerConfig → Bool → ConfigMap → Option ℕ → Action Bool
due_from cfg reset cm none = raise (failure "parse last attempted rotation timestamp")
due_from cfg reset cm (some last) = do
  now ← send Call.now
  if ltb now (last + cfg.rotate_certs_check_interval) && not reset then pure false else do
    text ← format_now
    expect "update configmap"
        (send (Call.update_config_map cfg.rotate_certs_namespace (stamped text cm)))
    pure true

abbrev due_of_read : ControllerConfig → Bool → Result ConfigMap → Action Bool
due_of_read cfg reset (ok cm) = do
  last ←
      asks (λ env. env.parse_time (value_or_empty (lookup rotate_certs_last_attempted cm.contents)))
  due_from cfg reset cm last
due_of_read cfg reset (err e) =
    if is_not_found_err e
    then (do
      text ← format_now
      expect "create configmap"
          (send (Call.create_config_map cfg.rotate_certs_namespace (first_stamp text)))
      pure true)
    else raise (wrapped "get configmap" e)

unfoldable pub check_rotate_certs_due : ControllerConfig → Bool → Action Bool
check_rotate_certs_due cfg reset = do
  read ← send (Call.get_config_map cfg.rotate_certs_namespace rotate_certs_value)
  due_of_read cfg reset read
