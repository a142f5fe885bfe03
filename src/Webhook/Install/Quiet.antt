-- ===== src/Webhook/Install/Quiet.antt =====
-- The start of the webhooks deletes no Node object.
use ekco.Prelude.{String, List, arith}
use ekco.Cluster.PurgeNode.Order.{Quiet}
use ekco.Webhook.Install.{
  ensure_service, make_certificate, ensure_priority_class, ensure_hook, install_priority,
  install_overrides, new_server, remove_hook, start_server, start_webhooks,
}

ensure_service-Quiet : (ns : String) → Quiet (ensure_service ns)
unfolding ensure_service
ensure_service-Quiet ns env t = ground arith

make_certificate-Quiet : (ns : String) → Quiet (make_certificate ns)
unfolding make_certificate
make_certificate-Quiet ns env t = ground arith

install_priority-Quiet : (ns class ca : String) → Quiet (install_priority ns class ca)
unfolding install_priority ensure_priority_class ensure_hook
install_priority-Quiet ns class ca env t = ground arith

install_overrides-Quiet :
    (ns : String) (overrides : List (String × String)) (ca : String)
    → Quiet (install_overrides ns overrides ca)
unfolding install_overrides ensure_hook
install_overrides-Quiet ns overrides ca env t = ground arith

new_server-Quiet :
    (ns class : String) (overrides : List (String × String)) → Quiet (new_server ns class overrides)
unfolding new_server
new_server-Quiet ns class overrides env t = grind (
  arith, ensure_service-Quiet, make_certificate-Quiet, install_priority-Quiet,
  install_overrides-Quiet,
)

remove_hook-Quiet : (name : String) → Quiet (remove_hook name)
unfolding remove_hook
remove_hook-Quiet name env t = ground arith

start_server-Quiet : (class : String) (texts : List String) → Quiet (start_server class texts)
unfolding start_server
start_server-Quiet class texts env t = grind (arith, new_server-Quiet)

pub start_webhooks-Quiet :
    (class : String) (texts : List String) → Quiet (start_webhooks class texts)
unfolding start_webhooks
start_webhooks-Quiet class texts env t = grind (arith, start_server-Quiet, remove_hook-Quiet)
