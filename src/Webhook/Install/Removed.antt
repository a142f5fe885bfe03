-- ===== src/Webhook/Install/Removed.antt =====
-- pkg/webhook/server.go: which configurations the steps of a start remove.
use mathlib.Core.List.{append-nil}
use ekco.Prelude.{String, ◌≡◌, List, [], ◌∷◌, ◌++◌, arith}
use ekco.Errors.{ok}
use ekco.Kube.{Trace, Env, KeepsAccepted}
use ekco.Webhook.Install.{
  ensure_service, make_certificate, ensure_priority_class, ensure_hook, install_priority,
  install_overrides, new_server, remove_hook,
}
use ekco.Webhook.Install.Installed.{written, removed}

module _ (name : String) where
  pub remove_hook-written : KeepsAccepted written (remove_hook name)
  unfolding remove_hook
  remove_hook-written env t = grind (arith, append-nil)

  pub remove_hook-removed :
      (env : Env) (t : Trace)
      → (remove_hook name env t).0 ≡ ok tt
      → removed env (remove_hook name env t).1 ≡ removed env t ++ name ∷ []
  unfolding remove_hook
  remove_hook-removed env t worked = grind arith

ensure_service-removed : (ns : String) → KeepsAccepted removed (ensure_service ns)
unfolding ensure_service
ensure_service-removed ns env t = grind (arith, append-nil)

make_certificate-removed : (ns : String) → KeepsAccepted removed (make_certificate ns)
unfolding make_certificate
make_certificate-removed ns env t = grind (arith, append-nil)

install_priority-removed :
    (ns class ca : String) → KeepsAccepted removed (install_priority ns class ca)
unfolding install_priority ensure_priority_class ensure_hook
install_priority-removed ns class ca env t = grind (arith, append-nil)

install_overrides-removed :
    (ns : String) (overrides : List (String × String)) (ca : String)
    → KeepsAccepted removed (install_overrides ns overrides ca)
unfolding install_overrides ensure_hook
install_overrides-removed ns overrides ca env t = grind (arith, append-nil)

pub new_server-removed :
    (ns class : String) (overrides : List (String × String))
    → KeepsAccepted removed (new_server ns class overrides)
unfolding new_server
new_server-removed ns class overrides env t = grind (
  arith, ensure_service-removed, make_certificate-removed, install_priority-removed,
  install_overrides-removed,
)
