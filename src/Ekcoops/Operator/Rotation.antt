-- ===== src/Ekcoops/Operator/Rotation.antt =====
-- What `RotateCerts` tries.
use ekco.Prelude.{◌≡◌, ◌↔◌, Bool, true, arith}
use ekco.Errors.{ok}
use ekco.Kube.{Trace, Env}
use ekco.Cluster.Certs.{check_rotate_certs_due}
use ekco.Ekcoops.Config.{Services}
use ekco.Ekcoops.Operator.{rotate_certs}

-- If the rotation is due, its five steps all run, each after the one before whether or not that failed,
-- and the rotation is reported to have worked exactly if every step did.
pub rotate_certs-all :
    (services : Services) (force : Bool) (env : Env) (t u : Trace)
    → check_rotate_certs_due services.controller force env t ≡ (ok true, u)
    → let contour = services.rotate_contour_certs env u in
      let registry = services.rotate_registry_cert env contour.1 in
      let proxy = services.rotate_kurl_proxy_cert env registry.1 in
      let kubelet = services.update_kubelet_client_cert_secret env proxy.1 in
      let primaries = services.rotate_all_certs env kubelet.1 in
      ((rotate_certs services force env t).1 ≡ primaries.1)
      × (((rotate_certs services force env t).0 ≡ ok tt) ↔ (
          (contour.0 ≡ ok tt)
          × (registry.0 ≡ ok tt)
          × (proxy.0 ≡ ok tt)
          × (kubelet.0 ≡ ok tt)
          × (primaries.0 ≡ ok tt)))
unfolding rotate_certs
rotate_certs-all services force env t u due = (ground arith, (ground arith, ground arith))
