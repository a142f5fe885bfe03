-- ===== src/Objectstore/Usage.antt =====
-- pkg/objectstore/minio.go: whether there is a minio to migrate from.
use ekco.Prelude.{String, Bool, true, false, not, ◌==◌, if◌then◌else◌, is_some}
use ekco.Kube.{Call, Action, pure, send, ◌>>=◌, found_or_none}

unfoldable pub is_minio_in_use : String → Action Bool
is_minio_in_use namespace = if namespace == "" then pure false else do
  ns ← found_or_none "get minio namespace" (send (Call.get_namespace namespace))
  if not (is_some ns) then pure false else do
    deployment ← found_or_none "get minio deployment" (send (Call.get_deployment namespace "minio"))
    if is_some deployment then pure true else do
      set ←
          found_or_none "get minio statefulset" (send (Call.get_stateful_set namespace "ha-minio"))
      pure (is_some set)
