-- ===== src/Ekcoops/Overrides.antt =====
-- pkg/ekcoops/overrides/pause.go: three flags, each set, cleared and read under one lock, so every
-- operation is one step on the flags.
use ekco.Prelude.{◌≡◌, refl, Bool, true, false, List, [], ◌∷◌, arith, if◌then◌else◌}
use ekco.Kube.{Component, prometheus_scale, minio, kotsadm}

pub record Overrides : Type 0 where
  pub prometheus_flag : Bool
  pub minio_flag : Bool
  pub kotsadm_flag : Bool

abbrev pub initial : Overrides
initial = record { prometheus_flag = false; minio_flag = false; kotsadm_flag = false }

-- `PausePrometheus`, `PauseMinIO` and `PauseKotsadm`
unfoldable pub pause : Component → Overrides → Overrides
pause prometheus_scale o = record o { prometheus_flag = true }
pause minio o = record o { minio_flag = true }
pause kotsadm o = record o { kotsadm_flag = true }

-- `ResumePrometheus`, `ResumeMinIO` and `ResumeKotsadm`
unfoldable pub resume : Component → Overrides → Overrides
resume prometheus_scale o = record o { prometheus_flag = false }
resume minio o = record o { minio_flag = false }
resume kotsadm o = record o { kotsadm_flag = false }

-- `PrometheusPaused`, `MinIOPaused` and `KotsadmPaused`
unfoldable pub paused : Component → Overrides → Bool
paused prometheus_scale o = o.prometheus_flag
paused minio o = o.minio_flag
paused kotsadm o = o.kotsadm_flag

-- One call of any goroutine.
pub data Step : Type 0 where
  pausing resuming : Component → Step

abbrev pub after_step : Step → Overrides → Overrides
after_step (pausing c) o = pause c o
after_step (resuming c) o = resume c o

abbrev pub after_steps : List Step → Overrides → Overrides
after_steps [] o = o
after_steps (s ∷ ss) o = after_steps ss (after_step s o)

abbrev same_component : Component → Component → Bool
same_component prometheus_scale prometheus_scale = true
same_component minio minio = true
same_component kotsadm kotsadm = true
same_component _ _ = false

-- What the last step on a component left, or the flag as it was.
abbrev pub last_set : Component → List Step → Bool → Bool
last_set c [] before = before
last_set c (pausing d ∷ ss) before = last_set c ss (if same_component c d then true else before)
last_set c (resuming d ∷ ss) before = last_set c ss (if same_component c d then false else before)

-- However the goroutines interleave, a component reads as paused exactly if the last step on it paused
-- it; steps on the other components make no difference.
pub paused-after_steps :
    (c : Component) (ss : List Step) (o : Overrides)
    → paused c (after_steps ss o) ≡ last_set c ss (paused c o)
unfolding paused pause resume
paused-after_steps c [] o = refl
paused-after_steps prometheus_scale (s ∷ ss) o =
    ground (arith, paused-after_steps prometheus_scale ss (after_step s o))
paused-after_steps minio (s ∷ ss) o = ground (arith, paused-after_steps minio ss (after_step s o))
paused-after_steps kotsadm (s ∷ ss) o =
    ground (arith, paused-after_steps kotsadm ss (after_step s o))
