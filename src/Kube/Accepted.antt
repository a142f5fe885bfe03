-- ===== src/Kube/Accepted.antt =====
-- The calls that the server answered without an error.
use ekco.Prelude.{◌≡◌, Bool, true, false, refl, [], ◌∷◌, if◌then◌else◌}
use mathlib.Core.List.{Memᴰ}
use mathlib.Core.List.Memᴰ.{head, tail}
use ekco.Errors.{Result, ok, err, is_not_found_err}
use ekco.Kube.Calls.{Call, Reply}
use ekco.Kube.Actions.{Action, Trace, Env}

abbrev pub is_ok {ℓ} : {A : Type ℓ} → Result A → Bool
is_ok (ok a) = true
is_ok (err e) = false

-- A deletion that finds nothing to delete has done its work too.
abbrev pub is_gone {ℓ} : {A : Type ℓ} → Result A → Bool
is_gone (ok a) = true
is_gone (err e) = is_not_found_err e

-- Whether the call did its work, of those that a result speaks of; a renewal also says if it was possible.
abbrev pub is_accepted : (c : Call) → Reply c → Bool
is_accepted (Call.put_object dst bucket o) r = is_ok r
is_accepted (Call.create_hook_config config) r = is_ok r
is_accepted (Call.update_hook_config config) r = is_ok r
is_accepted (Call.delete_hook_config name) r = is_gone r
is_accepted (Call.install_release name ns chart values) r = is_ok r
is_accepted (Call.renew_using_local_ca name) (ok renewed) = renewed
is_accepted (Call.renew_using_local_ca name) (err e) = false
is_accepted (Call.create_task_pod pod) r = is_ok r
is_accepted (Call.truncate_file file) r = is_ok r
is_accepted (Call.seek_start file) r = is_ok r
is_accepted (Call.write_opened file text) r = is_ok r
is_accepted Call.restart_kubelet r = is_ok r
is_accepted (Call.write_file file text) r = is_ok r
is_accepted _ r = true

-- The newest first, without those that were refused.
abbrev pub accepted : Env → Trace → Trace
accepted env [] = []
accepted env (c ∷ t) =
    let rest = accepted env t in if is_accepted c (env.answer c t) then c ∷ rest else rest

kept : (b : Bool) (c d : Call) (t : Trace) → Memᴰ c t → Memᴰ c (if b then d ∷ t else t)
kept true c d t seen = tail seen
kept false c d t seen = seen

first_kept : (b : Bool) (c : Call) (t : Trace) → b ≡ true → Memᴰ c (if b then c ∷ t else t)
first_kept true c t worked = head refl
first_kept false c t worked = cc

module _ (env : Env) (t : Trace) (c : Call) where
  pub accepted-later : (d : Call) → Memᴰ c (accepted env t) → Memᴰ c (accepted env (d ∷ t))
  accepted-later d seen = kept (is_accepted d (env.answer d t)) c d (accepted env t) seen

  pub accepted-here : is_accepted c (env.answer c t) ≡ true → Memᴰ c (accepted env (c ∷ t))
  accepted-here worked = first_kept (is_accepted c (env.answer c t)) c (accepted env t) worked

-- Under every answer, the action leaves the reading of the accepted calls as it is.
abbrev pub KeepsAccepted {ℓ κ} : {A : Type ℓ} {B : Type κ} → (Env → Trace → B) → Action A → Type κ
KeepsAccepted read m = (env : Env) (t : Trace) → read env (m env t).1 ≡ read env t
