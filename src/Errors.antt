-- ===== src/Errors.antt =====
-- Error values, as pkg/errors, go-multierror and the Kubernetes API build them, and the tests of
-- pkg/util/errors.go.
use ekco.Prelude.{String, Option, none, some, Bool, true, false, ◌||◌}

pub data Reason : Type 0 where
  not_found already_exists conflict other : Reason

-- A value records how it was made: `wrapped` by errors.Wrap, `multi` and `append` by
-- multierror.Append on no error and on an earlier one.
pub data Error : Type 0 where
  api : Reason → Error
  failure : String → Error
  ceph_enoent : Error
  wrapped : String → Error → Error
  multi : Error → Error
  append : Error → Error → Error

pub data Result {ℓ} (A : Type ℓ) : Type ℓ where
  ok : A → Result A
  err : Error → Result A

abbrev pub is_reason_not_found : Reason → Bool
is_reason_not_found not_found = true
is_reason_not_found _ = false

-- `k8serrors.IsNotFound` looks through what wraps an error.
abbrev pub is_not_found_err : Error → Bool
is_not_found_err (api r) = is_reason_not_found r
is_not_found_err (failure s) = false
is_not_found_err ceph_enoent = false
is_not_found_err (wrapped s e) = is_not_found_err e
is_not_found_err (multi e) = is_not_found_err e
is_not_found_err (append e f) = is_not_found_err e || is_not_found_err f

abbrev pub is_reason_already_exists : Reason → Bool
is_reason_already_exists already_exists = true
is_reason_already_exists _ = false

-- `k8serrors.IsAlreadyExists` looks through them too.
abbrev pub is_already_exists : Error → Bool
is_already_exists (api r) = is_reason_already_exists r
is_already_exists (failure s) = false
is_already_exists ceph_enoent = false
is_already_exists (wrapped s e) = is_already_exists e
is_already_exists (multi e) = is_already_exists e
is_already_exists (append e f) = is_already_exists e || is_already_exists f

-- `errors.Cause` undoes `errors.Wrap`.
abbrev pub cause : Error → Error
cause (wrapped s e) = cause e
cause (api r) = api r
cause (failure s) = failure s
cause ceph_enoent = ceph_enoent
cause (multi e) = multi e
cause (append e f) = append e f

-- nil if the cause is a NotFound error, else the cause.
abbrev pub filter_out_reason_not_found_err : Error → Option Error
filter_out_reason_not_found_err e = elim (is_not_found_err (cause e)) [
  | true ↦ none
  | false ↦ some (cause e)
]

-- `err == cephErrENOENT`
abbrev pub is_ceph_enoent : Error → Bool
is_ceph_enoent ceph_enoent = true
is_ceph_enoent _ = false

-- `multierror.Append(multiErr, err)`, where `none` is a nil `multiErr`.
abbrev pub add_error : Option Error → Error → Option Error
add_error none e = some (multi e)
add_error (some m) e = some (append m e)

-- The same where the step that was tried may have gone well.
abbrev pub add_failure {ℓ} : {A : Type ℓ} → String → Option Error → Result A → Option Error
add_failure note m (ok a) = m
add_failure note m (err e) = add_error m (wrapped note e)
