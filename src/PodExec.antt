-- ===== src/PodExec.antt =====
-- pkg/k8s/exec.go: a command in a container. What k8s.io/client-go says of the request and of the stream
-- is a parameter, with the text that the command wrote.
pub mod Checked
use ekco.Prelude.{ℕ, String, Option, none, some, eqb, if◌then◌else◌}
use ekco.Errors.{Error, Result, failure, wrapped, ok, err}
use ekco.Kube.{ExecResult}

-- The error of a stream: the command ended with a code, or something else went wrong.
pub data StreamError : Type 0 where
  code_exit_error : ℕ → StreamError
  stream_error : Error → StreamError

-- The executor that is created, or an error; and the error that its stream ends with, if it ends with one.
pub record Streamed : Type 0 where
  pub executor : Result (Unit {0})
  pub ended : Option StreamError
  pub stdout : String
  pub stderr : String

abbrev stream_result : Option StreamError → ℕ × Result (Unit {0})
stream_result none = (0, ok tt)
stream_result (some (code_exit_error code)) =
    (code, err (wrapped "stream exec" (failure "command terminated with exit code")))
stream_result (some (stream_error e)) = (0, err (wrapped "stream exec" e))

abbrev run_executor : Result (Unit {0}) → Option StreamError → ℕ × Result (Unit {0})
run_executor (ok _) ended = stream_result ended
run_executor (err e) ended = (0, err (wrapped "create exec" e))

unfoldable pub exec_container : Streamed → ℕ × Result (Unit {0})
exec_container s = run_executor s.executor s.ended

-- The exit code, with what was written, and the error unless there is such a code.
unfoldable pub sync_exec : Streamed → ExecResult × Result (Unit {0})
sync_exec s =
    let (code, error) = exec_container s in
    (
      record { exit_code = code; stdout = s.stdout; stderr = s.stderr },
      if eqb code 0 then error else ok tt,
    )
