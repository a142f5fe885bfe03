-- ===== src/Haproxy.antt =====
-- pkg/internallb/haproxy.go: the manifest of the static pod, which is written only if it would change.
pub mod Rewrites
use ekco.Prelude.{
  ℕ, String, Bool, true, false, ◌&&◌, Option, none, some, List, [], ◌∷◌, ◌==◌, if◌then◌else◌,
  lookup,
}
use ekco.Errors.{failure}
use ekco.Kube.{PodManifest, Call, Action, pure, raise, lift, asks, send, ◌>>=◌, ◌>>◌, done}
use ekco.Prelude.Int.{ℤ, pos, eqz}
use ekco.Prelude.Text.{atoi}
use ekco.Cluster.Storage.{value_or_empty}

abbrev pub default_fileversion : ℕ
default_fileversion = 0

abbrev pub fileversion_annotation : String
fileversion_annotation = "kurl.sh/haproxy-fileversion"

abbrev version_of : String → ℤ
version_of text = if text == "" then pos 0 else atoi text

abbrev pub get_fileversion : PodManifest → ℤ
get_fileversion pod = version_of (value_or_empty (lookup fileversion_annotation pod.annotations))

abbrev first_or_empty : List String → String
first_or_empty [] = ""
first_or_empty (image ∷ images) = image

abbrev pub get_image : PodManifest → String
get_image pod = first_or_empty pod.images

abbrev pub is_current : PodManifest → String → ℕ → Bool
is_current pod image version = eqz (get_fileversion pod) (pos version) && get_image pod == image

abbrev manifest_text : Option String → Action String
manifest_text none = raise (failure "execute template")
manifest_text (some text) = pure text

unfoldable pub write_manifest : String → String → ℕ → Action Bool
write_manifest filename image version = do
  executed ← asks (λ env. env.haproxy_manifest image (env.format_int version))
  text ← manifest_text executed
  lift (← send (Call.write_file filename text))
  pure true

abbrev unless_current : String → String → ℕ → Option PodManifest → Action Bool
unless_current filename image version none = raise (failure "unmarshal")
unless_current filename image version (some pod) =
    if is_current pod image version then pure false else write_manifest filename image version

abbrev after_read : String → String → ℕ → Option String → Action Bool
after_read filename image version none = write_manifest filename image version
after_read filename image version (some current) = do
  pod ← asks (λ env. env.unmarshal_pod current)
  unless_current filename image version pod

-- The directory of the file is made first.
unfoldable pub generate_haproxy_manifest : String → String → ℕ → Action Bool
generate_haproxy_manifest filename image version = do
  lift (← send (Call.make_directory filename))
  current ← lift (← send (Call.read_if_present filename))
  after_read filename image version current

-- cmd/ekco/cli/generate-haproxy-manifest.go
unfoldable pub generate_haproxy_manifest_command : String → String → Action (Unit {0})
generate_haproxy_manifest_command filename image = do
  written ← generate_haproxy_manifest filename image default_fileversion
  done
