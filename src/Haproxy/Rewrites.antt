-- ===== src/Haproxy/Rewrites.antt =====
-- pkg/internallb/haproxy.go: when a manifest that was written is written again.
use ekco.Prelude.{
  ℕ, String, ◌≡◌, true, false, ◌&&◌, some, ◌∷◌, arith, ◌==◌, eqb, if◌then◌else◌, lookup,
}
use ekco.Errors.{ok}
use ekco.Kube.{number, PodManifest, Call, Trace, Env}
use ekco.Prelude.Int.{pos}
use ekco.Prelude.Text.{atoi}
use ekco.Haproxy.{fileversion_annotation, get_image, write_manifest, generate_haproxy_manifest}

-- What the template and the YAML of a pod are relied on for: the manifest that is made for an image and a
-- version is read as a pod with them; and that the version is printed as a number that is read back.
abbrev pub Describes : Env → String → ℕ → String → Type 0
Describes env image version text =
    (pod : PodManifest) × (env.unmarshal_pod text ≡ some pod)
    × (lookup fileversion_annotation pod.annotations ≡ some (env.format_int version))
    × (get_image pod ≡ image)
    × ((env.format_int version == "") ≡ false)
    × (atoi (env.format_int version) ≡ pos version)

pub generate_haproxy_manifest-again :
    (filename image new_image text new_text : String) (version new_version : ℕ) (env : Env)
    (t : Trace)
    → let asked = Call.read_if_present filename ∷ Call.make_directory filename ∷ t in
      Describes env image version text
      → env.answer (Call.make_directory filename) t ≡ ok tt
      → env.answer (Call.read_if_present filename) (Call.make_directory filename ∷ t)
        ≡ ok (some text)
      → env.haproxy_manifest new_image (env.format_int new_version) ≡ some new_text
      → env.answer (Call.write_file filename new_text) asked ≡ ok tt
      → generate_haproxy_manifest filename new_image new_version env t ≡ (
          if eqb version new_version && image == new_image
          then (ok false, asked)
          else (ok true, Call.write_file filename new_text ∷ asked))
unfolding generate_haproxy_manifest write_manifest
generate_haproxy_manifest-again filename image new_image text new_text version new_version env t
      (pod, parsed, version_read, image_read, shown, read_back) made found executed wrote =
    grind (arith, parsed, version_read, image_read, shown, number, made, found, executed, wrote)
