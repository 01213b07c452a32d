-- ===== src/Adapters/Laws.antt =====
-- internal/infrastructure/adapters/os_detector_k8s.go, with internal/controller/jobfactory.go: the
-- agent and the controller read the same image of a node.
use multi_network_interface.Prelude.{
  ◌≡◌, refl, sym, ap, ◌∙◌, Bool, true, false, inl, inr, Bool-cases, arith, if◌then◌else◌,
}
use multi_network_interface.Prelude.Text.{Text, text, contains, to_lower}
use multi_network_interface.Errors.{Result, Result-cases, ok, >>=-elim}
use multi_network_interface.Configure.{OsType}
use multi_network_interface.Rhel.Files.{link_path, nm_path}
use multi_network_interface.Netplan.{config_path}
use multi_network_interface.Controller.Jobs.{
  OsFamily, JobParams, os_family_from_os_image, build_agent_job,
}
use multi_network_interface.Controller.Laws.Pods.{Mounted, build_agent_job-Mounted}
use multi_network_interface.Adapters.{os_of_image, os_of_answer, detector_node, detect_os_of_node}

if_same {ℓ} : {A : Type ℓ} (b : Bool) (a : A) → (if b then a else a) ≡ a
if_same true a = refl
if_same false a = refl

os_of_image-ubuntu :
    (image : Text)
    → os_of_image image ≡ ok OsType.ubuntu
    → os_family_from_os_image image ≡ OsFamily.ubuntu
unfolding os_of_image os_family_from_os_image
os_of_image-ubuntu image h = elim (Bool-cases (contains (to_lower image) (text "ubuntu"))) [
  | inl e ↦ rw e refl
  | inr e ↦ absurd (ground arith)
]

os_of_image-rhel :
    (image : Text)
    → os_of_image image ≡ ok OsType.rhel
    → os_family_from_os_image image ≡ OsFamily.rhel
unfolding os_of_image os_family_from_os_image
os_of_image-rhel image h = elim (Bool-cases (contains (to_lower image) (text "ubuntu"))) [
  | inl e ↦ absurd (let other = rw e at h in cc)
  | inr e ↦ rw e (if_same _ OsFamily.rhel)
]

-- The files that the adapter of a system writes for a name lie in directories that a job mounts.
abbrev pub WritesWithin : OsType → JobParams → Text → Text → Type 0
WritesWithin OsType.ubuntu p image name = Mounted (build_agent_job image p) (config_path name)
WritesWithin OsType.rhel p image name =
    Mounted (build_agent_job image p) (link_path name)
    × Mounted (build_agent_job image p) (nm_path name)

of_image :
    (os : OsType) (image : Text) (p : JobParams) (name : Text)
    → os_of_image image ≡ ok os
    → WritesWithin os p image name
of_image OsType.ubuntu image p name h =
    let family = os_of_image-ubuntu image h in
    elim (build_agent_job-Mounted image p name) [
      | inl (_, inside) ↦ inside
      | inr (other, _, _) ↦ absurd (cc)
    ]
of_image OsType.rhel image p name h =
    let family = os_of_image-rhel image h in
    elim (build_agent_job-Mounted image p name) [
      | inl (other, _) ↦ absurd (cc)
      | inr (_, link, nm) ↦ (link, nm)
    ]

-- If the agent detects its system from the image of its node, the files that its adapter writes for
-- any name lie in directories that the job, which the controller built for the same image, mounts
-- from the host.
pub detect_os_of_node-Mounted :
    (getenv : Text → Text) (hostname : Result Text) (os_image : Text → Result Text) (os : OsType)
    (p : JobParams) (name : Text)
    → detect_os_of_node getenv hostname os_image ≡ ok os
    → (node : Text) × (image : Text) × (os_image node ≡ ok image) × WritesWithin os p image name
unfolding detect_os_of_node os_of_answer
detect_os_of_node-Mounted getenv hostname os_image os p name h =
    >>=-elim (detector_node getenv hostname) _ h λ node _ answered.
      elim (Result-cases (os_image node)) [
        | inr (e, failed) ↦ absurd (let other = sym (ap os_of_answer failed) ∙ answered in cc)
        | inl (image, found) ↦
            (node, image, found, of_image os image p name (sym (ap os_of_answer found) ∙ answered))
      ]
