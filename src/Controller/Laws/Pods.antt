-- ===== src/Controller/Laws/Pods.antt =====
-- internal/controller: the pods of a job, by the labels and the directories that its template gives them.
use multi_network_interface.Prelude.{
  ◌≡◌, refl, ap, ◌∙◌, ◌⊎◌, inl, inr, Bool, true, false, [], ◌++◌, arith, if◌then◌else◌,
}
use mathlib.Core.List.{Memᴰ}
use multi_network_interface.Prelude.Int.{negsuc}
use multi_network_interface.Prelude.Text.{Text, text, eqb, itoa_ℤ, strip_prefix-append}
use multi_network_interface.Prelude.Text.Words.{join_path}
use multi_network_interface.Errors.{GoError, err}
use multi_network_interface.Rhel.Files.{link_path, nm_path}
use multi_network_interface.Netplan.{config_path}
use multi_network_interface.Controller.Objects.{find, label, Cr, Node, Pod}
use multi_network_interface.Controller.Jobs.{
  OsFamily, ubuntu, rhel, Volume, VolumeMount, Container, Job, JobParams, os_family_from_os_image,
  volumes_of, mounts_of, build_agent_job,
}
use multi_network_interface.Controller.Cluster.{Controller, World}
use multi_network_interface.Controller.Reconcile.{node_of, job_name, apply_job}
use multi_network_interface.Controller.Finish.{apply_termination_summary}
use multi_network_interface.Controller.Watch.{last_words, pod_node, handle_pod}

unless-same {ℓ} : {A : Type ℓ} (b : Bool) (a a' : A) → a' ≡ a → (if b then a else a') ≡ a
unless-same true a a' e = refl
unless-same false a a' e = e

module _ {W : Type 0} (c : Controller W) where
  template-label :
      (namespace : Text) (u : Cr) (info : Node)
      → label (text "multinic.io/node-name") (apply_job c namespace u info).template_labels ≡ []
  unfolding apply_job build_agent_job label find eqb
  template-label namespace u info = refl

  pod_node-job_name :
      (u : Cr) (pod : Pod)
      → label (text "job-name") pod.labels ≡ job_name (node_of u) u.generation
      → label (text "multinic.io/node-name") pod.labels ≡ []
      → pod_node pod ≡ node_of u ++ (text "-g" ++ itoa_ℤ u.generation)
  unfolding pod_node job_name
  pod_node-job_name u pod named unlabelled =
      let rest = node_of u ++ (text "-g" ++ itoa_ℤ u.generation) in
      rw (unlabelled, named, strip_prefix-append (text "multinic-agent-") rest) refl

  missed :
      (namespace node job msg : Text) (w : World W) (x : GoError)
      → c.api.get_cr w.cluster namespace node ≡ err x
      → (apply_termination_summary c namespace node job msg w).1 ≡ w
  unfolding apply_termination_summary
  missed namespace node job msg w x e = ground arith

  -- A pod of the job of a resource, with the label of its job's name and, for the node, that of the
  -- job's template, is taken to belong to a resource with the generation in its name. Where there is
  -- none of that name, its event changes nothing, whatever the pod says.
  pub handle_pod-misses :
      (namespace : Text) (u : Cr) (info : Node) (pod : Pod) (w : World W) (x : GoError)
      → label (text "job-name") pod.labels ≡ job_name (node_of u) u.generation
      → label (text "multinic.io/node-name") pod.labels
        ≡ label (text "multinic.io/node-name") (apply_job c namespace u info).template_labels
      → c.api.get_cr w.cluster namespace (node_of u ++ (text "-g" ++ itoa_ℤ u.generation)) ≡ err x
      → handle_pod c namespace pod w ≡ w
  unfolding handle_pod
  handle_pod-misses namespace u info pod w x named labelled absent =
      let e = pod_node-job_name u pod named (labelled ∙ template-label namespace u info) in
      unless-same _ w _ (
        missed namespace (pod_node pod) (label (text "job-name") pod.labels)
          (last_words ([], negsuc 0) pod.containers).0 w x
          (ap (c.api.get_cr w.cluster namespace) e ∙ absent))

OsFamily-cases : (f : OsFamily) → (f ≡ ubuntu) ⊎ (f ≡ rhel)
OsFamily-cases ubuntu = inl refl
OsFamily-cases rhel = inr refl

-- A path lies in a directory that a container of the job mounts from the same path of the host.
abbrev pub Mounted : Job → Text → Type 0
Mounted job path =
    (box : Container) × (m : VolumeMount) × (v : Volume) × (rest : Text) × Memᴰ box job.containers
    × Memᴰ m box.mounts
    × Memᴰ v job.volumes
    × (v.name ≡ m.name)
    × (v.host_path ≡ m.mount_path)
    × (path ≡ m.mount_path ++ (text "/" ++ rest))

-- The files that the adapter of its family writes for any name lie in directories that the job for
-- the image of a node mounts: one file on Ubuntu, and both of them on every other system.
pub build_agent_job-Mounted :
    (image : Text) (p : JobParams) (name : Text)
    → ((os_family_from_os_image image ≡ ubuntu)
        × Mounted (build_agent_job image p) (config_path name))
      ⊎ ((os_family_from_os_image image ≡ rhel)
          × Mounted (build_agent_job image p) (link_path name)
          × Mounted (build_agent_job image p) (nm_path name))
unfolding build_agent_job volumes_of mounts_of config_path link_path nm_path join_path
build_agent_job-Mounted image p name = elim (OsFamily-cases (os_family_from_os_image image)) [
  | inl e ↦
      rw e
        (inl (refl, (_, _, _, _, Memᴰ.head refl, Memᴰ.head refl, Memᴰ.head refl, refl, refl, refl)))
  | inr e ↦ rw e (
      inr (
        refl,
        (
          _,
          _,
          _,
          _,
          Memᴰ.head refl,
          Memᴰ.tail (Memᴰ.head refl),
          Memᴰ.tail (Memᴰ.head refl),
          refl,
          refl,
          refl,
        ),
        (_, _, _, _, Memᴰ.head refl, Memᴰ.head refl, Memᴰ.head refl, refl, refl, refl),
      ))
]
