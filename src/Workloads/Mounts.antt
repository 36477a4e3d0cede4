-- ===== src/Workloads/Mounts.antt =====
-- Whether a pod finds what it refers to: its service account, and the objects behind its volumes.
use oooi.Prelude.{String, List, [], ◌∷◌, ◌≡◌, ◌≢◌, All, Has}
use oooi.Prelude.Assoc.{Assoc}
use oooi.Api.Meta.{ObjectMeta}
use oooi.Api.Rbac.{ConfigMap}
use oooi.Api.Pods.{
  Volume, VolumeSource, VolumeMount, Container, PodSpec, Deployment, config_map,
  persistent_volume_claim, empty_dir, Service, ServicePort, ContainerPort,
}

-- A ConfigMap has the key.
abbrev pub HasKey : String → Assoc String → Type 0
HasKey key entries = (text : String) × Has (key, text) entries

-- A volume is backed by the ConfigMap, which has the keys of the items, or by a claim of the list.
abbrev pub Backed : ConfigMap → List ObjectMeta → VolumeSource → Type 0
Backed config claims (config_map name items) =
    (name ≡ config.metadata.name)
    × All (λ (item : String × String). HasKey item.0 config.entries) items
Backed config claims (persistent_volume_claim name) =
    (m : ObjectMeta) × Has m claims × (m.name ≡ name)
Backed config claims empty_dir = Unit

-- A mount names a volume of the pod.
abbrev pub Mountable : List Volume → VolumeMount → Type 0
Mountable volumes mount = (v : Volume) × Has v volumes × (v.name ≡ mount.name)

-- The Deployment selects its own pods; these run as the account, they mount volumes that they
-- have, and the objects behind the volumes are there, all in the namespace of the Deployment.
abbrev pub Fits : ConfigMap → List ObjectMeta → ObjectMeta → Deployment → Type 0
Fits config claims account d =
    (d.spec.match_labels ≡ d.spec.template_labels)
    × (d.spec.pod.service_account_name ≡ account.name)
    × All (λ (v : Volume). Backed config claims v.source) d.spec.pod.volumes
    × All (λ (c : Container). All (Mountable d.spec.pod.volumes) c.volume_mounts)
        d.spec.pod.containers
    × All (λ (m : ObjectMeta). m.namespace ≡ d.metadata.namespace)
        (config.metadata ∷ account ∷ claims)

-- The Service selects the pods of the Deployment: these have the labels of the selector. A Service
-- without a selector selects no pods.
abbrev pub Selects : Service → Deployment → Type 0
Selects s d =
    (s.spec.selector ≢ [])
    × All (λ (label : String × String). Has label d.spec.template_labels) s.spec.selector

-- A container of the pod has the port, with the protocol.
abbrev pub Listens : PodSpec → ServicePort → Type 0
Listens pod port =
    (c : Container) × Has c pod.containers
    × ((cp : ContainerPort) × Has cp c.ports
        × (cp.container_port ≡ port.target_port)
        × (cp.protocol ≡ port.protocol))

-- Each port of the Service leads to a port of the pods that it selects.
abbrev pub Reaches : Service → Deployment → Type 0
Reaches s d = Selects s d × All (Listens d.spec.pod) s.spec.ports
