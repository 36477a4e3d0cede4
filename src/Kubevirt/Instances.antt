-- ===== src/Kubevirt/Instances.antt =====
-- What a refresh leaves: one instance for each name and namespace, the last one listed.
use oooi.Prelude.{
  ◌∙◌, ap, String, false, List, [], ◌∷◌, ◌++◌, Option, none, some, ◌≡◌, refl, sym, arith, eq_iff,
  ◌===◌, ◌&&◌, if◌then◌else◌,
}
use mathlib.Core.List.{append-nil, append_assoc}
use mathlib.Core.Path.{subst}
use oooi.Kubevirt.Plugin.{
  KubevirtInstance, KubevirtState, add_to, add_instance, add_all, refresh_instances,
}

-- The instance of a name and namespace in a list.
unfoldable pub find_named : String → String → List KubevirtInstance → Option KubevirtInstance
find_named name namespace [] = none
find_named name namespace (i ∷ rest) =
    if i.name === name && i.namespace === namespace then some i else find_named name namespace rest

-- The last listed instance of a name and namespace, or `else_` if none is listed.
unfoldable pub last_named :
    String → String → Option KubevirtInstance → List KubevirtInstance → Option KubevirtInstance
last_named name namespace else_ [] = else_
last_named name namespace else_ (i ∷ rest) =
    last_named name namespace
      (if i.name === name && i.namespace === namespace then some i else else_) rest

find_named-add_to :
    (name namespace : String) (i : KubevirtInstance) (js : List KubevirtInstance)
    → find_named name namespace (add_to i js) ≡ (
        if i.name === name && i.namespace === namespace
        then some i
        else find_named name namespace js)
unfolding find_named add_to
find_named-add_to name namespace i [] = refl
find_named-add_to name namespace i (j ∷ js) = ground (
  arith,
  eq_iff j.name i.name,
  eq_iff j.namespace i.namespace,
  eq_iff i.name name,
  eq_iff i.namespace namespace,
  eq_iff j.name name,
  eq_iff j.namespace namespace,
  find_named-add_to name namespace i js,
)

find_named-add_all :
    (name namespace : String) (k : KubevirtState) (items : List KubevirtInstance)
    → find_named name namespace (add_all k items).instances
      ≡ last_named name namespace (find_named name namespace k.instances) items
unfolding add_all add_instance last_named
find_named-add_all name namespace k [] = refl
find_named-add_all name namespace k (i ∷ rest) =
    find_named-add_all name namespace (add_instance k i) rest
    ∙ ap (λ o. last_named name namespace o rest) (find_named-add_to name namespace i k.instances)

-- After a refresh the instance of each name and namespace is the last one that the cluster listed
-- under it, and there is none if it listed none, whatever the state held before.
pub find_named-refresh :
    (items : List KubevirtInstance) (k : KubevirtState) (name namespace : String)
    → find_named name namespace (refresh_instances (some items) k).0.instances
      ≡ last_named name namespace none items
unfolding refresh_instances find_named
find_named-refresh items k name namespace =
    find_named-add_all name namespace (record { instances = [] }) items

-- No two instances of the list have the same name and namespace.
abbrev pub Distinct : List KubevirtInstance → Type 0
Distinct [] = Unit {0}
Distinct (i ∷ rest) = (find_named i.name i.namespace rest ≡ none) × Distinct rest

add_to-Distinct :
    (i : KubevirtInstance) (js : List KubevirtInstance) → Distinct js → Distinct (add_to i js)
unfolding add_to find_named
add_to-Distinct i [] d = (refl, tt)
add_to-Distinct i (j ∷ js) d = ground (
  arith,
  eq_iff j.name i.name,
  eq_iff j.namespace i.namespace,
  eq_iff i.name j.name,
  eq_iff i.namespace j.namespace,
  find_named-add_to j.name j.namespace i js,
  add_to-Distinct i js d.1,
)

add_all-Distinct :
    (k : KubevirtState) (items : List KubevirtInstance)
    → Distinct k.instances
    → Distinct (add_all k items).instances
unfolding add_all add_instance
add_all-Distinct k [] d = d
add_all-Distinct k (i ∷ rest) d =
    add_all-Distinct (add_instance k i) rest (add_to-Distinct i k.instances d)

-- After a refresh no two instances have the same name and namespace, whatever the cluster listed.
pub refresh-Distinct :
    (items : List KubevirtInstance) (k : KubevirtState)
    → Distinct (refresh_instances (some items) k).0.instances
unfolding refresh_instances
refresh-Distinct items k = add_all-Distinct (record { instances = [] }) items tt

-- A list with distinct names is taken over as it is, in its order.
add_to-append :
    (i : KubevirtInstance) (js : List KubevirtInstance)
    → find_named i.name i.namespace js ≡ none
    → add_to i js ≡ js ++ i ∷ []
unfolding add_to find_named
add_to-append i [] new = refl
add_to-append i (j ∷ js) new = ground (arith, add_to-append i js)

-- The instance at the end of a list has another name than those in front of it.
not_named :
    (name namespace : String) (js rest : List KubevirtInstance) (i : KubevirtInstance)
    → find_named name namespace (js ++ i ∷ rest) ≡ none
    → (i.name === name && i.namespace === namespace) ≡ false
unfolding find_named
not_named name namespace [] rest i none_found = ground arith
not_named name namespace (j ∷ js) rest i none_found =
    not_named name namespace js rest i (ground arith)

Distinct-middle :
    (js rest : List KubevirtInstance) (i : KubevirtInstance)
    → Distinct (js ++ i ∷ rest)
    → find_named i.name i.namespace js ≡ none
unfolding find_named
Distinct-middle [] rest i d = refl
Distinct-middle (j ∷ js) rest i d = ground (
  arith,
  not_named j.name j.namespace js rest i d.0,
  Distinct-middle js rest i d.1,
  eq_iff j.name i.name,
  eq_iff j.namespace i.namespace,
  eq_iff i.name j.name,
  eq_iff i.namespace j.namespace,
)

add_all-append :
    (k : KubevirtState) (items : List KubevirtInstance)
    → Distinct (k.instances ++ items)
    → (add_all k items).instances ≡ k.instances ++ items
unfolding add_all add_instance
add_all-append k [] d = sym (append-nil k.instances)
add_all-append k (i ∷ rest) d =
    let new = add_to-append i k.instances (Distinct-middle k.instances rest i d) in
    let shift = ap (λ js. js ++ rest) new ∙ append_assoc k.instances (i ∷ []) rest in
    add_all-append (add_instance k i) rest (subst Distinct (sym shift) d) ∙ shift

-- A listing without repeated names is taken over as it is, in its order.
pub refresh-items :
    (items : List KubevirtInstance) (k : KubevirtState)
    → Distinct items
    → (refresh_instances (some items) k).0.instances ≡ items
unfolding refresh_instances
refresh-items items k d = add_all-append (record { instances = [] }) items d
