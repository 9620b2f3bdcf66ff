-- ===== src/Graphs.antt =====
-- registry.py, GraphRegistry: the compiled graphs by assistant id, with the default one. A graph is a
-- value of any type `G`, and the mapping is an association list in insertion order.
use skeino.Base.{
  ◌≡◌, refl, subst, ap, Bool, true, false, Option, none, some, List, [], ◌∷◌, if◌then◌else◌,
  Bool-cases, inl, inr,
}
use skeino.Text.{Text, text_eq, text_eq_refl}

pub data RegistryError : Type 0 where
  no_graphs : RegistryError
  unknown_default : Text → RegistryError

pub record GraphRegistry (G : Type 0) : Type 0 where
  pub graphs : List (Text × G)
  pub default_id : Text

unfoldable pub lookup : {G : Type 0} → List (Text × G) → Text → Option G
unfolding text_eq
lookup [] name = none
lookup ((key, graph) ∷ graphs) name =
    let rest = lookup graphs name in if text_eq key name then some graph else rest

abbrev pub present : {G : Type 0} → Option G → Bool
present none = false
present (some graph) = true

-- `default or next(iter(self._graphs))`: an empty text counts as no default
unfoldable pub chosen : Option Text → Text → Text
chosen none first = first
chosen (some []) first = first
chosen (some (c ∷ s)) first = c ∷ s

pub data Built (G : Type 0) : Type 0 where
  built : GraphRegistry G → Built G
  refused : RegistryError → Built G

unfoldable pub check_default : {G : Type 0} → List (Text × G) → Option Text → Text → Built G
unfolding lookup chosen
check_default graphs none first = Built.built (record { graphs = graphs; default_id = first })
check_default graphs (some name) first =
    if present (lookup graphs name)
    then Built.built (record { graphs = graphs; default_id = chosen (some name) first })
    else Built.refused (RegistryError.unknown_default name)

-- __init__
unfoldable pub new_graph_registry : {G : Type 0} → List (Text × G) → Option Text → Built G
unfolding check_default
new_graph_registry [] selected = Built.refused RegistryError.no_graphs
new_graph_registry ((key, graph) ∷ graphs) selected =
    check_default ((key, graph) ∷ graphs) selected key

unfoldable pub default_graph : {G : Type 0} → GraphRegistry G → Option G
unfolding lookup
default_graph r = lookup r.graphs r.default_id

unfoldable pub get_graph : {G : Type 0} → GraphRegistry G → Text → Option G
unfolding lookup
get_graph r assistant_id = lookup r.graphs assistant_id

lookup_first :
    {G : Type 0} (key : Text) (graph : G) (graphs : List (Text × G))
    → lookup ((key, graph) ∷ graphs) key ≡ some graph
unfolding lookup
lookup_first key graph graphs = rw (text_eq_refl key) refl

chosen-present :
    {G : Type 0} (key : Text) (graph : G) (graphs : List (Text × G)) (name : Text)
    → present (lookup ((key, graph) ∷ graphs) name) ≡ true
    → present (lookup ((key, graph) ∷ graphs) (chosen (some name) key)) ≡ true
unfolding chosen
chosen-present key graph graphs [] t = ap present (lookup_first key graph graphs)
chosen-present key graph graphs (c ∷ s) t = t

check_default-present :
    {G : Type 0} (key : Text) (graph : G) (graphs : List (Text × G)) (selected : Option Text)
    (r : GraphRegistry G)
    → check_default ((key, graph) ∷ graphs) selected key ≡ Built.built r
    → present (default_graph r) ≡ true
unfolding check_default chosen default_graph
check_default-present key graph graphs none r h =
    let e : record { graphs = (key, graph) ∷ graphs; default_id = key } ≡ r = cc in
    subst (λ x. present (default_graph x) ≡ true) e (ap present (lookup_first key graph graphs))
check_default-present key graph graphs (some name) r h =
    elim (Bool-cases (present (lookup ((key, graph) ∷ graphs) name))) [
      | inl t ↦
          let e : record { graphs = (key, graph) ∷ graphs; default_id = chosen (some name) key }
              ≡ r =
            (let h' : Built.built
                    (record { graphs = (key, graph) ∷ graphs; default_id = chosen (some name) key })
                  ≡ Built.built r =
                rw (t, check_default) at h in
              cc) in
          subst (λ x. present (default_graph x) ≡ true) e (chosen-present key graph graphs name t)
      | inr f ↦ absurd (
          let h' : Built.refused (RegistryError.unknown_default name) ≡ Built.built r =
            rw (f, check_default) at h in
          cc)
    ]

-- A registry that is built at all has a graph under its default id.
pub new_graph_registry_default :
    {G : Type 0} (graphs : List (Text × G)) (selected : Option Text) (r : GraphRegistry G)
    → new_graph_registry graphs selected ≡ Built.built r
    → present (default_graph r) ≡ true
unfolding new_graph_registry
new_graph_registry_default [] selected r h = absurd (cc)
new_graph_registry_default ((key, graph) ∷ graphs) selected r h =
    check_default-present key graph graphs selected r h
