-- ===== src/Outputs/Allowed.antt =====
-- streaming/runner.py: what the output filter lets through, by what the keys are.
use skeino.Base.{
  ◌≡◌, ◌⊎◌, refl, sym, ap, subst, ◌∙◌, Option, none, some, List, String, if◌then◌else◌, str_eq,
  eq_iff, arith, Bool-cases, inl, inr,
}
use skeino.Json.{Json, Fields}
use skeino.Text.{Text}
use skeino.Outputs.{
  field_of, is_reserved, is_allowed, keep_allowed, filter_values, filter_update, filter_nodes,
  filter_updates,
}
use skeino.Outputs.Keys.{
  Reserved, MayPass, is_reserved-Reserved, Reserved-is_reserved, is_allowed-MayPass,
  MayPass-is_allowed, decided,
}

abbrev map_some : {A B : Type 0} → (A → B) → Option A → Option B
map_some f none = none
map_some f (some a) = some (f a)

field_of-keep_allowed :
    (output_keys : Option (List Text)) (fields : Fields) (key : String)
    → field_of (keep_allowed output_keys fields) key
      ≡ (if is_allowed output_keys key then field_of fields key else none)
unfolding field_of keep_allowed
field_of-keep_allowed output_keys Fields.end key = ground arith
field_of-keep_allowed output_keys (Fields.field k value fields) key =
    let ih = field_of-keep_allowed output_keys fields key in
    elim (Bool-cases (str_eq k key)) [
      | inl y ↦
          let same = ap (is_allowed output_keys) ((eq_iff k key).0 y) in ground (arith, ih, same, y)
      | inr n ↦ ground (arith, ih, n)
    ]

field_of-filter_nodes :
    (keys : List Text) (fields : Fields) (node : String)
    → field_of (filter_nodes keys fields) node
      ≡ map_some (filter_update keys node) (field_of fields node)
unfolding field_of filter_nodes
field_of-filter_nodes keys Fields.end node = refl
field_of-filter_nodes keys (Fields.field k update fields) node =
    let ih = field_of-filter_nodes keys fields node in
    elim (Bool-cases (str_eq k node)) [
      | inl y ↦ rw y (ap (λ n. some (filter_update keys n update)) ((eq_iff k node).0 y))
      | inr n ↦ rw n ih
    ]

-- What is found under a key that may pass is what was there; under another key, nothing.
abbrev pub Passed : Option (List Text) → Fields → Fields → String → Type 0
Passed output_keys fields fields' key =
    (MayPass output_keys key × (field_of fields' key ≡ field_of fields key))
    ⊎ ((¬ MayPass output_keys key) × (field_of fields' key ≡ none))

keep_allowed-Passed :
    (output_keys : Option (List Text)) (fields : Fields) (key : String)
    → Passed output_keys fields (keep_allowed output_keys fields) key
keep_allowed-Passed output_keys fields key =
    let e = field_of-keep_allowed output_keys fields key in
    elim (decided (is_allowed output_keys key) (is_allowed-MayPass output_keys key)
      (MayPass-is_allowed output_keys key)) [
        | inl (p, y) ↦ inl (p, e ∙ rw y)
        | inr (p, n) ↦ inr (p, e ∙ rw n)
      ]

-- The filter of one node's update: a dict keeps what may pass, unless the node is a reserved channel.
abbrev pub UpdatePassed : Option (List Text) → String → String → Option Json → Option Json → Type 0
UpdatePassed (some keys) node key (some (Json.obj update)) found' =
    (update' : Fields) × (found' ≡ some (Json.obj update'))
    × ((Reserved node × (update' ≡ update))
        ⊎ ((¬ Reserved node) × Passed (some keys) update update' key))
UpdatePassed output_keys node key found found' = found' ≡ found

filter_update-UpdatePassed :
    (keys : List Text) (node key : String) (found : Option Json)
    → UpdatePassed (some keys) node key found (map_some (filter_update keys node) found)
unfolding filter_update
filter_update-UpdatePassed keys node key none = refl
filter_update-UpdatePassed keys node key (some (Json.obj update)) =
    elim (decided (is_reserved node) (is_reserved-Reserved node) (Reserved-is_reserved node)) [
      | inl (p, y) ↦ (update, rw y, inl (p, refl))
      | inr (p, n) ↦ (
        keep_allowed (some keys) update,
        rw n,
        inr (p, keep_allowed-Passed (some keys) update key),
      )
    ]
filter_update-UpdatePassed keys node key (some Json.null) = refl
filter_update-UpdatePassed keys node key (some (Json.bool b)) = refl
filter_update-UpdatePassed keys node key (some (Json.int n)) = refl
filter_update-UpdatePassed keys node key (some (Json.float text)) = refl
filter_update-UpdatePassed keys node key (some (Json.str text)) = refl
filter_update-UpdatePassed keys node key (some (Json.arr items)) = refl

filter_values-Passed :
    (output_keys : Option (List Text)) (fields : Fields) (key : String)
    → Passed output_keys fields (filter_values output_keys fields) key
unfolding filter_values
filter_values-Passed none fields key = inl (tt, refl)
filter_values-Passed (some keys) fields key = keep_allowed-Passed (some keys) fields key

filter_updates-UpdatePassed :
    (output_keys : Option (List Text)) (fields : Fields) (node key : String)
    → UpdatePassed output_keys node key
        (field_of fields node)
        (field_of (filter_updates output_keys fields) node)
unfolding filter_updates
filter_updates-UpdatePassed none fields node key = refl
filter_updates-UpdatePassed (some keys) fields node key =
    subst (UpdatePassed (some keys) node key (field_of fields node))
      (sym (field_of-filter_nodes keys fields node))
      (filter_update-UpdatePassed keys node key (field_of fields node))

-- A filtered state has, under each key, the state's value if the graph has no output schema, the key
-- begins and ends with two underscores, or it is one of the schema's keys; and nothing otherwise. A
-- filtered update has, under each node, that node's update, of which a dict keeps just the values under
-- such keys, unless the node's own name begins and ends with two underscores or there is no schema.
pub filters_exact :
    (output_keys : Option (List Text)) (fields : Fields) (node key : String)
    → Passed output_keys fields (filter_values output_keys fields) key
      × UpdatePassed output_keys node key
          (field_of fields node)
          (field_of (filter_updates output_keys fields) node)
filters_exact output_keys fields node key = (
  filter_values-Passed output_keys fields key,
  filter_updates-UpdatePassed output_keys fields node key,
)
