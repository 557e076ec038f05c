-- ===== src/Cli/Resolve/Brokers.antt =====
-- What becomes of the properties' keys in `resolve` of src/cli.rs.
use jkq.Prelude.{
  if◌then◌else◌, Option-cases, Bytes, All, ok, fail_if, ok_or, ◌≡◌, refl, inl, inr, false, Option,
  none, some, List, [], ◌∷◌, arith, bind-ok, fail_if-ok, ok_or-ok,
}
use jkq.Map.{keys}
use jkq.Text.{same}
use jkq.Cli.Properties.{lookup, delete, PropertyMap, contains_key}
use jkq.Cli.Properties.Lookup.{lookup-put, lookup-delete}
use jkq.Cli.Resolve.{
  replace_alias, override_brokers, check_managed, check_brokers, bootstrap_servers, empty_broker,
  managed_property, no_brokers, has_empty_entry, broker_list,
}

pub lookup-replace_alias :
    (key : Bytes) (brokers : Option Bytes) (properties result : PropertyMap)
    → same bootstrap_servers key ≡ false
    → replace_alias brokers properties ≡ ok result
    → lookup key result ≡ (if same broker_list key then none else lookup key properties)
unfolding replace_alias
lookup-replace_alias key brokers properties result other h =
    let removed = lookup-delete key broker_list properties in
    elim (Option-cases (lookup broker_list properties)) [
      | inl f ↦ ground (arith)
      | inr (listed, f) ↦ elim (Option-cases brokers) [
        | inr (given, g) ↦ ground (arith)
        | inl g ↦
            let written = lookup-put key bootstrap_servers listed (delete broker_list properties) in
            ground (arith)
      ]
    ]

pub lookup-override_brokers :
    (key : Bytes) (brokers : Option Bytes) (properties : PropertyMap)
    → same bootstrap_servers key ≡ false
    → lookup key (override_brokers brokers properties) ≡ lookup key properties
unfolding override_brokers
lookup-override_brokers key none properties other = refl
lookup-override_brokers key (some given) properties other =
    ground (arith, lookup-put key bootstrap_servers given properties)

pub check_managed-ok :
    (keys : List Bytes) (properties : PropertyMap) (u : Unit {0})
    → check_managed keys properties ≡ ok u
    → All (λ key. contains_key key properties ≡ false) keys
unfolding check_managed
check_managed-ok [] properties u h = tt
check_managed-ok (key ∷ keys) properties u h =
    let (v, (first, others)) =
      bind-ok (fail_if (contains_key key properties) (managed_property key))
        (λ _. check_managed keys properties) u h in
    (
      fail_if-ok (contains_key key properties) (managed_property key) v first,
      check_managed-ok keys properties u others,
    )

pub check_brokers-ok :
    (properties : PropertyMap) (u : Unit {0})
    → check_brokers properties ≡ ok u
    → (brokers : Bytes) × ((lookup bootstrap_servers properties ≡ some brokers)
        × (has_empty_entry brokers ≡ false))
unfolding check_brokers
check_brokers-ok properties u h =
    let (brokers, (found, rest)) =
      bind-ok (ok_or (lookup bootstrap_servers properties) no_brokers)
        (λ brokers. fail_if (has_empty_entry brokers) empty_broker) u h in
    (
      brokers,
      (
        ok_or-ok (lookup bootstrap_servers properties) no_brokers brokers found,
        fail_if-ok (has_empty_entry brokers) empty_broker u rest,
      ),
    )
