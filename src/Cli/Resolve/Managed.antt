-- ===== src/Cli/Resolve/Managed.antt =====
-- The client properties that `resolve` of src/cli.rs lets through.
use jkq.Prelude.{
  is_some, Bytes, All, ok, Result-cases, ◌≡◌, refl, ap, ◌∙◌, subst, inl, inr, false, ◌&&◌, Option,
  some, arith, codes,
}
use jkq.Text.{same}
use jkq.Cli.Properties.{PropertyMap, lookup, contains_key}
use jkq.Cli.Resolve.{
  replace_alias, override_brokers, check_properties, check_managed, check_brokers, broker_list,
  has_empty_entry, managed_keys, bootstrap_servers,
}
use jkq.Cli.Resolve.Brokers.{
  lookup-replace_alias, check_managed-ok, check_brokers-ok, lookup-override_brokers,
}

-- The properties that librdkafka is started with.
pub record AreProperties (properties : PropertyMap) : Type 0 where
  pub unmanaged : All (λ key. contains_key key properties ≡ false) managed_keys
  pub brokers :
      (brokers : Bytes) × ((lookup bootstrap_servers properties ≡ some brokers)
        × (has_empty_entry brokers ≡ false))
  pub one_broker_list : contains_key (codes "metadata.broker.list") properties ≡ false
  pub one_fetch_size :
      (contains_key (codes "fetch.message.max.bytes") properties
        && contains_key (codes "max.partition.fetch.bytes") properties)
      ≡ false

-- A key that is neither of the broker lists keeps its value.
kept :
    (key : Bytes) (brokers : Option Bytes) (given replaced : PropertyMap)
    → same bootstrap_servers key ≡ false
    → same broker_list key ≡ false
    → replace_alias brokers given ≡ ok replaced
    → lookup key (override_brokers brokers replaced) ≡ lookup key given
kept key brokers given replaced other another h = ground (
  arith,
  lookup-replace_alias key brokers given replaced other h,
  lookup-override_brokers key brokers replaced other,
)

absent_kept :
    (key : Bytes) (brokers : Option Bytes) (given replaced : PropertyMap)
    → same bootstrap_servers key ≡ false
    → same broker_list key ≡ false
    → replace_alias brokers given ≡ ok replaced
    → contains_key key given ≡ false
    → contains_key key (override_brokers brokers replaced) ≡ false
absent_kept key brokers given replaced other another h absent =
    ap is_some (kept key brokers given replaced other another h) ∙ absent

both_kept :
    (key next : Bytes) (brokers : Option Bytes) (given replaced : PropertyMap)
    → same bootstrap_servers key ≡ false
    → same broker_list key ≡ false
    → same bootstrap_servers next ≡ false
    → same broker_list next ≡ false
    → replace_alias brokers given ≡ ok replaced
    → (contains_key key given && contains_key next given) ≡ false
    → (contains_key key (override_brokers brokers replaced)
        && contains_key next (override_brokers brokers replaced))
      ≡ false
both_kept key next brokers given replaced a b c d h absent =
    let first = ap is_some (kept key brokers given replaced a b h) in
    let second = ap is_some (kept next brokers given replaced c d h) in rw (first, second) absent

pub check_properties-AreProperties :
    (brokers : Option Bytes) (given properties : PropertyMap)
    → check_properties brokers given ≡ ok properties
    → AreProperties properties
unfolding check_properties same
check_properties-AreProperties brokers given properties h =
    elim (Result-cases (check_managed managed_keys given)) [
      | inl (e, f) ↦ absurd (ground arith)
      | inr (u, f) ↦ elim (Result-cases (replace_alias brokers given)) [
        | inl (e, g) ↦ absurd (ground arith)
        | inr (replaced, g) ↦
            elim (Result-cases (check_brokers (override_brokers brokers replaced))) [
              | inl (e, i) ↦ absurd (ground arith)
              | inr (v, i) ↦
                  let e : override_brokers brokers replaced ≡ properties = ground arith in
                  let unfetched : (contains_key (codes "fetch.message.max.bytes") given
                        && contains_key (codes "max.partition.fetch.bytes") given)
                      ≡ false =
                    ground arith in
                  let (a, (b, (c, (d, rest)))) = check_managed-ok managed_keys given u f in
                  subst AreProperties e (record {
                    unmanaged = (
                      absent_kept (codes "auto.offset.reset") brokers given replaced refl refl g a,
                      (
                        absent_kept (codes "enable.auto.commit") brokers given replaced refl refl g
                            b,
                        (
                          absent_kept (codes "enable.auto.offset.store") brokers given replaced refl
                              refl g c,
                          (
                            absent_kept (codes "enable.partition.eof") brokers given replaced refl
                                refl g d,
                            tt,
                          ),
                        ),
                      ),
                    );
                    brokers = check_brokers-ok (override_brokers brokers replaced) v i;
                    one_broker_list = ap is_some (
                        lookup-override_brokers broker_list brokers replaced refl
                        ∙ lookup-replace_alias broker_list brokers given replaced refl g);
                    one_fetch_size =
                        both_kept (codes "fetch.message.max.bytes")
                          (codes "max.partition.fetch.bytes") brokers given replaced refl refl refl
                          refl g unfetched;
                  })
            ]
      ]
    ]
