-- ===== src/Kafka/Settings.antt =====
-- `consumer_config` of src/kafka.rs: the properties that librdkafka is started with. The client's
-- own map has no order that is seen, and is kept in the order of its keys.
use jkq.Prelude.{
  if◌then◌else◌, Bool-cases, is_some, Bytes, ◌≡◌, refl, ap, ◌∙◌, inl, inr, true, ◌||◌, some, [],
  ◌∷◌, arith, codes,
}
use jkq.Text.{same}
use jkq.Cli.Properties.{PropertyMap, put, lookup, contains_key}
use jkq.Cli.Properties.Lookup.{lookup-put}

-- The loop over the properties.
unfoldable pub set_all : PropertyMap → PropertyMap → PropertyMap
unfolding put
set_all [] client = client
set_all ((key, value) ∷ properties) client = set_all properties (put key value client)

unfoldable pub set_group : PropertyMap → PropertyMap → PropertyMap
unfolding put lookup
set_group properties client =
    if contains_key (codes "group.id") properties
    then client
    else put (codes "group.id") (codes "jkq") client

-- The properties that jkq sets itself.
unfoldable pub set_managed : PropertyMap → PropertyMap
unfolding put
set_managed client = put (codes "enable.partition.eof") (codes "true") (
    put (codes "enable.auto.offset.store") (codes "false") (
      put (codes "enable.auto.commit") (codes "false")
        (put (codes "auto.offset.reset") (codes "error") client)))

unfoldable pub consumer_config : PropertyMap → PropertyMap
unfolding put set_all set_group set_managed
consumer_config properties = set_managed (
    set_group properties
      (set_all properties (put (codes "fetch.queue.backoff.ms") (codes "100") [])))

lookup-set_managed :
    (key : Bytes) (client : PropertyMap)
    → lookup key (set_managed client) ≡ (
        if same (codes "enable.partition.eof") key
        then some (codes "true")
        else if same (codes "enable.auto.offset.store") key
        then some (codes "false")
        else if same (codes "enable.auto.commit") key
        then some (codes "false")
        else if same (codes "auto.offset.reset") key
        then some (codes "error")
        else lookup key client)
unfolding set_managed
lookup-set_managed key client = simp (lookup-put) refl

set_all-contains_key :
    (key : Bytes) (properties client : PropertyMap)
    → (contains_key key client || contains_key key properties) ≡ true
    → contains_key key (set_all properties client) ≡ true
unfolding set_all lookup
set_all-contains_key key [] client h = ground arith
set_all-contains_key key ((k, v) ∷ properties) client h =
    set_all-contains_key key properties (put k v client) (ground (arith, lookup-put key k v client))

set_group-contains_key :
    (properties client : PropertyMap)
    → contains_key (codes "group.id") (set_group properties (set_all properties client)) ≡ true
unfolding set_group same
set_group-contains_key properties client =
    elim (Bool-cases (contains_key (codes "group.id") properties)) [
      | inl given ↦
          rw given (set_all-contains_key (codes "group.id") properties client (ground arith))
      | inr absent ↦ rw absent (
          ap is_some (
            lookup-put (codes "group.id") (codes "group.id") (codes "jkq")
              (set_all properties client)))
    ]

-- Whatever the properties are: the client fails on an offset that is out of range, commits and
-- stores no offsets, tells the end of a partition, and is in a group.
consumer_config_managed :
    (properties : PropertyMap)
    → let client : PropertyMap = consumer_config properties in
      (lookup (codes "auto.offset.reset") client ≡ some (codes "error"))
      × ((lookup (codes "enable.auto.commit") client ≡ some (codes "false"))
          × ((lookup (codes "enable.auto.offset.store") client ≡ some (codes "false"))
              × ((lookup (codes "enable.partition.eof") client ≡ some (codes "true"))
                  × (contains_key (codes "group.id") client ≡ true))))
unfolding consumer_config same
consumer_config_managed properties =
    let client : PropertyMap =
      set_group properties
        (set_all properties (put (codes "fetch.queue.backoff.ms") (codes "100") [])) in
    let managed = lookup-set_managed in
    (
      managed (codes "auto.offset.reset") client,
      (
        managed (codes "enable.auto.commit") client,
        (
          managed (codes "enable.auto.offset.store") client,
          (
            managed (codes "enable.partition.eof") client,
            ap is_some (managed (codes "group.id") client)
                ∙ set_group-contains_key properties
                    (put (codes "fetch.queue.backoff.ms") (codes "100") []),
          ),
        ),
      ),
    )
