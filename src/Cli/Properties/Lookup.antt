-- ===== src/Cli/Properties/Lookup.antt =====
-- What a key of the properties (src/cli.rs) has after a write or a removal.
use jkq.Prelude.{
  if◌then◌else◌, Bool-cases, Bytes, ◌≡◌, refl, inl, inr, true, none, some, [], ◌∷◌, arith,
}
use jkq.Text.{same}
use jkq.Cli.Properties.{lookup, put, delete, PropertyMap}

pub same_refl : (s : Bytes) → same s s ≡ true
unfolding same
same_refl [] = refl
same_refl (a ∷ s) = ground (arith, same_refl s)

pub same→≡ : (s t : Bytes) → same s t ≡ true → s ≡ t
unfolding same
same→≡ [] [] h = refl
same→≡ [] (b ∷ t) h = absurd (ground arith)
same→≡ (a ∷ s) [] h = absurd (ground arith)
same→≡ (a ∷ s) (b ∷ t) h = ground (arith, same→≡ s t)

pub lookup-put :
    (key k value : Bytes) (properties : PropertyMap)
    → lookup key (put k value properties)
      ≡ (if same k key then some value else lookup key properties)
unfolding lookup put
lookup-put key k value [] = refl
lookup-put key k value ((j, v) ∷ more) =
    let rest = lookup-put key k value more in
    elim (Bool-cases (same j k)) [
      | inl f ↦ let e : j ≡ k = same→≡ j k f in ground (arith)
      | inr f ↦ ground (arith, same→≡ j key, same→≡ k key, same_refl j)
    ]

pub lookup-delete :
    (key k : Bytes) (properties : PropertyMap)
    → lookup key (delete k properties) ≡ (if same k key then none else lookup key properties)
unfolding lookup delete
lookup-delete key k [] = ground arith
lookup-delete key k ((j, v) ∷ more) =
    let rest = lookup-delete key k more in
    elim (Bool-cases (same j k)) [
      | inl f ↦ let e : j ≡ k = same→≡ j k f in ground (arith)
      | inr f ↦ ground (arith, same→≡ j key, same→≡ k key, same_refl j)
    ]
