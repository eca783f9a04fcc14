-- ===== src/Filter/Parents.antt =====
-- The references to a parent directory that `filter_check` refuses, by the components of the path.
use fapolicyd.Prelude.{
  ℕ, ◌≡◌, refl, Bool, true, false, ◌||◌, List, [], ◌∷◌, arith, ◌==◌, if◌then◌else◌,
}
use fapolicyd.Prelude.Bytes.{Bytes, bytes_eq, has_prefix}
use fapolicyd.Filter.{normalize, has_parent_inside, has_parent}

-- The bytes before the first separator, and the components after it.
unfoldable pub first_component : Bytes → Bytes
first_component [] = []
first_component (c ∷ s) = if c == 47 then [] else c ∷ first_component s

unfoldable pub other_components : Bytes → List Bytes
unfolding first_component
other_components [] = []
other_components (c ∷ s) =
    if c == 47 then first_component s ∷ other_components s else other_components s

-- `..`
abbrev parent : Bytes
parent = 46 ∷ 46 ∷ []

unfoldable pub any_parent : List Bytes → Bool
unfolding bytes_eq
any_parent [] = false
any_parent (x ∷ xs) = bytes_eq parent x || any_parent xs

unfoldable pub names_parent : Bytes → Bool
unfolding first_component other_components any_parent
names_parent path = any_parent (first_component path ∷ other_components path)

first_is_parent :
    (s : Bytes)
    → bytes_eq parent (first_component s) ≡ (has_prefix (46 ∷ 46 ∷ 47 ∷ []) s || bytes_eq parent s)
unfolding first_component bytes_eq has_prefix
first_is_parent [] = refl
first_is_parent (a ∷ []) = ground arith
first_is_parent (a ∷ b ∷ []) = ground arith
first_is_parent (a ∷ b ∷ c ∷ s) = ground arith

inside_lem : (s : Bytes) → has_parent_inside s ≡ any_parent (other_components s)
unfolding has_parent_inside other_components any_parent bytes_eq has_prefix
inside_lem [] = refl
inside_lem (c ∷ s) = ground (arith, inside_lem s, first_is_parent s)

pub has_parent-names_parent : (s : Bytes) → has_parent s ≡ names_parent s
unfolding has_parent names_parent any_parent
has_parent-names_parent s = ground (arith, inside_lem s, first_is_parent s)

others-normalize :
    (last : ℕ) (s : Bytes)
    → ((last == 47) ≡ false
        → (first_component (normalize last s) ≡ first_component s)
          × (any_parent (other_components (normalize last s)) ≡ any_parent (other_components s)))
      × ((last == 47) ≡ true → names_parent (normalize last s) ≡ names_parent s)
unfolding normalize names_parent first_component other_components any_parent bytes_eq
others-normalize last [] = (λ h. (refl, refl), λ h. refl)
others-normalize last (c ∷ s) =
    (λ h. ground (arith, others-normalize c s), λ h. ground (arith, others-normalize c s))

pub names_parent-normalize : (s : Bytes) → names_parent (normalize 0 s) ≡ names_parent s
unfolding names_parent any_parent
names_parent-normalize s =
    let both = (others-normalize 0 s).0 refl in ground (arith, both.0, both.1)
