-- ===== src/Common/Dict.antt =====
-- A map with text keys, of which the code uses only loads, stores and deletes: a function.
use compkg.Common.{String, ◌≡◌, refl, true, Option, none, some, str_eq, eq_iff, if◌then◌else◌}

abbrev pub Dict {ℓ} : Type ℓ → Type ℓ
Dict V = String → Option V

module _ {ℓ} {V : Type ℓ} where
  abbrev pub empty : Dict V
  empty k = none

  unfoldable pub store : String → V → Dict V → Dict V
  store k v m j = if str_eq k j then some v else m j

  unfoldable pub delete : String → Dict V → Dict V
  delete k m j = if str_eq k j then none else m j

  pub store_at :
      (k j : String) (v : V) (m : Dict V) → store k v m j ≡ (if str_eq k j then some v else m j)
  unfolding store
  store_at k j v m = refl

  pub delete_at : (k j : String) (m : Dict V) → delete k m j ≡ (if str_eq k j then none else m j)
  unfolding delete
  delete_at k j m = refl

pub str_eq_refl : (k : String) → str_eq k k ≡ true
str_eq_refl k = (eq_iff k k).1 refl

pub store_self {ℓ} : {V : Type ℓ} (k : String) (v : V) (m : Dict V) → store k v m k ≡ some v
store_self k v m = rw (store_at k k v m, str_eq_refl k)
