-- ===== src/ConcurrentMap/Sharding/Counts.antt =====
-- How many entries of a Go map, and of a list of them, pass a test.
use gocc.Prelude.{
  ℕ, zero, suc, ◌+◌, ◌≡◌, refl, Bool, true, List, [], ◌∷◌, Option, none, some, arith, if◌then◌else◌,
  length, get_elem?, set, replicate,
}
use gocc.Prelude.Dict.{Dict, lookup, delete, Distinct, delete_absent}
use gocc.ConcurrentMap.Sharding.{total}

module _ {K A : Type 0} (P : K → A → Bool) where
  abbrev pub weight : K → Option A → ℕ
  weight k none = 0
  weight k (some a) = if P k a then 1 else 0

  unfoldable pub count : Dict K A → ℕ
  count [] = 0
  count ((k, a) ∷ d) = weight k (some a) + count d

  unfoldable pub count_all : List (Dict K A) → ℕ
  count_all [] = 0
  count_all (d ∷ ds) = count d + count_all ds

  pub count_all-set :
      (ds : List (Dict K A)) (i : ℕ) (s s' : Dict K A)
      → get_elem? ds i ≡ some s
      → count_all (set ds i s') + count s ≡ count_all ds + count s'
  unfolding count_all
  count_all-set [] i s s' h = ground arith
  count_all-set (d ∷ ds) zero s s' h = grind (arith, h)
  count_all-set (d ∷ ds) (suc i) s s' h = omega (arith, count_all-set ds i s s' h)

  pub count_all-replicate : (n : ℕ) → count_all (replicate n []) ≡ 0
  unfolding count_all count
  count_all-replicate zero = refl
  count_all-replicate (suc n) = omega (arith, count_all-replicate n)

  module _ (dec : Discrete K) where
    pub count-delete :
        (k : K) (d : Dict K A)
        → Distinct dec d
        → count (delete dec k d) + weight k (lookup dec k d) ≡ count d
    unfolding count lookup delete
    count-delete k [] h = refl
    count-delete k ((j, a) ∷ d) h = ground (arith, count-delete k d h.1, delete_absent dec k d)

module _ {K A : Type 0} where
  pub count-length : (d : Dict K A) → count (λ k a. true) d ≡ length d
  unfolding count
  count-length [] = refl
  count-length ((k, a) ∷ d) = omega (arith, count-length d)

  pub count_all-total : (ds : List (Dict K A)) → count_all (λ k a. true) ds ≡ total ds
  unfolding count_all total
  count_all-total [] = refl
  count_all-total (d ∷ ds) = omega (arith, count-length d, count_all-total ds)
