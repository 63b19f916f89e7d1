-- ===== src/ConcurrentMap/Sharding/Sweep.antt =====
-- What is left of a map, and of a list of shards, when the entries that fail a test are deleted.
use gocc.Prelude.{
  some_injective, ℕ, zero, suc, ◌≡◌, ◌∙◌, refl, sym, ap, Bool, ◌&&◌, List, [], ◌∷◌, Option, none,
  some, arith, if◌then◌else◌, length, get_elem?, All,
}
use gocc.Prelude.Dict.{Dict, lookup, Distinct}
use gocc.ConcurrentMap.Sharding.{Sharding, shard_index, get_shard}
use gocc.ConcurrentMap.Sharding.Counts.{count, count_all}
use gocc.ConcurrentMap.Sharding.Stands.{Stands, shard-there, All-at}

abbrev pub kept : {A : Type 0} (Q : A → Bool) → Option A → Option A
kept Q none = none
kept Q (some a) = if Q a then some a else none

module _ {K A : Type 0} (Q : A → Bool) where
  -- A loop over a map that deletes as it goes.
  unfoldable pub keep : Dict K A → Dict K A
  keep [] = []
  keep ((k, a) ∷ d) = if Q a then (k, a) ∷ keep d else keep d

  unfoldable pub keep_all : List (Dict K A) → List (Dict K A)
  unfolding keep
  keep_all [] = []
  keep_all (d ∷ ds) = keep d ∷ keep_all ds

  count-keep : (P : K → A → Bool) (d : Dict K A) → count P (keep d) ≡ count (λ k a. Q a && P k a) d
  unfolding count keep
  count-keep P [] = refl
  count-keep P ((k, a) ∷ d) = ground (arith, count-keep P d)

  count_all-keep_all :
      (P : K → A → Bool) (ds : List (Dict K A))
      → count_all P (keep_all ds) ≡ count_all (λ k a. Q a && P k a) ds
  unfolding count_all keep_all
  count_all-keep_all P [] = refl
  count_all-keep_all P (d ∷ ds) = omega (arith, count-keep P d, count_all-keep_all P ds)

  length-keep_all : (ds : List (Dict K A)) → length (keep_all ds) ≡ length ds
  unfolding keep_all
  length-keep_all [] = refl
  length-keep_all (d ∷ ds) = ap suc (length-keep_all ds)

  get_elem?-keep_all :
      (ds : List (Dict K A)) (i : ℕ) (s : Dict K A)
      → get_elem? ds i ≡ some s
      → get_elem? (keep_all ds) i ≡ some (keep s)
  unfolding keep_all
  get_elem?-keep_all [] i s e = ground arith
  get_elem?-keep_all (d ∷ ds) zero s e = ground (arith, e)
  get_elem?-keep_all (d ∷ ds) (suc i) s e = get_elem?-keep_all ds i s e

  module _ (dec : Discrete K) where
    pub lookup-keep :
        (k : K) (d : Dict K A) → Distinct dec d → lookup dec k (keep d) ≡ kept Q (lookup dec k d)
    unfolding lookup keep
    lookup-keep k [] h = refl
    lookup-keep k ((j, a) ∷ d) h = ground (arith, lookup-keep k d h.1)

    keep-Distinct : (d : Dict K A) → Distinct dec d → Distinct dec (keep d)
    unfolding keep
    keep-Distinct [] h = tt
    keep-Distinct ((j, a) ∷ d) h = ground (arith, keep-Distinct d h.1, lookup-keep j d h.1)

    keep_all-Distinct :
        (ds : List (Dict K A)) → All (Distinct dec) ds → All (Distinct dec) (keep_all ds)
    unfolding keep_all
    keep_all-Distinct [] h = tt
    keep_all-Distinct (d ∷ ds) h = (keep-Distinct d h.0, keep_all-Distinct ds h.1)

    pub keep_all-Stands :
        (m : Sharding K A) (d : Dict K A)
        → Stands dec m d
        → Stands dec (record m { shards = keep_all m.shards }) (keep d)
    unfolding get_shard shard_index
    keep_all-Stands m d r = record {
      in_range = λ k. rw (length-keep_all m.shards) (r.in_range k);
      at = λ k t e.
          let (s, f) = shard-there dec m d k r in
          let same : keep s ≡ t =
            some_injective (sym (get_elem?-keep_all m.shards (shard_index m k) s f) ∙ e) in
          ap (lookup dec k) (sym same)
          ∙ lookup-keep k s (All-at dec m.shards (shard_index m k) s r.apart f)
          ∙ ap (kept Q) (r.at k s f)
          ∙ sym (lookup-keep k d r.distinct);
      counts = λ P.
          count_all-keep_all P m.shards ∙ r.counts (λ k a. Q a && P k a) ∙ sym (count-keep P d);
      apart = keep_all-Distinct m.shards r.apart;
      distinct = keep-Distinct d r.distinct;
    }
