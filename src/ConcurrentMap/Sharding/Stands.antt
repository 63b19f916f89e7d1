-- ===== src/ConcurrentMap/Sharding/Stands.antt =====
-- When a list of shards stands for one map, and that it still does after a write.
use gocc.Prelude.{
  some_injective, All-replicate, ℕ, zero, suc, ◌+◌, ◌-◌, ◌≤◌, ◌<◌, ◌≡◌, ◌≢◌, ◌∙◌, inl, inr, sym, ap,
  subst, if_neg, Bool, true, List, [], ◌∷◌, Option, none, some, ite, arith, length, get_elem?, set,
  replicate, All, length-set, length-replicate, get_elem?-lt, get_elem?-set_self, get_elem?-set_ne,
  ◌==◌, Bool-cases,
}
use gocc.Prelude.Int.{ℤ, pos, negsuc}
use gocc.Prelude.Bits.{bit_and-le}
use gocc.Prelude.Dict.{
  Dict, lookup, insert, delete, Distinct, lookup-insert, lookup-delete, insert-Distinct,
  delete-Distinct,
}
use gocc.ConcurrentMap.Sharding.{
  Sharding, next_power_of_2, new_sharding, shard_index, get_shard, put_shard, total,
}
use gocc.ConcurrentMap.Sharding.Counts.{
  weight, count, count_all, count_all-set, count_all-replicate, count-delete, count-length,
  count_all-total,
}

next_power_of_2-positive : (n : ℤ) → 1 ≤ next_power_of_2 n
unfolding next_power_of_2
next_power_of_2-positive (pos n) = ground arith
next_power_of_2-positive (negsuc n) = omega arith

module _ {K A : Type 0} (dec : Discrete K) where
  pub record Stands (m : Sharding K A) (d : Dict K A) : Type 0 where
    pub in_range : (k : K) → shard_index m k < length m.shards
    pub at : (k : K) (s : Dict K A) → get_shard m k ≡ some s → lookup dec k s ≡ lookup dec k d
    pub counts : (P : K → A → Bool) → count_all P m.shards ≡ count P d
    pub apart : All (Distinct dec) m.shards
    pub distinct : Distinct dec d

  -- What a write makes of a map: `none` deletes the key.
  unfoldable pub put : K → Option A → Dict K A → Dict K A
  put k none d = delete dec k d
  put k (some a) d = insert dec k a d

  lookup-put :
      (k j : K) (x : Option A) (d : Dict K A)
      → lookup dec j (put k x d) ≡ ite (dec k j) x (lookup dec j d)
  unfolding put
  lookup-put k j none d = lookup-delete dec k j d
  lookup-put k j (some a) d = lookup-insert dec k j a d

  put-Distinct : (k : K) (x : Option A) (d : Dict K A) → Distinct dec d → Distinct dec (put k x d)
  unfolding put
  put-Distinct k none d h = delete-Distinct dec k d h
  put-Distinct k (some a) d h = insert-Distinct dec k a d h

  count-put :
      (P : K → A → Bool) (k : K) (x : Option A) (d : Dict K A)
      → Distinct dec d
      → count P (put k x d) + weight P k (lookup dec k d) ≡ count P d + weight P k x
  unfolding put count insert
  count-put P k none d h = omega (arith, count-delete P dec k d h)
  count-put P k (some a) d h = omega (arith, count-delete P dec k d h)

  pub All-at :
      (ds : List (Dict K A)) (i : ℕ) (s : Dict K A)
      → All (Distinct dec) ds
      → get_elem? ds i ≡ some s
      → Distinct dec s
  All-at [] i s h e = ground arith
  All-at (d ∷ ds) zero s h e = subst (Distinct dec) (some_injective e) h.0
  All-at (d ∷ ds) (suc i) s h e = All-at ds i s h.1 e

  All-set :
      (ds : List (Dict K A)) (i : ℕ) (s : Dict K A)
      → All (Distinct dec) ds
      → Distinct dec s
      → All (Distinct dec) (set ds i s)
  All-set [] i s h e = tt
  All-set (d ∷ ds) zero s h e = (e, h.1)
  All-set (d ∷ ds) (suc i) s h e = (h.0, All-set ds i s h.1 e)

  put-Stands :
      (m : Sharding K A) (d s : Dict K A) (k : K) (x : Option A)
      → Stands m d
      → get_shard m k ≡ some s
      → Stands (put_shard m k (put k x s)) (put k x d)
  unfolding get_shard put_shard shard_index
  put-Stands m d s k x r e = record {
    in_range = λ j. rw (length-set m.shards (shard_index m k) (put k x s)) (r.in_range j);
    at = λ j t f. elim (Bool-cases (shard_index m j == shard_index m k)) [
      | inl same ↦
          let i : shard_index m j ≡ shard_index m k = ground (arith, same) in
          let here : put k x s ≡ t = some_injective (
            sym (get_elem?-set_self m.shards (shard_index m k) (put k x s) (r.in_range k))
            ∙ ap (get_elem? (set m.shards (shard_index m k) (put k x s))) (sym i)
            ∙ f) in
          ap (lookup dec j) (sym here)
          ∙ lookup-put k j x s
          ∙ ap (ite (dec k j) x) (r.at j s (ap (get_elem? m.shards) i ∙ e))
          ∙ sym (lookup-put k j x d)
      | inr other ↦
          let i : shard_index m k ≢ shard_index m j = ground (arith, other) in
          let ne : k ≢ j = λ h. i (ap (shard_index m) h) in
          r.at j t
            (sym (get_elem?-set_ne m.shards (shard_index m k) (shard_index m j) (put k x s) i) ∙ f)
          ∙ sym (lookup-put k j x d ∙ if_neg (dec k j) ne x (lookup dec j d))
    ];
    counts = λ P. omega (
      arith,
      count_all-set P m.shards (shard_index m k) s (put k x s) e,
      count-put P k x s (All-at m.shards (shard_index m k) s r.apart e),
      count-put P k x d r.distinct,
      r.counts P,
      ap (weight P k) (r.at k s e),
    );
    apart =
        All-set m.shards (shard_index m k) (put k x s) r.apart
          (put-Distinct k x s (All-at m.shards (shard_index m k) s r.apart e));
    distinct = put-Distinct k x d r.distinct;
  }

  module _ (m : Sharding K A) (d s : Dict K A) (k : K) (r : Stands m d)
      (e : get_shard m k ≡ some s) where
    pub insert-Stands : (a : A) → Stands (put_shard m k (insert dec k a s)) (insert dec k a d)
    unfolding put
    insert-Stands a = put-Stands m d s k (some a) r e

    pub delete-Stands : Stands (put_shard m k (delete dec k s)) (delete dec k d)
    unfolding put
    delete-Stands = put-Stands m d s k none r e

  pub shard-there :
      (m : Sharding K A) (d : Dict K A) (k : K)
      → Stands m d
      → (s : Dict K A) × (get_shard m k ≡ some s)
  unfolding get_shard
  shard-there m d k r = get_elem?-lt m.shards (shard_index m k) (r.in_range k)

  pub total-Stands : (m : Sharding K A) (d : Dict K A) → Stands m d → total m.shards ≡ length d
  total-Stands m d r = sym (count_all-total m.shards) ∙ r.counts (λ k a. true) ∙ count-length d

  replicate-empty :
      (n i : ℕ) (s : Dict K A) → get_elem? {A = Dict K A} (replicate n []) i ≡ some s → s ≡ []
  replicate-empty zero i s e = ground arith
  replicate-empty (suc n) zero s e = sym (some_injective e)
  replicate-empty (suc n) (suc i) s e = replicate-empty n i s e

  pub new_sharding-Stands : (n : ℤ) (hasher : K → ℕ) → Stands (new_sharding n hasher) []
  unfolding new_sharding count shard_index get_shard
  new_sharding-Stands n hasher =
      let p = next_power_of_2 n in
      let one : 1 ≤ p = next_power_of_2-positive n in
      record {
        in_range = λ k.
            omega (arith, bit_and-le (hasher k) (p - 1), length-replicate {A = Dict K A} p [], one);
        at = λ k s e. ap (lookup dec k) (replicate-empty p _ s e);
        counts = λ P. count_all-replicate P p;
        apart = All-replicate (Distinct {V = A} dec) p [] tt;
        distinct = tt;
      }
