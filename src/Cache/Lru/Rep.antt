-- ===== src/Cache/Lru/Rep.antt =====
-- When a map, a heap and two pointers represent a list of cells, and how that changes.
use gocc.Prelude.{
  ℕ, suc, ◌<◌, ◌≡◌, ◌∙◌, refl, sym, List, [], ◌∷◌, ◌++◌, Option, none, some, length, arith, All,
  false,
}
use gocc.Prelude.Dict.{
  Dict, lookup, insert, delete, Distinct, lookup-delete, lookup-insert, delete-Distinct,
  insert-Distinct, length-delete, length-insert_new,
}
use gocc.Cache.Lru.{Heap}
use gocc.Cache.Lru.Seg.{Cell, has}
use gocc.Cache.Lru.Links.{Linked}
use gocc.Cache.Lru.Table.{
  ptr_of, KeysApart, ptr_of-remove, ptr_of-front, KeysApart-remove, length-middle,
}

abbrev pub Below : {K V : Type 0} → ℕ → List (Cell K V) → Type 0
Below n = All λ x. x.ptr < n

module _ {K V : Type 0} where
  pub Below-remove :
      (n : ℕ) (xs : List (Cell K V)) (x : Cell K V) (ys : List (Cell K V))
      → Below n (xs ++ x ∷ ys)
      → Below n (xs ++ ys) × (x.ptr < n)
  Below-remove n [] x ys b = (b.1, b.0)
  Below-remove n (y ∷ xs) x ys b =
      let (rest, here) = Below-remove n xs x ys b.1 in ((b.0, rest), here)

  pub Below-suc : (n : ℕ) (xs : List (Cell K V)) → Below n xs → Below (suc n) xs
  Below-suc n [] b = tt
  Below-suc n (x ∷ xs) b = (omega arith, Below-suc n xs b.1)

  pub has-Below : (n : ℕ) (xs : List (Cell K V)) → Below n xs → has n xs ≡ false
  has-Below n [] b = refl
  has-Below n (x ∷ xs) b = ground (arith, has-Below n xs b.1)

module _ {K V : Type 0} (dec : Discrete K) where
  pub record Rep (table : Dict K ℕ) (heap : Heap K V) (fresh : ℕ) (head tail : Option ℕ)
      (cells : List (Cell K V)) : Type 0 where
    pub linked : Linked heap head tail cells
    pub indexed : (k : K) → lookup dec k table ≡ ptr_of dec k cells
    pub distinct : Distinct dec table
    pub sized : length table ≡ length cells
    pub keys_apart : KeysApart dec cells
    pub below : Below fresh cells

  module _ (k : K) (x : Cell K V) (same : x.key ≡ k) (xs ys : List (Cell K V))
      (out : ptr_of dec k xs ≡ none) (out' : ptr_of dec k ys ≡ none) where
    here-lem : ptr_of dec k (xs ++ x ∷ ys) ≡ some x.ptr
    unfolding ptr_of
    here-lem = ground (arith, ptr_of-front dec k x same k xs ys out, same)

    -- The cell of a key leaves the list, and the key the map.
    pub Rep-remove :
        (table : Dict K ℕ) (heap g : Heap K V) (fresh : ℕ) (head tail hd tl : Option ℕ)
        → Rep table heap fresh head tail (xs ++ x ∷ ys)
        → Linked g hd tl (xs ++ ys)
        → Rep (delete dec k table) g fresh hd tl (xs ++ ys)
    Rep-remove table heap g fresh head tail hd tl r l = record {
      linked = l;
      indexed = λ j. ground (
        arith,
        lookup-delete dec k j table,
        r.indexed j,
        ptr_of-remove dec k x same j xs ys out out',
      );
      distinct = delete-Distinct dec k table r.distinct;
      sized = omega (
        arith,
        length-delete dec k table x.ptr r.distinct (r.indexed k ∙ here-lem),
        r.sized,
        length-middle xs x ys,
      );
      keys_apart = KeysApart-remove dec k x same xs ys r.keys_apart out out';
      below = (Below-remove fresh xs x ys r.below).0;
    }

    -- The cell of a key goes to the front, perhaps with a new value and expiration.
    pub Rep-move :
        (v : V) (t : ℕ) (table : Dict K ℕ) (heap g : Heap K V) (fresh : ℕ)
        (head tail hd tl : Option ℕ)
        → Rep table heap fresh head tail (xs ++ x ∷ ys)
        → Linked g hd tl (record x { value = v; expiration = t } ∷ (xs ++ ys))
        → Rep table g fresh hd tl (record x { value = v; expiration = t } ∷ (xs ++ ys))
    unfolding ptr_of
    Rep-move v t table heap g fresh head tail hd tl r l = record {
      linked = l;
      indexed = λ j. r.indexed j ∙ sym (ptr_of-front dec k x same j xs ys out);
      distinct = r.distinct;
      sized = omega (arith, r.sized, length-middle xs x ys);
      keys_apart = (
        rw same (ground (arith, ptr_of-remove dec k x same k xs ys out out')),
        KeysApart-remove dec k x same xs ys r.keys_apart out out',
      );
      below = let (rest, here) = Below-remove fresh xs x ys r.below in (here, rest);
    }

  -- A cell for a new key comes in at the front.
  pub Rep-add :
      (k : K) (x : Cell K V) (xs : List (Cell K V)) (table : Dict K ℕ) (heap g : Heap K V)
      (fresh : ℕ) (head tail hd tl : Option ℕ)
      → x.key ≡ k
      → x.ptr ≡ fresh
      → lookup dec k table ≡ none
      → Rep table heap fresh head tail xs
      → Linked g hd tl (x ∷ xs)
      → Rep (insert dec k fresh table) g (suc fresh) hd tl (x ∷ xs)
  unfolding ptr_of
  Rep-add k x xs table heap g fresh head tail hd tl same new absent r l = record {
    linked = l;
    indexed = λ j. ground (arith, lookup-insert dec k j fresh table, r.indexed j, same, new);
    distinct = insert-Distinct dec k fresh table r.distinct;
    sized = omega (arith, length-insert_new dec k fresh table absent, r.sized);
    keys_apart = (ground (arith, r.indexed k, same, absent), r.keys_apart);
    below = (omega arith, Below-suc fresh xs r.below);
  }
