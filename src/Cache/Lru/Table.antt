-- ===== src/Cache/Lru/Table.antt =====
-- The map of LRUCache against the list: which address a key has.
use gocc.Prelude.{
  ℕ, suc, ◌≡◌, refl, ap, List, [], ◌∷◌, ◌++◌, Option, none, some, ite, length, arith,
}
use gocc.Cache.Lru.Seg.{Cell}
use gocc.Cache.Lru.Spec.{Entry, find, without, drop_last}

module _ {K V : Type 0} where
  abbrev pub entry_of : Cell K V → Entry K V
  entry_of x = record { key = x.key; value = x.value; expiration = x.expiration }

  abbrev pub entries_of : List (Cell K V) → List (Entry K V)
  entries_of [] = []
  entries_of (x ∷ xs) = entry_of x ∷ entries_of xs

  pub entries-append :
      (xs ys : List (Cell K V)) → entries_of (xs ++ ys) ≡ entries_of xs ++ entries_of ys
  entries-append [] ys = refl
  entries-append (x ∷ xs) ys = ap (◌∷◌ (entry_of x)) (entries-append xs ys)

  pub drop_last-snoc :
      (xs : List (Cell K V)) (x : Cell K V) → drop_last (entries_of (xs ++ x ∷ [])) ≡ entries_of xs
  unfolding drop_last
  drop_last-snoc [] x = refl
  drop_last-snoc (y ∷ []) x = refl
  drop_last-snoc (y ∷ z ∷ xs) x = ap (◌∷◌ (entry_of y)) (drop_last-snoc (z ∷ xs) x)

  pub snoc-cases :
      (y : Cell K V) (ys : List (Cell K V))
      → (xs : List (Cell K V)) × (x : Cell K V) × (y ∷ ys ≡ xs ++ x ∷ [])
  snoc-cases y [] = ([], y, refl)
  snoc-cases y (z ∷ zs) = let (xs, x, e) = snoc-cases z zs in (y ∷ xs, x, ap (◌∷◌ y) e)

module _ {K V : Type 0} (dec : Discrete K) where
  unfoldable pub ptr_of : K → List (Cell K V) → Option ℕ
  ptr_of k [] = none
  ptr_of k (x ∷ xs) = ite (dec x.key k) (some x.ptr) (ptr_of k xs)

  -- No key stands twice.
  abbrev pub KeysApart : List (Cell K V) → Type 0
  KeysApart [] = Unit {0}
  KeysApart (x ∷ xs) = (ptr_of x.key xs ≡ none) × KeysApart xs

  -- The one cell with the key, and what stands before and behind it.
  pub record Split (k : K) (p : ℕ) (cells : List (Cell K V)) : Type 0 where
    pub front : List (Cell K V)
    pub here : Cell K V
    pub back : List (Cell K V)
    pub split : cells ≡ front ++ here ∷ back
    pub key_eq : here.key ≡ k
    pub ptr_eq : here.ptr ≡ p
    pub front_out : ptr_of k front ≡ none
    pub back_out : ptr_of k back ≡ none

  pub ptr_of-Split :
      (k : K) (p : ℕ) (cells : List (Cell K V))
      → KeysApart cells
      → ptr_of k cells ≡ some p
      → Split k p cells
  unfolding ptr_of
  ptr_of-Split k p [] d e = absurd (ground arith)
  ptr_of-Split k p (x ∷ xs) d e = elim (dec x.key k) [
    | yes same ↦ record {
      front = [];
      here = x;
      back = xs;
      split = refl;
      key_eq = same;
      ptr_eq = ground arith;
      front_out = refl;
      back_out = rw (← same) d.0;
    }
    | no other ↦
        let s = ptr_of-Split k p xs d.1 (ground arith) in
        record {
          front = x ∷ s.front;
          here = s.here;
          back = s.back;
          split = ap (◌∷◌ x) s.split;
          key_eq = s.key_eq;
          ptr_eq = s.ptr_eq;
          front_out = ground (arith, s.front_out);
          back_out = s.back_out;
        }
  ]

  module _ (k : K) (x : Cell K V) (same : x.key ≡ k) where
    pub ptr_of-remove :
        (j : K) (xs ys : List (Cell K V))
        → ptr_of k xs ≡ none
        → ptr_of k ys ≡ none
        → ptr_of j (xs ++ ys) ≡ ite (dec k j) none (ptr_of j (xs ++ x ∷ ys))
    unfolding ptr_of
    ptr_of-remove j [] ys out out' = ground (arith, same)
    ptr_of-remove j (y ∷ xs) ys out out' = ground (arith, ptr_of-remove j xs ys, same)

    pub ptr_of-front :
        (j : K) (xs ys : List (Cell K V))
        → ptr_of k xs ≡ none
        → ptr_of j (x ∷ (xs ++ ys)) ≡ ptr_of j (xs ++ x ∷ ys)
    unfolding ptr_of
    ptr_of-front j [] ys out = refl
    ptr_of-front j (y ∷ xs) ys out = ground (arith, ptr_of-front j xs ys, same)

    pub KeysApart-remove :
        (xs ys : List (Cell K V))
        → KeysApart (xs ++ x ∷ ys)
        → ptr_of k xs ≡ none
        → ptr_of k ys ≡ none
        → KeysApart (xs ++ ys)
    unfolding ptr_of
    KeysApart-remove [] ys d out out' = d.1
    KeysApart-remove (y ∷ xs) ys d out out' = (
      ground (arith, d.0, ptr_of-remove y.key xs ys),
      KeysApart-remove xs ys d.1 (ground arith) out',
    )

    pub find-here :
        (xs ys : List (Cell K V))
        → ptr_of k xs ≡ none
        → find dec k (entries_of (xs ++ x ∷ ys)) ≡ some (entry_of x)
    unfolding ptr_of find
    find-here [] ys out = ground (arith, same)
    find-here (y ∷ xs) ys out = ground (arith, find-here xs ys)

    pub without-here :
        (xs ys : List (Cell K V))
        → ptr_of k xs ≡ none
        → ptr_of k ys ≡ none
        → without dec k (entries_of (xs ++ x ∷ ys)) ≡ entries_of (xs ++ ys)
    unfolding ptr_of without
    without-here [] [] out out' = ground (arith, same)
    without-here [] (y ∷ ys) out out' = ground (arith, same, without-here [] ys)
    without-here (y ∷ xs) ys out out' = ground (arith, without-here xs ys)

  pub find-absent :
      (k : K) (xs : List (Cell K V)) → ptr_of k xs ≡ none → find dec k (entries_of xs) ≡ none
  unfolding ptr_of find
  find-absent k [] out = refl
  find-absent k (x ∷ xs) out = ground (arith, find-absent k xs)

pub length-entries : {K V : Type 0} (xs : List (Cell K V)) → length (entries_of xs) ≡ length xs
length-entries [] = refl
length-entries (x ∷ xs) = ap suc (length-entries xs)

pub length-middle :
    {K V : Type 0} (xs : List (Cell K V)) (x : Cell K V) (ys : List (Cell K V))
    → length (xs ++ x ∷ ys) ≡ suc (length (xs ++ ys))
length-middle [] x ys = refl
length-middle (y ∷ xs) x ys = ap suc (length-middle xs x ys)
