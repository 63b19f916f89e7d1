-- ===== src/Cache/Lru/Refines.antt =====
-- LRUCache with its pointers implements the list of its contract: no operation dereferences nil,
-- and each takes the representation of a list to that of the list that the contract gives.
pub mod Reads
pub mod Evict
pub mod Writes
use gocc.Prelude.{
  ℕ, suc, ◌+◌, ◌≤◌, ◌<◌, ◌≡◌, ◌∙◌, ◌⊎◌, inl, inr, refl, sym, ap, List, [], ◌∷◌, ◌++◌, Option, none,
  some, ite, length, arith, Bool, true, false, ◌==◌, ◌||◌, subst, Option-cases, if◌then◌else◌,
}
use gocc.Prelude.Int.{ℤ, pos_part, is_pos}
use gocc.Prelude.Dict.{Dict, lookup}
use gocc.Cache.Lru.{LruNode, LruCache, Heap, new_lru}
use gocc.Cache.Lru.Seg.{Cell, node_of, first_or, last_or, has, Seg, Seg-split}
use gocc.Cache.Lru.Links.{Linked}
use gocc.Cache.Lru.Table.{
  entry_of, entries_of, ptr_of, KeysApart, Split, ptr_of-Split, find-here, find-absent,
  without-here,
}
use gocc.Cache.Lru.Rep.{Rep}
use gocc.Cache.Lru.Spec.{Entry, LruSpec, find, without, spec_new}

module _ {K V : Type 0} where
  pub Linked-node :
      (h : Heap K V) (hd tl : Option ℕ) (xs : List (Cell K V)) (x : Cell K V) (ys : List (Cell K V))
      → Linked h hd tl (xs ++ x ∷ ys)
      → h x.ptr ≡ some (node_of x (last_or none xs) (first_or none ys))
  Linked-node h hd tl xs x ys l = (Seg-split h none none xs (x ∷ ys) l.seg).1.0

module _ {K V : Type 0} (dec : Discrete K) where
  pub record Refines (c : LruCache K V) (s : LruSpec K V) : Type 0 where
    pub cells : List (Cell K V)
    pub rep : Rep dec c.table c.heap c.fresh c.head c.tail cells
    pub positive : 0 < c.capacity
    pub bounded : length cells ≤ c.capacity
    pub capacity_eq : s.capacity ≡ c.capacity
    pub entries_eq : s.entries ≡ entries_of cells
    pub hits_eq : s.hits ≡ c.hits
    pub misses_eq : s.misses ≡ c.misses
    pub evicts_eq : s.evicts ≡ c.evicts

  -- The run of an operation gives a result, and it is the contract's.
  abbrev pub Implements : {A : Type 0} → Option (LruCache K V × A) → LruSpec K V × A → Type 0
  Implements r t = (c : LruCache K V) × (r ≡ some (c, t.1)) × Refines c t.0

  -- Where a key is that the map holds.
  pub record Found (c : LruCache K V) (s : LruSpec K V) (k : K) : Type 0 where
    pub front : List (Cell K V)
    pub here : Cell K V
    pub back : List (Cell K V)
    pub key_eq : here.key ≡ k
    pub front_out : ptr_of dec k front ≡ none
    pub back_out : ptr_of dec k back ≡ none
    pub rep : Rep dec c.table c.heap c.fresh c.head c.tail (front ++ here ∷ back)
    pub bounded : length (front ++ here ∷ back) ≤ c.capacity
    pub at : lookup dec k c.table ≡ some here.ptr
    pub node : c.heap here.ptr ≡ some (node_of here (last_or none front) (first_or none back))
    pub found : find dec k s.entries ≡ some (entry_of here)
    pub rest : without dec k s.entries ≡ entries_of (front ++ back)

  pub lookup_cases :
      (c : LruCache K V) (s : LruSpec K V) (k : K)
      → Refines c s
      → ((lookup dec k c.table ≡ none) × (find dec k s.entries ≡ none)) ⊎ Found c s k
  lookup_cases c s k r = elim (Option-cases (lookup dec k c.table)) [
    | inl e ↦
        inl
          (e, ap (find dec k) r.entries_eq ∙ find-absent dec k r.cells (sym (r.rep.indexed k) ∙ e))
    | inr (p, e) ↦
        let f = ptr_of-Split dec k p r.cells r.rep.keys_apart (sym (r.rep.indexed k) ∙ e) in
        let rep' = subst (Rep dec c.table c.heap c.fresh c.head c.tail) f.split r.rep in
        inr (record {
          front = f.front;
          here = f.here;
          back = f.back;
          key_eq = f.key_eq;
          front_out = f.front_out;
          back_out = f.back_out;
          rep = rep';
          bounded = subst (λ l. length l ≤ c.capacity) f.split r.bounded;
          at = e ∙ ap some (sym f.ptr_eq);
          node = Linked-node c.heap c.head c.tail f.front f.here f.back rep'.linked;
          found =
              ap (find dec k) (r.entries_eq ∙ ap entries_of f.split)
              ∙ find-here dec k f.here f.key_eq f.front f.back f.front_out;
          rest =
              ap (without dec k) (r.entries_eq ∙ ap entries_of f.split)
              ∙ without-here dec k f.here f.key_eq f.front f.back f.front_out f.back_out;
        })
  ]

  pub new_lru-Refines : (capacity : ℤ) → Refines (new_lru capacity) (spec_new capacity)
  unfolding new_lru spec_new ptr_of lookup
  new_lru-Refines capacity = record {
    cells = [];
    rep = record {
      linked = record { begins = refl; ends = refl; seg = tt; apart = tt };
      indexed = λ k. refl;
      distinct = tt;
      sized = refl;
      keys_apart = tt;
      below = tt;
    };
    positive = ground arith;
    bounded = omega arith;
    capacity_eq = refl;
    entries_eq = refl;
    hits_eq = refl;
    misses_eq = refl;
    evicts_eq = refl;
  }
