-- ===== src/Cache/Lru/Refines/Writes.antt =====
-- SetWithTTL, with the eviction that it may need, implements its contract.
use gocc.Prelude.{
  ℕ, suc, ◌+◌, ◌≤◌, ◌≡◌, ◌∙◌, inl, inr, refl, sym, ap, List, [], ◌∷◌, ◌++◌, Option, none, some,
  length, arith, Bool-cases, leb, tests,
}
use gocc.Prelude.Int.{ℤ}
use gocc.Prelude.Dict.{lookup, insert}
use gocc.Cache.Lru.{
  LruNode, LruCache, Heap, write, move_to_front, insert_new, set_at, set_with_ttl, expiration_of,
}
use gocc.Cache.Lru.Seg.{
  Cell, node_of, first_or, last_or, Seg-split, Seg-append, Seg-write, Apart-split, Apart-join,
}
use gocc.Cache.Lru.Links.{Linked}
use gocc.Cache.Lru.Front.{move_to_front-Linked, add_to_front-Linked}
use gocc.Cache.Lru.Table.{entry_of, length-middle, length-entries}
use gocc.Cache.Lru.Rep.{Rep-move, Rep-add, has-Below}
use gocc.Cache.Lru.Spec.{LruSpec, find, spec_set}
use gocc.Cache.Lru.Refines.Evict.{evict_lru-Reaches}
use gocc.Cache.Lru.Refines.{Refines, Found, lookup_cases}

module _ {K V : Type 0} where
  -- A node's value and expiration change where it stands.
  revalue :
      (h : Heap K V) (hd tl : Option ℕ) (xs : List (Cell K V)) (x : Cell K V) (ys : List (Cell K V))
      (v : V) (t : ℕ)
      → Linked h hd tl (xs ++ x ∷ ys)
      → let x' : Cell K V = record x { value = v; expiration = t } in
        Linked
          (write h x.ptr (node_of x' (last_or none xs) (first_or none ys)))
          hd
          tl
          (xs ++ x' ∷ ys)
  revalue h hd tl xs x ys v t l =
      let x' : Cell K V = record x { value = v; expiration = t } in
      let n = node_of x' (last_or none xs) (first_or none ys) in
      let (segl, segr) = Seg-split h none none xs (x ∷ ys) l.seg in
      let (al, ar, out) = Apart-split xs (x ∷ ys) l.apart in
      record {
        begins = l.begins ∙ first-same xs;
        ends = l.ends ∙ last-same none xs;
        seg =
            Seg-append (write h x.ptr n) none none xs (x' ∷ ys)
              (Seg-write h x.ptr n none (some x.ptr) xs (out x.ptr (ground arith)) segl)
              (unfold write in ground arith, Seg-write h x.ptr n (some x.ptr) none ys ar.0 segr.1);
        apart = Apart-join xs (x' ∷ ys) al ar out;
      }
    where
      first-same :
          (zs : List (Cell K V))
          → first_or none (zs ++ x ∷ ys)
            ≡ first_or none (zs ++ record x { value = v; expiration = t } ∷ ys)
      first-same [] = refl
      first-same (z ∷ zs) = refl

      last-same :
          (b : Option ℕ) (zs : List (Cell K V))
          → last_or b (zs ++ x ∷ ys) ≡ last_or b (zs ++ record x { value = v; expiration = t } ∷ ys)
      last-same b [] = refl
      last-same b (z ∷ zs) = last-same (some z.ptr) zs

module _ {K V : Type 0} (dec : Discrete K) where
  -- A write gives a state, and it is the contract's.
  abbrev pub Reaches : Option (LruCache K V) → LruSpec K V → Type 0
  Reaches r t = (c : LruCache K V) × (r ≡ some c) × Refines dec c t

  -- A node for a new key, in a cache that has room.
  insert_new-Reaches :
      (c : LruCache K V) (s : LruSpec K V) (k : K) (v : V) (t : ℕ)
      → Refines dec c s
      → lookup dec k c.table ≡ none
      → length c.table + 1 ≤ c.capacity
      → Reaches
          (insert_new dec c k v t)
          (record s { entries = record { key = k; value = v; expiration = t } ∷ s.entries })
  unfolding insert_new
  insert_new-Reaches c s k v t r absent room =
      let x : Cell K V = record { ptr = c.fresh; key = k; value = v; expiration = t } in
      let n = node_of x none none in
      let out = has-Below c.fresh r.cells r.rep.below in
      let c₁ : LruCache K V = record c {
        heap = write c.heap c.fresh n;
        table = insert dec k c.fresh c.table;
        fresh = suc c.fresh;
      } in
      let l = r.rep.linked in
      let (g, tl, done, linked) =
        add_to_front-Linked c₁ x r.cells none none
          (record {
            begins = l.begins;
            ends = l.ends;
            seg = Seg-write c.heap c.fresh n none none r.cells out l.seg;
            apart = l.apart;
          })
          out (unfold write in ground arith) in
      (
        record c₁ { heap = g; head = some c.fresh; tail = tl },
        done,
        record {
          cells = x ∷ r.cells;
          rep =
              Rep-add dec k x r.cells c.table c.heap g c.fresh c.head c.tail (some c.fresh) tl refl
                refl absent r.rep linked;
          positive = r.positive;
          bounded = omega (arith, r.rep.sized);
          capacity_eq = r.capacity_eq;
          entries_eq = ap (◌∷◌ (entry_of x)) r.entries_eq;
          hits_eq = r.hits_eq;
          misses_eq = r.misses_eq;
          evicts_eq = r.evicts_eq;
        },
      )

  set_held_steps :
      (c : LruCache K V) (r : Option (LruCache K V)) (k : K) (v : V) (t p : ℕ) (n : LruNode K V)
      → c.heap p ≡ some n
      → move_to_front
          (record c { heap = write c.heap p (record n { value = v; expiration = t }) })
          p
        ≡ r
      → set_at dec c k v t (some p) ≡ r
  unfolding set_at
  set_held_steps c r k v t p n e f = rw e f

  module _ (c : LruCache K V) (s : LruSpec K V) (r : Refines dec c s) (k : K) (v : V) (t : ℕ) where
    set_held :
        (f : Found dec c s k)
        → Reaches (set_at dec c k v t (some f.here.ptr)) (spec_set dec s k v t)
    unfolding spec_set
    set_held f =
        let x' : Cell K V = record (f.here) { value = v; expiration = t } in
        let n = node_of x' (last_or none f.front) (first_or none f.back) in
        let c₁ : LruCache K V = record c { heap = write c.heap f.here.ptr n } in
        let (g, hd, tl, done, linked) =
          move_to_front-Linked c₁ f.front x' f.back
            (revalue c.heap c.head c.tail f.front f.here f.back v t f.rep.linked) in
        rw (f.found, spec_set)
          (
            record c₁ { heap = g; head = hd; tail = tl },
            set_held_steps c _ k v t f.here.ptr _ f.node done,
            record {
              cells = x' ∷ (f.front ++ f.back);
              rep =
                  Rep-move dec k f.here f.key_eq f.front f.back f.front_out f.back_out v t c.table
                    c.heap g c.fresh c.head c.tail hd tl f.rep linked;
              positive = r.positive;
              bounded = omega (arith, f.bounded, length-middle f.front f.here f.back);
              capacity_eq = r.capacity_eq;
              entries_eq = ground (arith, f.key_eq, f.rest);
              hits_eq = r.hits_eq;
              misses_eq = r.misses_eq;
              evicts_eq = r.evicts_eq;
            },
          )

    entries-table : length s.entries ≡ length c.table
    entries-table = ap length r.entries_eq ∙ length-entries r.cells ∙ sym r.rep.sized

    full_eq : leb s.capacity (length s.entries) ≡ leb c.capacity (length c.table)
    full_eq = ground (arith, r.capacity_eq, entries-table)

    set_new :
        lookup dec k c.table ≡ none
        → find dec k s.entries ≡ none
        → Reaches (set_at dec c k v t none) (spec_set dec s k v t)
    unfolding set_at spec_set
    set_new absent unknown = elim (Bool-cases (leb c.capacity (length c.table))) [
      | inl full ↦
          let (c', done, kept, gone, room) =
            evict_lru-Reaches dec c s k r (omega (tests, r.positive)) absent in
          rw (unknown, spec_set, full_eq, full, done) (insert_new-Reaches c' _ k v t kept gone room)
      | inr room ↦
          rw (unknown, spec_set, full_eq, room)
            (insert_new-Reaches c s k v t r absent (ground arith))
    ]

    pub set_at-Reaches : Reaches (set_at dec c k v t (lookup dec k c.table)) (spec_set dec s k v t)
    set_at-Reaches = elim (lookup_cases dec c s k r) [
      | inl (absent, unknown) ↦ rw absent (set_new absent unknown)
      | inr f ↦ rw (f.at) (set_held f)
    ]

  pub set_with_ttl-Reaches :
      (c : LruCache K V) (s : LruSpec K V) (now : ℕ) (k : K) (v : V) (ttl : ℤ)
      → Refines dec c s
      → Reaches (set_with_ttl dec c now k v ttl) (spec_set dec s k v (expiration_of now ttl))
  unfolding set_with_ttl
  set_with_ttl-Reaches c s now k v ttl r = set_at-Reaches c s r k v (expiration_of now ttl)
