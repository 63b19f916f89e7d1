-- ===== src/Cache/Lru/Refines/Evict.antt =====
-- evictLRU implements its contract: the least recently used entry leaves.
use gocc.Prelude.{
  ℕ, ◌+◌, ◌≤◌, ◌<◌, ◌≡◌, ◌≢◌, ◌∙◌, refl, sym, ap, List, [], ◌∷◌, ◌++◌, none, some, length, arith,
  subst, append-nil,
}
use gocc.Prelude.Dict.{lookup, delete, lookup-delete}
use gocc.Cache.Lru.{LruNode, LruCache, remove_node, evict_at, evict_lru}
use gocc.Cache.Lru.Seg.{Cell}
use gocc.Cache.Lru.Links.{last-append, remove_node-Linked}
use gocc.Cache.Lru.Table.{entries_of, ptr_of, KeysApart, length-middle, snoc-cases, drop_last-snoc}
use gocc.Cache.Lru.Rep.{Rep, Rep-remove}
use gocc.Cache.Lru.Spec.{LruSpec, drop_last}
use gocc.Cache.Lru.Refines.{Refines, Linked-node}

module _ {K V : Type 0} (dec : Discrete K) where
  -- The last cell is the one that evictLRU takes.
  record Last (c : LruCache K V) (s : LruSpec K V) : Type 0 where
    front : List (Cell K V)
    here : Cell K V
    rep : Rep dec c.table c.heap c.fresh c.head c.tail (front ++ here ∷ [])
    size : length (front ++ here ∷ []) ≤ c.capacity
    entries : s.entries ≡ entries_of (front ++ here ∷ [])

  last_of :
      (c : LruCache K V) (s : LruSpec K V) (cells : List (Cell K V))
      → (r : Refines dec c s) → r.cells ≡ cells
      → 0 < length cells
      → Last c s
  last_of c s [] r e h = elim h [ ]
  last_of c s (x ∷ xs) r e h =
      let (ys, y, split) = snoc-cases x xs in
      let whole = e ∙ split in
      record {
        front = ys;
        here = y;
        rep = subst (Rep dec c.table c.heap c.fresh c.head c.tail) whole r.rep;
        size = subst (λ l. length l ≤ c.capacity) whole r.bounded;
        entries = r.entries_eq ∙ ap entries_of whole;
      }

  last_ne :
      (k : K) (xs : List (Cell K V)) (y : Cell K V) → ptr_of dec k (xs ++ y ∷ []) ≡ none → y.key ≢ k
  unfolding ptr_of
  last_ne k [] y e = ground arith
  last_ne k (x ∷ xs) y e = ground (arith, last_ne k xs y)

  last_out :
      (xs : List (Cell K V)) (y : Cell K V)
      → KeysApart dec (xs ++ y ∷ [])
      → ptr_of dec y.key xs ≡ none
  unfolding ptr_of
  last_out [] y d = refl
  last_out (x ∷ xs) y d = ground (arith, last_out xs y d.1, last_ne x.key xs y d.0)

  evict_steps :
      (c c' : LruCache K V) (t : ℕ) (n : LruNode K V)
      → c.tail ≡ some t
      → c.heap t ≡ some n
      → remove_node (record c { table = delete dec n.key c.table }) t ≡ some c'
      → evict_lru dec c ≡ some (record c' { evicts = c'.evicts + 1 })
  unfolding evict_lru
  evict_steps c c' t n e f g = rw (e, evict_at, f, g)

  -- evictLRU on a cache that is not empty drops the least recently used entry.
  pub evict_lru-Reaches :
      (c : LruCache K V) (s : LruSpec K V) (k : K)
      → Refines dec c s
      → 0 < length c.table
      → lookup dec k c.table ≡ none
      → (c' : LruCache K V) × (evict_lru dec c ≡ some c')
        × Refines dec c' (record s { entries = drop_last s.entries; evicts = s.evicts + 1 })
        × (lookup dec k c'.table ≡ none)
        × (length c'.table + 1 ≤ c'.capacity)
  evict_lru-Reaches c s k r full absent =
      let l = last_of c s r.cells r refl (omega (arith, r.rep.sized)) in
      let out = last_out l.front l.here l.rep.keys_apart in
      let c₁ : LruCache K V = record c { table = delete dec l.here.key c.table } in
      let (g, hd, tl, done, linked, node) = remove_node-Linked c₁ l.front l.here [] l.rep.linked in
      let rep' =
        Rep-remove dec l.here.key l.here refl l.front [] out (unfold ptr_of in refl) c.table c.heap
          g c.fresh c.head c.tail hd tl l.rep linked in
      (
        record c₁ { heap = g; head = hd; tail = tl; evicts = c.evicts + 1 },
        evict_steps c (record c₁ { heap = g; head = hd; tail = tl }) l.here.ptr _
            (l.rep.linked.ends ∙ last-append none l.front (l.here ∷ []))
            (Linked-node c.heap c.head c.tail l.front l.here [] l.rep.linked) done,
        record {
          cells = l.front ++ [];
          rep = rep';
          positive = r.positive;
          bounded = omega (arith, l.size, length-middle l.front l.here []);
          capacity_eq = r.capacity_eq;
          entries_eq =
              ap drop_last l.entries
              ∙ drop_last-snoc l.front l.here
              ∙ ap entries_of (sym (append-nil l.front));
          hits_eq = r.hits_eq;
          misses_eq = r.misses_eq;
          evicts_eq = ap (λ i. i + 1) r.evicts_eq;
        },
        ground (arith, lookup-delete dec l.here.key k c.table, absent),
        omega (arith, rep'.sized, l.size, length-middle l.front l.here []),
      )
