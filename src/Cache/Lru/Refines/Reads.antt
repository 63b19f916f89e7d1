-- ===== src/Cache/Lru/Refines/Reads.antt =====
-- Get and Delete implement their contract.
use gocc.Prelude.{
  ℕ, ◌+◌, ◌≡◌, inl, inr, refl, ap, [], ◌∷◌, ◌++◌, none, some, arith, true, false, Bool-cases,
}
use gocc.Prelude.Dict.{delete}
use gocc.Cache.Lru.{
  LruNode, LruCache, has_expired, remove_node, move_to_front, get_at, get, delete_at, delete_key,
}
use gocc.Cache.Lru.Links.{remove_node-Linked}
use gocc.Cache.Lru.Front.{move_to_front-Linked}
use gocc.Cache.Lru.Table.{entry_of, length-middle}
use gocc.Cache.Lru.Rep.{Rep-remove, Rep-move}
use gocc.Cache.Lru.Spec.{LruSpec, without, spec_get, spec_delete}
use gocc.Cache.Lru.Refines.{Refines, Implements, Found, lookup_cases, Linked-node}

module _ {K V : Type 0} (dec : Discrete K) where
  get_expired :
      (c c' : LruCache K V) (now : ℕ) (k : K) (p : ℕ) (n : LruNode K V)
      → c.heap p ≡ some n
      → has_expired n.expiration now ≡ true
      → remove_node c p ≡ some c'
      → get_at dec c now k (some p)
        ≡ some (record c' { table = delete dec k c'.table; misses = c'.misses + 1 }, none)
  unfolding get_at
  get_expired c c' now k p n e h f = rw (e, h, f)

  get_hit :
      (c c' : LruCache K V) (now : ℕ) (k : K) (p : ℕ) (n n' : LruNode K V)
      → c.heap p ≡ some n
      → has_expired n.expiration now ≡ false
      → move_to_front c p ≡ some c'
      → c'.heap p ≡ some n'
      → get_at dec c now k (some p) ≡ some (record c' { hits = c'.hits + 1 }, some n'.value)
  unfolding get_at
  get_hit c c' now k p n n' e h f g = rw (e, h, f, g)

  module _ (c : LruCache K V) (s : LruSpec K V) (r : Refines dec c s) (k : K) where
    -- The state after the key's entry is taken out.
    removed :
        (f : Found dec c s k)
        → (c' : LruCache K V) × (remove_node c f.here.ptr ≡ some c')
          × ((m : ℕ)
              → Refines dec
                  (record c' { table = delete dec k c'.table; misses = c'.misses + m })
                  (record s { entries = without dec k s.entries; misses = s.misses + m }))
    removed f =
        let (g, hd, tl, done, linked, node) =
          remove_node-Linked c f.front f.here f.back f.rep.linked in
        (
          record c { heap = g; head = hd; tail = tl },
          done,
          λ m. record {
            cells = f.front ++ f.back;
            rep =
                Rep-remove dec k f.here f.key_eq f.front f.back f.front_out f.back_out c.table
                  c.heap g c.fresh c.head c.tail hd tl f.rep linked;
            positive = r.positive;
            bounded = omega (arith, f.bounded, length-middle f.front f.here f.back);
            capacity_eq = r.capacity_eq;
            entries_eq = f.rest;
            hits_eq = r.hits_eq;
            misses_eq = ap (λ i. i + m) r.misses_eq;
            evicts_eq = r.evicts_eq;
          },
        )

    get_held :
        (now : ℕ) (f : Found dec c s k)
        → Implements dec (get_at dec c now k (some f.here.ptr)) (spec_get dec s now k)
    unfolding spec_get
    get_held now f = elim (Bool-cases (has_expired f.here.expiration now)) [
      | inl old ↦
          let (c', done, kept) = removed f in
          rw (f.found, spec_get, old)
            (
              record c' { table = delete dec k c'.table; misses = c'.misses + 1 },
              get_expired c c' now k f.here.ptr _ f.node old done,
              kept 1,
            )
      | inr live ↦
          let (g, hd, tl, done, linked) =
            move_to_front-Linked c f.front f.here f.back f.rep.linked in
          let c' : LruCache K V = record c { heap = g; head = hd; tail = tl } in
          rw (f.found, spec_get, live)
            (
              record c' { hits = c'.hits + 1 },
              get_hit c c' now k f.here.ptr _ _ f.node live done
                  (Linked-node g hd tl [] f.here (f.front ++ f.back) linked),
              record {
                cells = f.here ∷ (f.front ++ f.back);
                rep =
                    Rep-move dec k f.here f.key_eq f.front f.back f.front_out f.back_out
                      f.here.value f.here.expiration c.table c.heap g c.fresh c.head c.tail hd tl
                      f.rep linked;
                positive = r.positive;
                bounded = omega (arith, f.bounded, length-middle f.front f.here f.back);
                capacity_eq = r.capacity_eq;
                entries_eq = ap (◌∷◌ (entry_of f.here)) f.rest;
                hits_eq = ap (λ i. i + 1) r.hits_eq;
                misses_eq = r.misses_eq;
                evicts_eq = r.evicts_eq;
              },
            )
    ]

    pub get-Implements : (now : ℕ) → Implements dec (get dec c now k) (spec_get dec s now k)
    unfolding get spec_get
    get-Implements now = elim (lookup_cases dec c s k r) [
      | inl (absent, unknown) ↦
          rw (absent, unknown, spec_get)
            (
              record c { misses = c.misses + 1 },
              unfold get_at in refl,
              record {
                cells = r.cells;
                rep = r.rep;
                positive = r.positive;
                bounded = r.bounded;
                capacity_eq = r.capacity_eq;
                entries_eq = r.entries_eq;
                hits_eq = r.hits_eq;
                misses_eq = ap (λ i. i + 1) r.misses_eq;
                evicts_eq = r.evicts_eq;
              },
            )
      | inr f ↦ rw (f.at) (get_held now f)
    ]

    delete_held :
        (f : Found dec c s k)
        → Implements dec (delete_at dec c k (some f.here.ptr)) (spec_delete dec s k)
    unfolding spec_delete delete_at
    delete_held f =
        let (c', done, kept) = removed f in
        rw (f.found, spec_delete)
          (
            record c' { table = delete dec k c'.table },
            rw done,
            let v = kept 0 in
                record {
                  cells = v.cells;
                  rep = v.rep;
                  positive = v.positive;
                  bounded = v.bounded;
                  capacity_eq = v.capacity_eq;
                  entries_eq = v.entries_eq;
                  hits_eq = v.hits_eq;
                  misses_eq = omega (arith, v.misses_eq);
                  evicts_eq = v.evicts_eq;
                },
          )

    pub delete_key-Implements : Implements dec (delete_key dec c k) (spec_delete dec s k)
    unfolding delete_key spec_delete
    delete_key-Implements = elim (lookup_cases dec c s k r) [
      | inl (absent, unknown) ↦ rw (absent, unknown, spec_delete) (c, unfold delete_at in refl, r)
      | inr f ↦ rw (f.at) (delete_held f)
    ]
