-- ===== src/Cache/Lru/Links.antt =====
-- The list operations of LRUCache on a well linked list: none dereferences nil, and each does to
-- the list what its name says.
use gocc.Prelude.{
  ℕ, ◌≡◌, ◌∙◌, refl, sym, true, false, List, [], ◌∷◌, ◌++◌, Option, none, some, arith, Bool-cases,
  inl, inr,
}
use gocc.Cache.Lru.{LruNode, LruCache, Heap, bypass_next, bypass_prev, remove_node}
use gocc.Cache.Lru.Seg.{
  Cell, node_of, first_or, last_or, has, Apart, Seg, Seg-append, Seg-split, Seg-frame, Apart-split,
  Apart-join, last-some, set_next-last, set_prev-first,
}

module _ {K V : Type 0} where
  pub record Linked (h : Heap K V) (head tail : Option ℕ) (xs : List (Cell K V)) : Type 0 where
    pub begins : head ≡ first_or none xs
    pub ends : tail ≡ last_or none xs
    pub seg : Seg h none xs none
    pub apart : Apart xs

  abbrev pub IsLinked : LruCache K V → List (Cell K V) → Type 0
  IsLinked c xs = Linked c.heap c.head c.tail xs

  bypass_next-lem :
      (c : LruCache K V) (xs : List (Cell K V)) (after after' : Option ℕ)
      → Seg c.heap none xs after
      → Apart xs
      → c.head ≡ first_or after xs
      → (g : Heap K V) × (hd : Option ℕ) × (bypass_next c (last_or none xs) after'
          ≡ some (record c { heap = g; head = hd }))
        × Seg g none xs after'
        × (hd ≡ first_or after' xs)
        × ((q : ℕ) → has q xs ≡ false → g q ≡ c.heap q)
  unfolding bypass_next
  bypass_next-lem c [] after after' s d e = (c.heap, after', refl, tt, refl, λ q out. refl)
  bypass_next-lem c (x ∷ xs) after after' s d e =
      let (p, last) = last-some x.ptr xs in
      let (g, done, seg, same) = set_next-last c.heap none after after' x xs p s d last in
      (g, c.head, rw (last, bypass_next, done), seg, e, same)

  bypass_prev-lem :
      (c : LruCache K V) (ys : List (Cell K V)) (before before' : Option ℕ)
      → Seg c.heap before ys none
      → Apart ys
      → c.tail ≡ last_or before ys
      → (g : Heap K V) × (tl : Option ℕ) × (bypass_prev c (first_or none ys) before'
          ≡ some (record c { heap = g; tail = tl }))
        × Seg g before' ys none
        × (tl ≡ last_or before' ys)
        × ((q : ℕ) → has q ys ≡ false → g q ≡ c.heap q)
  unfolding bypass_prev
  bypass_prev-lem c [] before before' s d e = (c.heap, before', refl, tt, refl, λ q out. refl)
  bypass_prev-lem c (y ∷ ys) before before' s d e =
      let (g, done, seg, same) = set_prev-first c.heap before before' none y ys s d in
      (g, c.tail, rw done, seg, e, same)

  first-append :
      (after : Option ℕ) (xs ys : List (Cell K V))
      → first_or after (xs ++ ys) ≡ first_or (first_or after ys) xs
  first-append after [] ys = refl
  first-append after (x ∷ xs) ys = refl

  pub last-append :
      (before : Option ℕ) (xs ys : List (Cell K V))
      → last_or before (xs ++ ys) ≡ last_or (last_or before xs) ys
  last-append before [] ys = refl
  last-append before (x ∷ xs) ys = last-append (some x.ptr) xs ys

  remove_steps :
      (c c' : LruCache K V) (r : Option (LruCache K V)) (p : ℕ) (n : LruNode K V)
      → c.heap p ≡ some n
      → bypass_next c n.prev n.next ≡ some c'
      → c'.heap p ≡ some n
      → bypass_prev c' n.next n.prev ≡ r
      → remove_node c p ≡ r
  unfolding remove_node
  remove_steps c c' r p n e f g h = rw (e, f, g) h

  -- What removeNode returns: the node leaves the list, and keeps its own fields.
  abbrev pub Removes : LruCache K V → List (Cell K V) → Cell K V → List (Cell K V) → Type 0
  Removes c xs x ys =
      (g : Heap K V) × (hd : Option ℕ) × (tl : Option ℕ) × (remove_node c x.ptr
        ≡ some (record c { heap = g; head = hd; tail = tl }))
      × Linked g hd tl (xs ++ ys)
      × (g x.ptr ≡ some (node_of x (last_or none xs) (first_or none ys)))

  pub remove_node-Linked :
      (c : LruCache K V) (xs : List (Cell K V)) (x : Cell K V) (ys : List (Cell K V))
      → IsLinked c (xs ++ x ∷ ys)
      → Removes c xs x ys
  remove_node-Linked c xs x ys v =
      let (segl, segr) = Seg-split c.heap none none xs (x ∷ ys) v.seg in
      let (al, ar, out) = Apart-split xs (x ∷ ys) v.apart in
      let (g, hd, done, seg, hdeq, same) =
        bypass_next-lem c xs (some x.ptr) (first_or none ys) segl al
          (v.begins ∙ first-append none xs (x ∷ ys)) in
      let c' : LruCache K V = record c { heap = g; head = hd } in
      let x_out : has x.ptr xs ≡ false = out x.ptr (ground arith) in
      let (g', tl, done', seg', tleq, same') =
        bypass_prev-lem c' ys (some x.ptr) (last_or none xs)
          (Seg-frame c.heap g (some x.ptr) none ys (λ q m. same q (out q (ground arith))) segr.1)
          ar.1 (v.ends ∙ last-append none xs (x ∷ ys)) in
      (
        g',
        hd,
        tl,
        remove_steps c c' _ x.ptr (node_of x (last_or none xs) (first_or none ys)) segr.0 done
            (same x.ptr x_out ∙ segr.0) done',
        record {
          begins = hdeq ∙ sym (first-append none xs ys);
          ends = tleq ∙ sym (last-append none xs ys);
          seg =
              Seg-append g' none none xs ys
                (Seg-frame g g' none (first_or none ys) xs (λ q m. same' q (not-has q m out)) seg)
                seg';
          apart = Apart-join xs ys al ar.1 (λ q m. out q (ground arith));
        },
        same' x.ptr ar.0 ∙ same x.ptr x_out ∙ segr.0,
      )
    where
      not-has :
          (q : ℕ)
          → has q xs ≡ true
          → ((r : ℕ) → has r (x ∷ ys) ≡ true → has r xs ≡ false)
          → has q ys ≡ false
      not-has q m out = elim (Bool-cases (has q ys)) [
        | inl inside ↦ absurd (ground (arith, out q))
        | inr outside ↦ outside
      ]
