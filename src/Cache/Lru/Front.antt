-- ===== src/Cache/Lru/Front.antt =====
-- addToFront and moveToFront of LRUCache on a well linked list.
use gocc.Prelude.{
  ℕ, ◌≡◌, ◌∙◌, refl, ap, ap₂, true, false, ◌||◌, List, [], ◌∷◌, ◌++◌, Option, none, some, arith,
}
use gocc.Cache.Lru.{
  LruCache, Heap, set_next, set_prev, set_prev_of, or_some, add_to_front, remove_node, is_head,
  move_to_front,
}
use gocc.Cache.Lru.Seg.{
  Cell, node_of, first_or, last_or, has, Apart, Seg, has-append, Seg-frame, set_next-last,
  set_prev-first, Apart-split,
}
use gocc.Cache.Lru.Links.{Linked, IsLinked, remove_node-Linked}

module _ {K V : Type 0} where
  add_steps :
      (c : LruCache K V) (p : ℕ) (h₁ h₂ h₃ : Heap K V)
      → set_prev p none c.heap ≡ some h₁
      → set_next p c.head h₁ ≡ some h₂
      → set_prev_of c.head (some p) h₂ ≡ some h₃
      → add_to_front c p ≡ some (record c { heap = h₃; head = some p; tail = or_some c.tail p })
  unfolding add_to_front
  add_steps c p h₁ h₂ h₃ e f g = rw (e, f, g) refl

  -- What addToFront returns: the node of `x` is the list's first.
  abbrev pub Adds : LruCache K V → Cell K V → List (Cell K V) → Type 0
  Adds c x xs =
      (g : Heap K V) × (tl : Option ℕ) × (add_to_front c x.ptr
        ≡ some (record c { heap = g; head = some x.ptr; tail = tl }))
      × Linked g (some x.ptr) tl (x ∷ xs)

  or_some-last : (p : ℕ) (xs : List (Cell K V)) → or_some (last_or none xs) p ≡ last_or (some p) xs
  or_some-last p [] = refl
  or_some-last p (x ∷ []) = refl
  or_some-last p (x ∷ y ∷ xs) = or_some-last p (y ∷ xs)

  -- `if c.head != nil { c.head.prev = node }` on the linked list.
  set_prev_of-Seg :
      (h : Heap K V) (hd before : Option ℕ) (xs : List (Cell K V))
      → hd ≡ first_or none xs
      → Seg h none xs none
      → Apart xs
      → (g : Heap K V) × (set_prev_of hd before h ≡ some g)
        × Seg g before xs none
        × ((q : ℕ) → has q xs ≡ false → g q ≡ h q)
  unfolding set_prev_of
  set_prev_of-Seg h hd before [] e s d = (h, rw (e, set_prev_of), tt, λ q out. refl)
  set_prev_of-Seg h hd before (x ∷ xs) e s d =
      let (g, done, seg, same) = set_prev-first h none before none x xs s d in
      (g, rw (e, set_prev_of) done, seg, same)

  pub add_to_front-Linked :
      (c : LruCache K V) (x : Cell K V) (xs : List (Cell K V)) (before after : Option ℕ)
      → IsLinked c xs
      → has x.ptr xs ≡ false
      → c.heap x.ptr ≡ some (node_of x before after)
      → Adds c x xs
  add_to_front-Linked c x xs before after v out e =
      let (h₁, done₁, seg₁, same₁) =
        set_prev-first c.heap before none after x [] (e, tt) (refl, tt) in
      let (h₂, done₂, seg₂, same₂) =
        set_next-last h₁ none after c.head x [] x.ptr seg₁ (refl, tt) refl in
      let (h₃, done₃, seg₃, same₃) =
        set_prev_of-Seg h₂ c.head (some x.ptr) xs v.begins
          (Seg-frame c.heap h₂ none none xs (λ q m. same₂ q (other q m) ∙ same₁ q (other q m))
            v.seg)
          v.apart in
      (
        h₃,
        or_some c.tail x.ptr,
        add_steps c x.ptr h₁ h₂ h₃ done₁ done₂ done₃,
        record {
          begins = refl;
          ends = ap (λ t. or_some t x.ptr) v.ends ∙ or_some-last x.ptr xs;
          seg = (same₃ x.ptr out ∙ seg₂.0 ∙ ap (λ a. some (node_of x none a)) v.begins, seg₃);
          apart = (out, v.apart);
        },
      )
    where
      other : (q : ℕ) → has q xs ≡ true → has q (x ∷ []) ≡ false
      other q m = ground (arith, out)

  move_steps :
      (c c' : LruCache K V) (r : Option (LruCache K V)) (p : ℕ)
      → is_head c.head p ≡ false
      → remove_node c p ≡ some c'
      → add_to_front c' p ≡ r
      → move_to_front c p ≡ r
  unfolding move_to_front
  move_steps c c' r p h e f = rw (h, e) f

  -- What moveToFront returns: the node is the list's first, the others keep their order.
  abbrev pub Moves : LruCache K V → List (Cell K V) → Cell K V → List (Cell K V) → Type 0
  Moves c xs x ys =
      (g : Heap K V) × (hd tl : Option ℕ) × (move_to_front c x.ptr
        ≡ some (record c { heap = g; head = hd; tail = tl }))
      × Linked g hd tl (x ∷ (xs ++ ys))

  moved_here :
      (c : LruCache K V) (x : Cell K V) (ys : List (Cell K V))
      → IsLinked c (x ∷ ys)
      → Moves c [] x ys
  unfolding move_to_front
  moved_here c x ys v = (c.heap, c.head, c.tail, ground (arith, v.begins), v)

  pub move_to_front-Linked :
      (c : LruCache K V) (xs : List (Cell K V)) (x : Cell K V) (ys : List (Cell K V))
      → IsLinked c (xs ++ x ∷ ys)
      → Moves c xs x ys
  move_to_front-Linked c [] x ys v = moved_here c x ys v
  move_to_front-Linked c (w ∷ xs) x ys v =
      let (g, hd, tl, done, linked, node) = remove_node-Linked c (w ∷ xs) x ys v in
      let c' : LruCache K V = record c { heap = g; head = hd; tail = tl } in
      let (al, ar, out) = Apart-split (w ∷ xs) (x ∷ ys) v.apart in
      let absent : has x.ptr ((w ∷ xs) ++ ys) ≡ false =
        has-append x.ptr (w ∷ xs) ys ∙ ap₂ ◌||◌ (out x.ptr (ground arith)) ar.0 in
      let (g', tl', done', linked') =
        add_to_front-Linked c' x ((w ∷ xs) ++ ys) (last_or none (w ∷ xs)) (first_or none ys) linked
          absent node in
      (
        g',
        some x.ptr,
        tl',
        move_steps c c' _ x.ptr (ground (arith, v.begins, out x.ptr)) done done',
        linked',
      )
