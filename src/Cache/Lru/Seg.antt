-- ===== src/Cache/Lru/Seg.antt =====
-- Doubly linked segments of nodes, and what a write to a link does to them.
use gocc.Prelude.{
  ℕ, ◌≡◌, ◌∙◌, refl, Bool, true, false, ◌||◌, List, [], ◌∷◌, ◌++◌, Option, some, ◌==◌, arith,
}
use gocc.Cache.Lru.{LruNode, Heap, write, set_next, set_prev}

-- A node as the list's contents see it: its address and its entry.
pub record Cell (K V : Type 0) : Type 0 where
  pub ptr : ℕ
  pub key : K
  pub value : V
  pub expiration : ℕ

module _ {K V : Type 0} where
  abbrev pub node_of : Cell K V → Option ℕ → Option ℕ → LruNode K V
  node_of x before after = record {
    key = x.key;
    value = x.value;
    expiration = x.expiration;
    prev = before;
    next = after;
  }

  -- The address where the segment begins, or else `after`; where it ends, or else `before`.
  abbrev pub first_or : Option ℕ → List (Cell K V) → Option ℕ
  first_or after [] = after
  first_or after (x ∷ xs) = some x.ptr

  abbrev pub last_or : Option ℕ → List (Cell K V) → Option ℕ
  last_or before [] = before
  last_or before (x ∷ xs) = last_or (some x.ptr) xs

  abbrev pub has : ℕ → List (Cell K V) → Bool
  has a [] = false
  has a (x ∷ xs) = (a == x.ptr) || has a xs

  -- No address stands twice.
  abbrev pub Apart : List (Cell K V) → Type 0
  Apart [] = Unit {0}
  Apart (x ∷ xs) = (has x.ptr xs ≡ false) × Apart xs

  -- The nodes of `xs` are linked in order, between `before` and `after`.
  abbrev pub Seg : Heap K V → Option ℕ → List (Cell K V) → Option ℕ → Type 0
  Seg h before [] after = Unit {0}
  Seg h before (x ∷ xs) after =
      (h x.ptr ≡ some (node_of x before (first_or after xs))) × Seg h (some x.ptr) xs after

  pub has-append : (a : ℕ) (xs ys : List (Cell K V)) → has a (xs ++ ys) ≡ (has a xs || has a ys)
  has-append a [] ys = refl
  has-append a (x ∷ xs) ys = ground (arith, has-append a xs ys)

  pub Seg-append :
      (h : Heap K V) (before after : Option ℕ) (xs ys : List (Cell K V))
      → Seg h before xs (first_or after ys)
      → Seg h (last_or before xs) ys after
      → Seg h before (xs ++ ys) after
  Seg-append h before after [] ys s t = t
  Seg-append h before after (x ∷ []) ys s t = (s.0, t)
  Seg-append h before after (x ∷ x' ∷ xs) ys s t =
      (s.0, Seg-append h (some x.ptr) after (x' ∷ xs) ys s.1 t)

  pub Seg-split :
      (h : Heap K V) (before after : Option ℕ) (xs ys : List (Cell K V))
      → Seg h before (xs ++ ys) after
      → Seg h before xs (first_or after ys) × Seg h (last_or before xs) ys after
  Seg-split h before after [] ys s = (tt, s)
  Seg-split h before after (x ∷ []) ys s = ((s.0, tt), s.1)
  Seg-split h before after (x ∷ x' ∷ xs) ys s =
      let (l, r) = Seg-split h (some x.ptr) after (x' ∷ xs) ys s.1 in ((s.0, l), r)

  -- A write outside a segment leaves it.
  pub Seg-write :
      (h : Heap K V) (p : ℕ) (n : LruNode K V) (before after : Option ℕ) (xs : List (Cell K V))
      → has p xs ≡ false
      → Seg h before xs after
      → Seg (write h p n) before xs after
  unfolding write
  Seg-write h p n before after [] out s = tt
  Seg-write h p n before after (x ∷ xs) out s =
      (ground arith, Seg-write h p n (some x.ptr) after xs (ground arith) s.1)

  pub Seg-frame :
      (h g : Heap K V) (before after : Option ℕ) (xs : List (Cell K V))
      → ((q : ℕ) → has q xs ≡ true → g q ≡ h q)
      → Seg h before xs after
      → Seg g before xs after
  Seg-frame h g before after [] same s = tt
  Seg-frame h g before after (x ∷ xs) same s = (
    same x.ptr (ground arith) ∙ s.0,
    Seg-frame h g (some x.ptr) after xs (λ q m. same q (ground arith)) s.1,
  )

  pub Apart-split :
      (xs ys : List (Cell K V))
      → Apart (xs ++ ys)
      → Apart xs × Apart ys × ((q : ℕ) → has q ys ≡ true → has q xs ≡ false)
  Apart-split [] ys d = (tt, d, λ q m. refl)
  Apart-split (x ∷ xs) ys d =
      let (l, r, out) = Apart-split xs ys d.1 in
      (
        (ground (arith, has-append x.ptr xs ys), l),
        r,
        λ q m. ground (arith, has-append x.ptr xs ys, out q m, d.0),
      )

  pub Apart-join :
      (xs ys : List (Cell K V))
      → Apart xs
      → Apart ys
      → ((q : ℕ) → has q ys ≡ true → has q xs ≡ false)
      → Apart (xs ++ ys)
  Apart-join [] ys l r out = r
  Apart-join (x ∷ xs) ys l r out =
      (fresh (has x.ptr ys) refl, Apart-join xs ys l.1 r (λ q m. ground (arith, out q m)))
    where
      fresh : (b : Bool) → has x.ptr ys ≡ b → has x.ptr (xs ++ ys) ≡ false
      fresh true e = ground (arith, out x.ptr e)
      fresh false e = ground (arith, has-append x.ptr xs ys)

  -- The last address of a segment.
  pub last-some : (a : ℕ) (xs : List (Cell K V)) → (p : ℕ) × (last_or (some a) xs ≡ some p)
  last-some a [] = (a, refl)
  last-some a (x ∷ xs) = last-some x.ptr xs

  pub has-last :
      (p : ℕ) (x : Cell K V) (xs : List (Cell K V))
      → last_or (some x.ptr) xs ≡ some p
      → has p (x ∷ xs) ≡ true
  has-last p x [] e = ground arith
  has-last p x (y ∷ xs) e = ground (arith, has-last p y xs e)

  -- The last node of a segment gets a new successor.
  pub set_next-last :
      (h : Heap K V) (before after after' : Option ℕ) (x : Cell K V) (xs : List (Cell K V)) (p : ℕ)
      → Seg h before (x ∷ xs) after
      → Apart (x ∷ xs)
      → last_or (some x.ptr) xs ≡ some p
      → (g : Heap K V) × (set_next p after' h ≡ some g)
        × Seg g before (x ∷ xs) after'
        × ((q : ℕ) → has q (x ∷ xs) ≡ false → g q ≡ h q)
  unfolding set_next write
  set_next-last h before after after' x [] p s d e = (
    write h p (node_of x before after'),
    ground (arith, s.0, e),
    (ground (arith, e), tt),
    λ q out. ground (arith, e),
  )
  set_next-last h before after after' x (y ∷ xs) p s d e =
      let (g, done, seg, same) = set_next-last h (some x.ptr) after after' y xs p s.1 d.1 e in
      (g, done, (same x.ptr d.0 ∙ s.0, seg), λ q out. same q (ground arith))

  -- The first node of a segment gets a new predecessor.
  pub set_prev-first :
      (h : Heap K V) (before before' after : Option ℕ) (x : Cell K V) (xs : List (Cell K V))
      → Seg h before (x ∷ xs) after
      → Apart (x ∷ xs)
      → (g : Heap K V) × (set_prev x.ptr before' h ≡ some g)
        × Seg g before' (x ∷ xs) after
        × ((q : ℕ) → has q (x ∷ xs) ≡ false → g q ≡ h q)
  unfolding set_prev write
  set_prev-first h before before' after x xs s d = (
    write h x.ptr (node_of x before' (first_or after xs)),
    ground (arith, s.0),
    (ground arith, Seg-write h x.ptr _ (some x.ptr) after xs d.0 s.1),
    λ q out. ground arith,
  )
