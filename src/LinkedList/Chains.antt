-- ===== src/LinkedList/Chains.antt =====
-- Doubly linked chains: what `next` and `prev` say between two addresses, for src/linked_list.c.
use mathlib.Core.Bool.{or_assoc}
use concurrent_request_orche.Base.{
  ◌≡◌, refl, Bool, true, false, ◌||◌, List, [], ◌∷◌, ◌++◌, arith, ◌==◌,
}
use concurrent_request_orche.Memory.{Ptr}

abbrev pub has : Ptr → List Ptr → Bool
has p [] = false
has p (x ∷ xs) = (p == x) || has p xs

abbrev pub Distinct : List Ptr → Type 0
Distinct [] = Unit
Distinct (x ∷ xs) = (has x xs ≡ false) × Distinct xs

-- From `a` the links lead through `xs` to `b`, and back.
abbrev pub Chain : (next prev : Ptr → Ptr) → Ptr → List Ptr → Ptr → Type 0
Chain f g a [] b = (f a ≡ b) × (g b ≡ a)
Chain f g a (x ∷ xs) b = (f a ≡ x) × (g x ≡ a) × Chain f g x xs b

pub has-append : (p : Ptr) (xs ys : List Ptr) → has p (xs ++ ys) ≡ (has p xs || has p ys)
has-append p [] ys = refl
has-append p (x ∷ xs) ys = rw (has-append p xs ys, or_assoc)

pub Distinct-snoc :
    (xs : List Ptr) (n : Ptr) → Distinct xs → has n xs ≡ false → Distinct (xs ++ n ∷ [])
Distinct-snoc [] n d h = ground arith
Distinct-snoc (x ∷ xs) n d h = ground (arith, has-append x xs (n ∷ []), Distinct-snoc xs n d.1)

pub Distinct-remove :
    (xs : List Ptr) (n : Ptr) (ys : List Ptr)
    → Distinct (xs ++ n ∷ ys)
    → Distinct (xs ++ ys) × (has n (xs ++ ys) ≡ false)
Distinct-remove [] n ys d = (d.1, d.0)
Distinct-remove (x ∷ xs) n ys d =
    ground (arith, has-append x xs (n ∷ ys), has-append x xs ys, Distinct-remove xs n ys d.1)

-- Links that differ only outside the chain leave it a chain.
pub Chain-frame :
    {f g : Ptr → Ptr} (f' g' : Ptr → Ptr) (a : Ptr) (xs : List Ptr) (b : Ptr)
    → Chain f g a xs b
    → ((p : Ptr) → has p (a ∷ xs) ≡ true → f' p ≡ f p)
    → ((p : Ptr) → has p (b ∷ xs) ≡ true → g' p ≡ g p)
    → Chain f' g' a xs b
Chain-frame f' g' a [] b c sf sg = ground (arith, sf a, sg b)
Chain-frame f' g' a (x ∷ xs) b c sf sg = (
  ground (arith, sf a),
  ground (arith, sg x),
  Chain-frame f' g' x xs b c.2 (λ p h. ground (arith, sf p)) (λ p h. ground (arith, sg p)),
)

module _ (f g : Ptr → Ptr) where
  pub Chain-split :
      (a : Ptr) (xs : List Ptr) (n : Ptr) (ys : List Ptr) (b : Ptr)
      → Chain f g a (xs ++ n ∷ ys) b
      → Chain f g a xs n × Chain f g n ys b
  Chain-split a [] n ys b c = ((c.0, c.1), c.2)
  Chain-split a (x ∷ xs) n ys b c =
      let (front, back) = Chain-split x xs n ys b c.2 in ((c.0, c.1, front), back)

  -- The last address before the end of a chain is its start or one of its nodes.
  pub prev-mem : (a : Ptr) (xs : List Ptr) (b : Ptr) → Chain f g a xs b → has (g b) (a ∷ xs) ≡ true
  prev-mem a [] b c = ground arith
  prev-mem a (x ∷ xs) b c = ground (arith, prev-mem x xs b c.2)

  pub next-mem : (a : Ptr) (xs : List Ptr) (b : Ptr) → Chain f g a xs b → has (f a) (b ∷ xs) ≡ true
  next-mem a [] b c = ground arith
  next-mem a (x ∷ xs) b c = ground arith
