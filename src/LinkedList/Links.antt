-- ===== src/LinkedList/Links.antt =====
-- What the pointer writes of src/linked_list.c do to a chain.
use concurrent_request_orche.Base.{◌≡◌, false, List, [], ◌∷◌, ◌++◌, arith}
use concurrent_request_orche.Memory.{Ptr, update}
use concurrent_request_orche.LinkedList.Chains.{
  has, Distinct, Chain, has-append, Chain-frame, Chain-split, prev-mem, next-mem,
}

module _ (f g : Ptr → Ptr) where
  -- The four writes of `list_append`: the new node `n` goes between the last node and the end.
  pub Chain-append :
      (a : Ptr) (xs : List Ptr) (b n : Ptr)
      → Chain f g a xs b
      → has a (b ∷ xs) ≡ false
      → has b xs ≡ false
      → Distinct xs
      → has n (a ∷ b ∷ xs) ≡ false
      → Chain (update (update f n b) (g b) n) (update (update g n (g b)) b n) a (xs ++ n ∷ []) b
  Chain-append a [] b n c ha hb d hn = ground arith
  Chain-append a (x ∷ xs) b n c ha hb d hn = (
    ground (arith, prev-mem f g x xs b c.2),
    ground arith,
    Chain-append x xs b n c.2 (ground arith) (ground arith) d.1 (ground arith),
  )

  -- The four writes of `list_append_left`.
  pub Chain-append_left :
      (a : Ptr) (xs : List Ptr) (b n : Ptr)
      → Chain f g a xs b
      → has a (b ∷ xs) ≡ false
      → has b xs ≡ false
      → Distinct xs
      → has n (a ∷ b ∷ xs) ≡ false
      → Chain (update (update f n (f a)) a n) (update (update g n a) (f a) n) a (n ∷ xs) b
  Chain-append_left a [] b n c ha hb d hn = ground arith
  Chain-append_left a (x ∷ xs) b n c ha hb d hn = (
    ground arith,
    ground arith,
    (
      ground arith,
      ground arith,
      Chain-frame _ _ x xs b c.2 (λ p h. ground arith) (λ p h. ground arith),
    ),
  )

  -- The two writes that take the node `n` out of a chain.
  pub Chain-remove :
      (a : Ptr) (xs : List Ptr) (n : Ptr) (ys : List Ptr) (b : Ptr)
      → Chain f g a (xs ++ n ∷ ys) b
      → has a (b ∷ (xs ++ n ∷ ys)) ≡ false
      → has b (xs ++ n ∷ ys) ≡ false
      → Distinct (xs ++ n ∷ ys)
      → Chain (update f (g n) (f n)) (update g (f n) (g n)) a (xs ++ ys) b
  Chain-remove a [] n [] b c ha hb d = ground arith
  Chain-remove a [] n (y ∷ ys) b c ha hb d = (
    ground arith,
    ground arith,
    Chain-frame _ _ y ys b c.2.2 (λ p h. ground arith) (λ p h. ground arith),
  )
  Chain-remove a (x ∷ xs) n ys b c ha hb d =
      let (front, back) = Chain-split f g x xs n ys b c.2 in
      (
        ground (arith, prev-mem f g x xs n front, has-append a xs (n ∷ ys)),
        ground (arith, next-mem f g n ys b back, has-append x xs (n ∷ ys)),
        Chain-remove x xs n ys b c.2 (ground arith) (ground arith) d.1,
      )
