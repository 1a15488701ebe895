-- ===== src/LinkedList/Walk.antt =====
-- The functions of src/linked_list.c that only read: `list_length`, `list_is_empty`, `list_first`,
-- `list_last`, `list_next` and `list_prev`.
use concurrent_request_orche.Base.{◌≡◌, List, [], ◌∷◌, ◌++◌, arith, ◌==◌, length}
use concurrent_request_orche.Memory.{
  Ptr, null, head_of, tail_of, Memory, done, get_next, get_prev, get_count,
}
use concurrent_request_orche.LinkedList.{
  list_length, list_is_empty, list_first, list_last, list_next, list_prev, IsList,
}
use concurrent_request_orche.LinkedList.Chains.{Chain, Chain-split, has-append, prev-mem}
use concurrent_request_orche.LinkedList.Clear.{list_is_empty-run}

-- The first of a list of addresses, or `NULL`.
abbrev pub first_of : List Ptr → Ptr
first_of [] = null
first_of (p ∷ ps) = p

-- The last of a list of addresses, or `q`.
abbrev pub last_or : Ptr → List Ptr → Ptr
last_or q [] = q
last_or q (p ∷ ps) = last_or p ps

last-Chain :
    (f g : Ptr → Ptr) (a : Ptr) (xs : List Ptr) (b : Ptr) → Chain f g a xs b → g b ≡ last_or a xs
last-Chain f g a [] b c = c.1
last-Chain f g a (x ∷ xs) b c = last-Chain f g x xs b c.2

-- The list is read at its ends and its size without a fault, and nothing is written.
pub ends_lem :
    {m : Memory} {l : Ptr} (nodes : List Ptr)
    → IsList m l nodes
    → (list_length l m ≡ done (length nodes) m)
      × (list_is_empty l m ≡ done (length nodes == 0) m)
      × (list_first l m ≡ done (first_of nodes) m)
      × (list_last l m ≡ done (last_or null nodes) m)
unfolding list_length list_first list_last get_count get_next get_prev
ends_lem [] is = (
  ground (arith, is.owns, is.counted),
  list_is_empty-run is,
  ground (arith, list_is_empty-run is),
  ground (arith, list_is_empty-run is),
)
ends_lem {m} {l} (n ∷ ys) is = (
  ground (arith, is.owns, is.counted),
  list_is_empty-run is,
  ground (arith, list_is_empty-run is, is.owns_head, is.chain),
  ground (
    arith,
    list_is_empty-run is,
    is.owns_tail,
    last-Chain m.next m.prev (head_of l) (n ∷ ys) (tail_of l) is.chain,
  ),
)

module _ {m : Memory} {l : Ptr} where
  list_next-run :
      (xs : List Ptr) (n : Ptr) (ys : List Ptr)
      → IsList m l (xs ++ n ∷ ys)
      → list_next l n m ≡ done (first_of ys) m
  unfolding list_next get_next
  list_next-run xs n [] is = ground (
    arith,
    is.owns,
    is.null_free,
    Chain-split m.next m.prev (head_of l) xs n [] (tail_of l) is.chain,
    is.nodes_ok n,
    has-append n xs (n ∷ []),
  )
  list_next-run xs n (y ∷ ys) is = ground (
    arith,
    is.owns,
    is.null_free,
    Chain-split m.next m.prev (head_of l) xs n (y ∷ ys) (tail_of l) is.chain,
    is.nodes_ok n,
    is.nodes_ok y,
    has-append n xs (n ∷ y ∷ ys),
    has-append y xs (n ∷ y ∷ ys),
  )

  list_prev-run :
      (xs : List Ptr) (n : Ptr) (ys : List Ptr)
      → IsList m l (xs ++ n ∷ ys)
      → list_prev l n m ≡ done (last_or null xs) m
  unfolding list_prev get_prev
  list_prev-run [] n ys is = ground (arith, is.owns, is.null_free, is.chain, is.nodes_ok n)
  list_prev-run (x ∷ xs) n ys is =
      let before = (Chain-split m.next m.prev (head_of l) (x ∷ xs) n ys (tail_of l) is.chain).0 in
      ground (
        arith,
        is.owns,
        is.null_free,
        last-Chain m.next m.prev (head_of l) (x ∷ xs) n before,
        prev-mem m.next m.prev x xs n before.2,
        is.nodes_ok n,
        is.nodes_ok (m.prev n),
        has-append n xs (n ∷ ys),
        has-append (m.prev n) xs (n ∷ ys),
      )

  -- From each node of a well formed list `list_next` and `list_prev` lead to its neighbours in the order of the list, and
  -- to `NULL` at its ends.
  pub neighbours_lem :
      (xs : List Ptr) (n : Ptr) (ys : List Ptr)
      → IsList m l (xs ++ n ∷ ys)
      → (list_next l n m ≡ done (first_of ys) m) × (list_prev l n m ≡ done (last_or null xs) m)
  neighbours_lem xs n ys is = (list_next-run xs n ys is, list_prev-run xs n ys is)
