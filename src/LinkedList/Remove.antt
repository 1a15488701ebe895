-- ===== src/LinkedList/Remove.antt =====
-- `list_pop`, `list_pop_left` and `list_remove` of src/linked_list.c.
use concurrent_request_orche.Base.{
  ◌-◌, ◌≡◌, ◌≢◌, refl, true, false, List, [], ◌∷◌, ◌++◌, arith, ◌==◌, length-append, append-nil,
}
use concurrent_request_orche.Memory.{
  Ptr, null, head_of, tail_of, update, Memory, done, Returns, get_next, get_prev, get_count,
  set_next, set_prev, set_count, free,
}
use concurrent_request_orche.LinkedList.{
  list_is_empty, list_pop, list_pop_left, list_remove, detach, IsNode, IsList, items, footprint,
  SameOutside, Leaves,
}
use concurrent_request_orche.LinkedList.Chains.{
  has, Distinct, Distinct-remove, Chain, Chain-split, has-append, prev-mem, next-mem,
}
use concurrent_request_orche.LinkedList.Links.{Chain-remove}

-- The memory after the node `n` is taken out of the list at `l`.
abbrev pub unlinked : Memory → Ptr → Ptr → Memory
unlinked m l n = record m {
  next = update m.next (m.prev n) (m.next n);
  prev = update m.prev (m.next n) (m.prev n);
  members_count = update m.members_count l (m.members_count l - 1);
}

abbrev pub freed : Memory → Ptr → Memory
freed m n = record m { allocated = update m.allocated n false }

module _ {m : Memory} {l : Ptr} (xs : List Ptr) (n : Ptr) (ys : List Ptr)
    (is : IsList m l (xs ++ n ∷ ys)) where
  open is use {
    null_free, owns, owns_head, owns_tail, counted, chain, distinct, nodes_ok, ends, blank,
  }

  pub n-IsNode : IsNode m l n
  n-IsNode = nodes_ok n (ground (arith, has-append n xs (n ∷ ys)))

  parts : Chain m.next m.prev (head_of l) xs n × Chain m.next m.prev n ys (tail_of l)
  parts = Chain-split m.next m.prev (head_of l) xs n ys (tail_of l) chain

  gone : Distinct (xs ++ ys) × (has n (xs ++ ys) ≡ false)
  gone = Distinct-remove xs n ys distinct

  has-rest : (p : Ptr) → has p (xs ++ ys) ≡ true → (has p (xs ++ n ∷ ys) ≡ true) × (p ≢ n)
  has-rest p h = ground (arith, has-append p xs (n ∷ ys), has-append p xs ys, gone)

  prev-ok : (m.allocated (m.prev n) ≡ true) × (m.prev n ≢ tail_of l) × (m.prev n ≢ n)
  prev-ok = ground (
    arith,
    prev-mem m.next m.prev (head_of l) xs n parts.0,
    has-append (m.prev n) xs (n ∷ ys),
    has-append (m.prev n) xs ys,
    nodes_ok (m.prev n),
    n-IsNode,
    gone,
  )

  next-ok : (m.allocated (m.next n) ≡ true) × (m.next n ≢ head_of l) × (m.next n ≢ n)
  next-ok = ground (
    arith,
    next-mem m.next m.prev n ys (tail_of l) parts.1,
    has-append (m.next n) xs (n ∷ ys),
    has-append (m.next n) xs ys,
    nodes_ok (m.next n),
    n-IsNode,
    gone,
  )

  pub unlinked-IsList : IsList (unlinked m l n) l (xs ++ ys)
  unlinked-IsList = record {
    null_free = null_free;
    owns = owns;
    owns_head = owns_head;
    owns_tail = owns_tail;
    counted = ground (arith, length-append xs ys, length-append xs (n ∷ ys));
    chain =
        Chain-remove m.next m.prev (head_of l) xs n ys (tail_of l) chain
          (ground (arith, nodes_ok (head_of l))) (ground (arith, nodes_ok (tail_of l))) distinct;
    distinct = gone.0;
    nodes_ok = λ p h. nodes_ok p (has-rest p h).0;
    ends = ground (arith, prev-ok, next-ok);
    blank = blank;
  }

  pub unlinked-SameOutside : SameOutside (footprint l (xs ++ n ∷ ys)) m (unlinked m l n)
  unlinked-SameOutside p h = ground (
    arith,
    prev-mem m.next m.prev (head_of l) xs n parts.0,
    next-mem m.next m.prev n ys (tail_of l) parts.1,
    has-append p xs (n ∷ ys),
  )

  pub detached-IsList : IsList (freed (unlinked m l n) n) l (xs ++ ys)
  detached-IsList =
      let u = unlinked-IsList in
      record {
        null_free = ground arith;
        owns = ground (arith, n-IsNode);
        owns_head = ground (arith, n-IsNode);
        owns_tail = ground (arith, n-IsNode);
        counted = u.counted;
        chain = u.chain;
        distinct = u.distinct;
        nodes_ok = λ p h. ground (arith, u.nodes_ok p h, has-rest p h);
        ends = u.ends;
        blank = u.blank;
      }

  pub detached-SameOutside : SameOutside (footprint l (xs ++ n ∷ ys)) m (freed (unlinked m l n) n)
  detached-SameOutside p h = ground (arith, unlinked-SameOutside p h, has-append p xs (n ∷ ys))

  detach-run : detach l n m ≡ done tt (freed (unlinked m l n) n)
  unfolding detach get_prev get_next set_next set_prev get_count set_count free
  detach-run = ground (arith, n-IsNode, prev-ok, next-ok)

  n-ne-null : n ≢ null
  n-ne-null = ground (arith, n-IsNode)

  count-pos : (m.members_count l == 0) ≡ false
  count-pos = ground (arith, counted, length-append xs (n ∷ ys))

  pub list_remove-run : list_remove l n m ≡ done tt (freed (unlinked m l n) n)
  unfolding list_remove list_is_empty get_count
  list_remove-run = ground (arith, n-ne-null, count-pos, detach-run)

  -- `list_remove` takes a node of a well formed list out of it, wherever it stands, frees it, and leaves the other
  -- nodes, their order and their items alone.
  pub list_remove_lem :
      Returns
        (λ r m'.
          Leaves m l (footprint l (xs ++ n ∷ ys)) (xs ++ ys) (items m (xs ++ ys)) tt r m'
          × (m'.allocated n ≡ false))
        (list_remove l n m)
  list_remove_lem =
      rw list_remove-run ((refl, detached-IsList, refl, detached-SameOutside), ground arith)

-- `list_remove` does nothing on `NULL`, nor on an empty list.
pub list_remove-guards :
    (m : Memory) (l n : Ptr)
    → (list_remove l null m ≡ done tt m) × (IsList m l [] → list_remove l n m ≡ done tt m)
unfolding list_remove list_is_empty get_count
list_remove-guards m l n = (refl, λ is. ground (arith, is.owns, is.counted))

module _ {m : Memory} {l : Ptr} (xs : List Ptr) (n : Ptr) (is : IsList m l (xs ++ n ∷ [])) where
  open is use {owns, owns_tail, counted}

  last-links : (m.prev (tail_of l) ≡ n) × (m.next n ≡ tail_of l)
  last-links = let (f, b) = (parts xs n [] is).1 in (b, f)

  pub list_pop-run : list_pop l m ≡ done n (unlinked m l n)
  unfolding list_pop list_is_empty get_prev get_next set_next set_prev get_count set_count
  list_pop-run =
      ground (arith, last-links, n-IsNode xs n [] is, prev-ok xs n [] is, count-pos xs n [] is)

  -- `list_pop` hands back the last node, still allocated, and leaves the rest.
  pub list_pop_lem :
      Returns
        (λ r m'.
          Leaves m l (footprint l (xs ++ n ∷ [])) xs (items m xs) n r m'
          × (m'.allocated n ≡ true)
          × (m'.item n ≡ m.item n))
        (list_pop l m)
  list_pop_lem = rw list_pop-run (
    (refl, rw append-nil at (unlinked-IsList xs n [] is), refl, unlinked-SameOutside xs n [] is),
    (n-IsNode xs n [] is).0,
    refl,
  )

module _ {m : Memory} {l n : Ptr} {ys : List Ptr} (is : IsList m l (n ∷ ys)) where
  open is use {owns, owns_head, counted, chain}

  pub list_pop_left-run : list_pop_left l m ≡ done n (unlinked m l n)
  unfolding list_pop_left list_is_empty get_prev get_next set_next set_prev get_count set_count
  list_pop_left-run = ground (arith, n-IsNode [] n ys is, next-ok [] n ys is, count-pos [] n ys is)

  -- `list_pop_left` hands back the first node, still allocated, and leaves the rest.
  pub list_pop_left_lem :
      Returns
        (λ r m'.
          Leaves m l (footprint l (n ∷ ys)) ys (items m ys) n r m'
          × (m'.allocated n ≡ true)
          × (m'.item n ≡ m.item n))
        (list_pop_left l m)
  list_pop_left_lem = rw list_pop_left-run (
    (refl, unlinked-IsList [] n ys is, refl, unlinked-SameOutside [] n ys is),
    (n-IsNode [] n ys is).0,
    refl,
  )

-- On an empty list both return `NULL` and change nothing.
pub pop-nil :
    {m : Memory} {l : Ptr}
    → IsList m l []
    → (list_pop l m ≡ done null m) × (list_pop_left l m ≡ done null m)
unfolding list_pop list_pop_left list_is_empty get_count
pop-nil is = (ground (arith, is.owns, is.counted), ground (arith, is.owns, is.counted))
