-- ===== src/LinkedList/Insert.antt =====
-- `list_append` and `list_append_left` of src/linked_list.c.
use concurrent_request_orche.Base.{
  ◌+◌, ◌≡◌, ◌≢◌, refl, true, false, List, [], ◌∷◌, ◌++◌, ◌∙◌, arith, map-append, length-append, map,
}
use concurrent_request_orche.Memory.{
  Ptr, null, head_of, tail_of, update, Memory, done, Returns, get_next, get_prev, get_count,
  set_next, set_prev, set_data, set_count, malloc,
}
use concurrent_request_orche.LinkedList.{
  list_append, list_append_left, IsNode, IsList, items, footprint, SameOutside, Leaves,
}
use concurrent_request_orche.LinkedList.Chains.{has, Distinct-snoc, has-append, prev-mem, next-mem}
use concurrent_request_orche.LinkedList.Links.{Chain-append, Chain-append_left}

-- An address that `malloc` may hand out.
abbrev pub IsFresh : Memory → Ptr → Type 0
IsFresh m p = (p ≢ null) × (m.allocated p ≡ false)

-- The memory after `list_append`.
abbrev appended : Memory → Ptr → Ptr → Ptr → Memory
appended m l n obj = record m {
  next = update (update m.next n (tail_of l)) (m.prev (tail_of l)) n;
  prev = update (update m.prev n (m.prev (tail_of l))) (tail_of l) n;
  item = update m.item n obj;
  members_count = update m.members_count l (m.members_count l + 1);
  allocated = update m.allocated n true;
}

-- The memory after `list_append_left`.
abbrev appended_left : Memory → Ptr → Ptr → Ptr → Memory
appended_left m l n obj = record m {
  next = update (update m.next n (m.next (head_of l))) (head_of l) n;
  prev = update (update m.prev n (head_of l)) (m.next (head_of l)) n;
  item = update m.item n obj;
  members_count = update m.members_count l (m.members_count l + 1);
  allocated = update m.allocated n true;
}

items-update :
    (f : Ptr → Ptr) (nodes : List Ptr) (n obj : Ptr)
    → has n nodes ≡ false
    → map (update f n obj) nodes ≡ map f nodes
items-update f [] n obj h = refl
items-update f (x ∷ xs) n obj h = ground (arith, items-update f xs n obj)

module _ {m : Memory} {l : Ptr} {nodes : List Ptr} (is : IsList m l nodes) where
  open is use {
    null_free, owns, owns_head, owns_tail, counted, chain, distinct, nodes_ok, ends, blank,
  }

  fresh-not-mem : (n : Ptr) → IsFresh m n → has n nodes ≡ false
  fresh-not-mem n fr = ground (arith, nodes_ok n)

  pub prev-tail : (m.allocated (m.prev (tail_of l)) ≡ true) × (m.prev (tail_of l) ≢ tail_of l)
  prev-tail = ground (
    arith,
    prev-mem m.next m.prev (head_of l) nodes (tail_of l) chain,
    nodes_ok (m.prev (tail_of l)),
  )

  list_append-run :
      (n obj : Ptr) → IsFresh m n → list_append n l obj m ≡ done true (appended m l n obj)
  unfolding list_append malloc set_data set_next set_prev get_prev get_count set_count
  list_append-run n obj fr = ground (arith, prev-tail)

  module _ (n obj : Ptr) (fr : IsFresh m n) where
    -- The node is not one of the addresses that the list owns.
    apart : (has n nodes ≡ false) × (n ≢ l) × (n ≢ head_of l) × (n ≢ tail_of l)
    apart = ground (arith, nodes_ok n)

    appended-IsNode : (p : Ptr) → has p (nodes ++ n ∷ []) ≡ true → IsNode (appended m l n obj) l p
    appended-IsNode p h = ground (arith, apart, nodes_ok p, has-append p nodes (n ∷ []))

    ends-apart : (has (head_of l) (tail_of l ∷ nodes) ≡ false) × (has (tail_of l) nodes ≡ false)
    ends-apart = ground (arith, nodes_ok (head_of l), nodes_ok (tail_of l))

    appended-IsList : IsList (appended m l n obj) l (nodes ++ n ∷ [])
    appended-IsList = record {
      null_free = ground arith;
      owns = ground arith;
      owns_head = ground arith;
      owns_tail = ground arith;
      counted = ground (arith, length-append nodes (n ∷ []));
      chain =
          Chain-append m.next m.prev (head_of l) nodes (tail_of l) n chain ends-apart.0 ends-apart.1
            distinct (ground (arith, apart));
      distinct = Distinct-snoc nodes n distinct apart.0;
      nodes_ok = appended-IsNode;
      ends = ground (arith, apart, prev-tail);
      blank = ground (arith, apart);
    }

    appended-items : items (appended m l n obj) (nodes ++ n ∷ []) ≡ items m nodes ++ obj ∷ []
    appended-items =
        map-append (appended m l n obj).item nodes (n ∷ [])
        ∙ rw (items-update m.item nodes n obj apart.0) (ground arith)

    appended-SameOutside : SameOutside (footprint l nodes ++ n ∷ []) m (appended m l n obj)
    appended-SameOutside p h = ground (
      arith,
      has-append p nodes (n ∷ []),
      prev-mem m.next m.prev (head_of l) nodes (tail_of l) chain,
    )

    -- On a well formed list and with a fresh node from `malloc`, `list_append` succeeds, adds the
    -- object at the end, and writes nothing but the list and the new node.
    pub list_append_lem :
        Returns
          (Leaves m l
            (footprint l nodes ++ n ∷ [])
            (nodes ++ n ∷ [])
            (items m nodes ++ obj ∷ [])
            true)
          (list_append n l obj m)
    list_append_lem =
        rw (list_append-run n obj fr) (refl, appended-IsList, appended-items, appended-SameOutside)

    next-head : (m.allocated (m.next (head_of l)) ≡ true) × (m.next (head_of l) ≢ head_of l)
    next-head = ground (
      arith,
      next-mem m.next m.prev (head_of l) nodes (tail_of l) chain,
      nodes_ok (m.next (head_of l)),
    )

    list_append_left-run : list_append_left n l obj m ≡ done true (appended_left m l n obj)
    unfolding list_append_left malloc set_data set_next set_prev get_next get_count set_count
    list_append_left-run = ground (arith, next-head)

    appended_left-IsNode :
        (p : Ptr) → has p (n ∷ nodes) ≡ true → IsNode (appended_left m l n obj) l p
    appended_left-IsNode p h = ground (arith, apart, nodes_ok p)

    appended_left-IsList : IsList (appended_left m l n obj) l (n ∷ nodes)
    appended_left-IsList = record {
      null_free = ground arith;
      owns = ground arith;
      owns_head = ground arith;
      owns_tail = ground arith;
      counted = ground arith;
      chain =
          Chain-append_left m.next m.prev (head_of l) nodes (tail_of l) n chain ends-apart.0
            ends-apart.1 distinct (ground (arith, apart));
      distinct = (apart.0, distinct);
      nodes_ok = appended_left-IsNode;
      ends = ground (arith, apart, next-head);
      blank = ground (arith, apart);
    }

    appended_left-SameOutside :
        SameOutside (footprint l nodes ++ n ∷ []) m (appended_left m l n obj)
    appended_left-SameOutside p h = ground (
      arith,
      has-append p nodes (n ∷ []),
      next-mem m.next m.prev (head_of l) nodes (tail_of l) chain,
    )

    -- On a well formed list and with a fresh node from `malloc`, `list_append_left` succeeds, adds
    -- the object in front, and writes nothing but the list and the new node.
    pub list_append_left_lem :
        Returns
          (Leaves m l (footprint l nodes ++ n ∷ []) (n ∷ nodes) (obj ∷ items m nodes) true)
          (list_append_left n l obj m)
    list_append_left_lem = rw list_append_left-run (
      refl,
      appended_left-IsList,
      ground (arith, items-update m.item nodes n obj apart.0),
      appended_left-SameOutside,
    )

-- When `malloc` fails, both report failure and change nothing.
pub append-null :
    (m : Memory) (l obj : Ptr)
    → (list_append null l obj m ≡ done false m) × (list_append_left null l obj m ≡ done false m)
unfolding list_append list_append_left malloc
append-null m l obj = (refl, refl)
