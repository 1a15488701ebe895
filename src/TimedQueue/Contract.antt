-- ===== src/TimedQueue/Contract.antt =====
-- What src/timed_queue.c promises: a sequence of items with the time of its last change, whatever the
-- memory looks like underneath.
use concurrent_request_orche.Base.{
  ℕ, ◌≡◌, refl, sym, ap, ◌∙◌, true, false, List, [], ◌∷◌, ◌++◌, arith, ◌==◌, length, length-append,
  map-append,
}
use concurrent_request_orche.Memory.{
  Ptr, null, update, Memory, done, Returns, Returns-bind, set_time,
}
use concurrent_request_orche.LinkedList.{
  IsList, items, list_init, list_append, list_append_left, list_pop, list_pop_left, list_clear,
  list_remove,
}
use concurrent_request_orche.LinkedList.Chains.{has}
use concurrent_request_orche.LinkedList.Insert.{
  IsFresh, list_append_lem, list_append_left_lem, append-null,
}
use concurrent_request_orche.LinkedList.Init.{IsStruct, list_init_lem}
use concurrent_request_orche.LinkedList.Remove.{
  n-IsNode, list_pop_lem, list_pop_left_lem, list_remove_lem, pop-nil,
}
use concurrent_request_orche.LinkedList.Clear.{Cleared, list_clear_lem}
use concurrent_request_orche.TimedQueue.{
  timed_queue_init, timed_queue_enqueue, timed_queue_enqueue_front, timed_queue_dequeue,
  timed_queue_dequeue_front, timed_queue_remove, timed_queue_clear,
}

snoc-injective : (xs ys : List ℕ) (x y : ℕ) → xs ++ x ∷ [] ≡ ys ++ y ∷ [] → (xs ≡ ys) × (x ≡ y)
snoc-injective [] [] x y h = ground arith
snoc-injective [] (b ∷ ys) x y h = absurd (omega (arith, ap length h, length-append ys (y ∷ [])))
snoc-injective (a ∷ xs) [] x y h = absurd (omega (arith, ap length h, length-append xs (x ∷ [])))
snoc-injective (a ∷ xs) (b ∷ ys) x y h =
    let (e, f) = snoc-injective xs ys x y (ground arith) in (ground arith, f)

-- The queue at `q` holds `xs`, and last changed at the time `t`.
pub record Holds (m : Memory) (q : Ptr) (nodes xs : List Ptr) (t : ℕ) : Type 0 where
  pub list : IsList m q nodes
  pub held : items m nodes ≡ xs
  pub stamped : m.last_interaction_time_us q ≡ t

abbrev stamp : Memory → Ptr → ℕ → Memory
stamp m q now = record m { last_interaction_time_us = update m.last_interaction_time_us q now }

stamp-IsList :
    {m : Memory} {q : Ptr} {nodes : List Ptr} (now : ℕ)
    → IsList m q nodes
    → IsList (stamp m q now) q nodes
stamp-IsList now is = record {
  null_free = is.null_free;
  owns = is.owns;
  owns_head = is.owns_head;
  owns_tail = is.owns_tail;
  counted = is.counted;
  chain = is.chain;
  distinct = is.distinct;
  nodes_ok = is.nodes_ok;
  ends = is.ends;
  blank = is.blank;
}

stamp-Holds :
    {m : Memory} {q : Ptr} {nodes xs : List Ptr} (now : ℕ)
    → IsList m q nodes
    → items m nodes ≡ xs
    → Holds (stamp m q now) q nodes xs now
stamp-Holds now is e = record { list = stamp-IsList now is; held = e; stamped = ground arith }

ne-null : {m : Memory} {q : Ptr} {nodes : List Ptr} → IsList m q nodes → (q == null) ≡ false
ne-null is = ground (arith, is.owns, is.null_free)

module _ {m : Memory} {q : Ptr} {nodes xs : List Ptr} {t : ℕ} (h : Holds m q nodes xs t)
    (now n obj : Ptr) (fr : IsFresh m n) where
  -- On a well formed queue and with a fresh node from `malloc`, an enqueue succeeds, adds the item at
  -- the end and sets the time stamp.
  pub timed_queue_enqueue_lem :
      Returns
        (λ b m'. (b ≡ true) × Holds m' q (nodes ++ n ∷ []) (xs ++ obj ∷ []) now)
        (timed_queue_enqueue now n q obj m)
  unfolding timed_queue_enqueue set_time
  timed_queue_enqueue_lem = rw (ne-null h.list) (
      Returns-bind _ _ (list_append n q obj m) _ (list_append_lem h.list n obj fr)
        λ b m' (e, is, held, _).
          rw (e, is.owns) (refl, stamp-Holds now is (held ∙ ap (λ v. v ++ obj ∷ []) h.held)))

  -- A successful enqueue at the front adds the item there and sets the time stamp.
  pub timed_queue_enqueue_front_lem :
      Returns
        (λ b m'. (b ≡ true) × Holds m' q (n ∷ nodes) (obj ∷ xs) now)
        (timed_queue_enqueue_front now n q obj m)
  unfolding timed_queue_enqueue_front set_time
  timed_queue_enqueue_front_lem = rw (ne-null h.list) (
      Returns-bind _ _ (list_append_left n q obj m) _ (list_append_left_lem h.list n obj fr)
        λ b m' (e, is, held, _).
          rw (e, is.owns) (refl, stamp-Holds now is (held ∙ ap (λ v. obj ∷ v) h.held)))

-- When `malloc` fails the queue is left as it was, its time stamp too.
pub enqueue-null :
    {m : Memory} {q : Ptr} {nodes : List Ptr} (now obj : Ptr)
    → IsList m q nodes
    → (timed_queue_enqueue now null q obj m ≡ done false m)
      × (timed_queue_enqueue_front now null q obj m ≡ done false m)
unfolding timed_queue_enqueue timed_queue_enqueue_front
enqueue-null {m} {q} now obj is =
    (rw (ne-null is, (append-null m q obj).0), rw (ne-null is, (append-null m q obj).1))

node-ne-null :
    {m : Memory} {q n : Ptr} {nodes : List Ptr}
    → IsList m q nodes
    → m.allocated n ≡ true
    → (n == null) ≡ false
node-ne-null is live = ground (arith, is.null_free)

module _ {m : Memory} {q : Ptr} {t : ℕ} (now n : ℕ) (nodes : List Ptr) (x : Ptr)
    (xs : List Ptr) where
  -- On a well formed queue that is not empty, a dequeue at the front returns the node of the oldest item, still allocated, and leaves the
  -- rest, with the time stamp set.
  pub timed_queue_dequeue_front_lem :
      Holds m q (n ∷ nodes) (x ∷ xs) t
      → Returns
          (λ r m'. (r ≡ n) × (m'.allocated n ≡ true) × (m'.item n ≡ x) × Holds m' q nodes xs now)
          (timed_queue_dequeue_front now q m)
  unfolding timed_queue_dequeue_front set_time
  timed_queue_dequeue_front_lem h = rw (ne-null h.list) (
      Returns-bind _ _ (list_pop_left q m) _ (list_pop_left_lem h.list)
        λ r m' ((e, is, held, _), live, kept).
          rw (e, node-ne-null is live, is.owns)
            (refl, live, ground (arith, h.held), stamp-Holds now is (ground (arith, h.held))))

  last-held : Holds m q (nodes ++ n ∷ []) (xs ++ x ∷ []) t → (items m nodes ≡ xs) × (m.item n ≡ x)
  last-held h = snoc-injective _ _ _ _ (sym (map-append m.item nodes (n ∷ [])) ∙ h.held)

  -- A dequeue at the back returns the node of the newest item.
  pub timed_queue_dequeue_lem :
      Holds m q (nodes ++ n ∷ []) (xs ++ x ∷ []) t
      → Returns
          (λ r m'. (r ≡ n) × (m'.allocated n ≡ true) × (m'.item n ≡ x) × Holds m' q nodes xs now)
          (timed_queue_dequeue now q m)
  unfolding timed_queue_dequeue set_time
  timed_queue_dequeue_lem h = rw (ne-null h.list) (
      Returns-bind _ _ (list_pop q m) _ (list_pop_lem nodes n h.list)
        λ r m' ((e, is, held, _), live, kept).
          rw (e, node-ne-null is live, is.owns)
            (
              refl,
              live,
              ground (arith, last-held h),
              stamp-Holds now is (ground (arith, last-held h)),
            ))

-- A dequeue from an empty queue returns `NULL` and leaves the time stamp alone.
pub dequeue-nil :
    {m : Memory} {q : Ptr} (now : ℕ)
    → IsList m q []
    → (timed_queue_dequeue now q m ≡ done null m)
      × (timed_queue_dequeue_front now q m ≡ done null m)
unfolding timed_queue_dequeue timed_queue_dequeue_front
dequeue-nil now is = (rw (ne-null is, (pop-nil is).0), rw (ne-null is, (pop-nil is).1))

-- On a well formed queue `timed_queue_clear` frees every node, and leaves the empty queue with the time stamp set.
pub timed_queue_clear_lem :
    {m : Memory} {q : Ptr} {nodes xs : List Ptr} {t : ℕ} (now : ℕ)
    → Holds m q nodes xs t
    → Returns
        (λ _ m'. Holds m' q [] [] now × ((p : Ptr) → has p nodes ≡ true → m'.allocated p ≡ false))
        (timed_queue_clear now q m)
unfolding timed_queue_clear set_time
timed_queue_clear_lem {m} {q} {nodes} now h = rw (ne-null h.list) (
    Returns-bind (Cleared m q nodes) _ (list_clear q m) _ (list_clear_lem h.list)
      λ _ m' (is, gone, _). rw is.owns (stamp-Holds now is refl, gone))

-- `timed_queue_remove` takes out the item at any position and sets the time stamp.
pub timed_queue_remove_lem :
    {m : Memory} {q : Ptr} {t : ℕ} (now : ℕ) (before : List Ptr) (n : Ptr) (after : List Ptr)
    → Holds m q (before ++ n ∷ after) (items m (before ++ n ∷ after)) t
    → Returns
        (λ _ m'.
          Holds m' q (before ++ after) (items m before ++ items m after) now
          × (m'.allocated n ≡ false))
        (timed_queue_remove now q n m)
unfolding timed_queue_remove set_time
timed_queue_remove_lem {m} {q} now before n after h =
    let stands : (n == null) ≡ false = node-ne-null h.list (n-IsNode before n after h.list).0 in
    rw (ne-null h.list, stands)
      (Returns-bind _ _ (list_remove q n m) _ (list_remove_lem before n after h.list)
        λ _ m' ((_, is, held, _), gone).
          rw is.owns (stamp-Holds now is (held ∙ map-append m.item before after), gone))

-- `timed_queue_init` makes an empty queue with the time stamp set.
pub timed_queue_init_lem :
    (m : Memory) (q now : ℕ)
    → IsStruct m q
    → Returns (λ b m'. (b ≡ true) × Holds m' q [] [] now) (timed_queue_init now q m)
unfolding timed_queue_init set_time
timed_queue_init_lem m q now s =
    let given : (q == null) ≡ false = ground arith in
    rw given (
      Returns-bind _ _ (list_init q m) _ (list_init_lem m q s)
        λ b m' (e, is, _). rw (e, is.owns) (refl, stamp-Holds now is refl))
