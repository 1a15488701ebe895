-- ===== src/LinkedList/Clear.antt =====
-- `list_clear` of src/linked_list.c.
use concurrent_request_orche.Base.{
  ℕ, zero, suc, ◌+◌, ◌<◌, ◌≡◌, true, false, List, [], ◌∷◌, arith, ◌==◌, length,
}
use concurrent_request_orche.Memory.{Ptr, Memory, done, Returns, Returns-mono, get_count, free}
use concurrent_request_orche.LinkedList.{
  list_is_empty, list_clear_loop, list_clear, IsList, footprint, SameOutside,
}
use concurrent_request_orche.LinkedList.Chains.{has}
use concurrent_request_orche.LinkedList.Remove.{
  unlinked, freed, detached-IsList, detached-SameOutside, list_pop_left-run, n-IsNode,
}

-- The list is empty, every node it had is free, and nothing else was written.
abbrev pub Cleared : Memory → Ptr → List Ptr → Unit {0} → Memory → Type 0
Cleared m l nodes _ m' =
    IsList m' l []
    × ((p : Ptr) → has p nodes ≡ true → m'.allocated p ≡ false)
    × SameOutside (footprint l nodes) m m'

pub list_is_empty-run :
    {m : Memory} {l : Ptr} {nodes : List Ptr}
    → IsList m l nodes
    → list_is_empty l m ≡ done (length nodes == 0) m
unfolding list_is_empty get_count
list_is_empty-run is = ground (arith, is.owns, is.counted)

list_is_empty-cons :
    {m : Memory} {l n : Ptr} {ys : List Ptr}
    → IsList m l (n ∷ ys)
    → list_is_empty l m ≡ done false m
unfolding list_is_empty get_count
list_is_empty-cons is = ground (arith, is.owns, is.counted)

Cleared-cons :
    {m : Memory} {l n : Ptr} {ys : List Ptr}
    → IsList m l (n ∷ ys)
    → (m' : Memory) → Cleared (freed (unlinked m l n) n) l ys tt m'
    → Cleared m l (n ∷ ys) tt m'
Cleared-cons {m} {l} {n} {ys} is m' (empty, gone, same) = (
  empty,
  λ p h. ground (arith, gone p, same n, n-IsNode [] n ys is, is.distinct),
  λ p h. ground (arith, same p, detached-SameOutside [] n ys is p),
)

list_clear_loop_lem :
    (k : ℕ) {m : Memory} {l : Ptr} (nodes : List Ptr)
    → IsList m l nodes
    → length nodes < k
    → Returns (Cleared m l nodes) (list_clear_loop k l m)
unfolding list_clear_loop free
list_clear_loop_lem zero nodes is h = absurd (omega arith)
list_clear_loop_lem (suc k) [] is h = rw (list_is_empty-run is) (is, λ p i. cc, ground arith)
list_clear_loop_lem (suc k) {m} {l} (n ∷ ys) is h =
    rw (list_is_empty-cons is, list_pop_left-run is, (n-IsNode [] n ys is).0)
      (Returns-mono (Cleared (freed (unlinked m l n) n) l ys) (Cleared m l (n ∷ ys)) _
        (list_clear_loop_lem k ys (detached-IsList [] n ys is) (omega arith))
        (λ _ m'. Cleared-cons is m'))

-- On a well formed list `list_clear` ends, frees every node of the list exactly once, leaves the
-- list empty, and writes nothing else.
pub list_clear_lem :
    {m : Memory} {l : Ptr} {nodes : List Ptr}
    → IsList m l nodes
    → Returns (Cleared m l nodes) (list_clear l m)
unfolding list_clear get_count
list_clear_lem {m} {l} {nodes} is =
    rw is.owns (list_clear_loop_lem (m.members_count l + 1) nodes is (ground (arith, is.counted)))
