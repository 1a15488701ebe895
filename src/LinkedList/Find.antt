-- ===== src/LinkedList/Find.antt =====
-- `list_find` of src/linked_list.c, whose loop runs on through the `tail` sentinel.
use concurrent_request_orche.Base.{
  ℕ, zero, suc, ◌+◌, ◌≤◌, ◌≡◌, ◌≢◌, refl, true, List, [], ◌∷◌, arith, ◌==◌, Bool-cases, inl, inr,
  if◌then◌else◌, length,
}
use concurrent_request_orche.Memory.{
  Ptr, null, tail_of, Memory, done, get_next, get_data, get_count,
}
use concurrent_request_orche.LinkedList.{list_find, list_find_loop, IsList}
use concurrent_request_orche.LinkedList.Chains.{has, Chain}
use concurrent_request_orche.LinkedList.Walk.{ends_lem}

-- The first of the addresses whose item is `wanted`, or `otherwise`.
abbrev pub find_in : (items : Ptr → Ptr) (wanted : Ptr) → List Ptr → Ptr → Ptr
find_in items wanted [] otherwise = otherwise
find_in items wanted (p ∷ ps) otherwise =
    if items p == wanted then p else find_in items wanted ps otherwise

-- What the walk finds behind the last node: the `tail` sentinel holds `NULL`.
abbrev pub beyond : (l wanted : Ptr) → Ptr
beyond l wanted = if wanted == null then tail_of l else null

abbrev pub found_in : Memory → (l wanted : Ptr) → List Ptr → Ptr
found_in m l wanted [] = null
found_in m l wanted (n ∷ ys) = find_in m.item wanted (n ∷ ys) (beyond l wanted)

-- What the loop needs of the memory: it can read the nodes and stops behind the sentinel.
record Readable (m : Memory) (l : Ptr) (nodes : List Ptr) : Type 0 where
  tail_ok :
      (m.allocated (tail_of l) ≡ true) × (m.next (tail_of l) ≡ null) × (m.item (tail_of l) ≡ null)
  live : (p : Ptr) → has p nodes ≡ true → (m.allocated p ≡ true) × (p ≢ null)

loop-step :
    (k : ℕ) (m : Memory) (wanted n : Ptr)
    → (m.allocated n ≡ true) × (n ≢ null)
    → list_find_loop (suc k) n wanted m
      ≡ (if m.item n == wanted then done n m else list_find_loop k (m.next n) wanted m)
unfolding list_find_loop get_data get_next
loop-step k m wanted n ok = elim (Bool-cases (m.item n == wanted)) [
  | inl hit ↦ ground (arith, hit, ok)
  | inr miss ↦ ground (arith, miss, ok)
]

loop-tail :
    (k : ℕ) {m : Memory} (l wanted : Ptr) (nodes : List Ptr)
    → Readable m l nodes
    → list_find_loop (suc (suc k)) (tail_of l) wanted m ≡ done (beyond l wanted) m
unfolding list_find_loop get_data get_next
loop-tail k l wanted nodes r = ground (arith, r.tail_ok)

loop_lem :
    (k : ℕ) {m : Memory} (l wanted n : Ptr) (ys : List Ptr)
    → Readable m l (n ∷ ys)
    → Chain m.next m.prev n ys (tail_of l)
    → length ys + 3 ≤ k
    → list_find_loop k n wanted m ≡ done (find_in m.item wanted (n ∷ ys) (beyond l wanted)) m
loop_lem zero l wanted n ys r c h = absurd (omega arith)
loop_lem (suc zero) l wanted n ys r c h = absurd (omega arith)
loop_lem (suc (suc zero)) l wanted n ys r c h = absurd (omega arith)
loop_lem (suc (suc (suc k))) {m} l wanted n [] r c h = ground (
  arith,
  loop-step (suc (suc k)) m wanted n (r.live n (ground arith)),
  loop-tail k l wanted (n ∷ []) r,
)
loop_lem (suc (suc (suc k))) {m} l wanted n (y ∷ ys) r c h = ground (
  arith,
  loop-step (suc (suc k)) m wanted n (r.live n (ground arith)),
  loop_lem (suc (suc k)) {m = m} l wanted y ys
      (record { tail_ok = r.tail_ok; live = λ p i. r.live p (ground arith) }) c.2 (omega arith),
)

-- On a well formed list `list_find` ends, writes nothing and returns the first node that holds
-- `wanted`. If there is none
-- it returns `NULL`, but for a search for `NULL` itself in a list that is not empty: that one
-- returns the `tail` sentinel.
pub list_find_lem :
    {m : Memory} {l : Ptr} (wanted : Ptr) (nodes : List Ptr)
    → IsList m l nodes
    → list_find l wanted m ≡ done (found_in m l wanted nodes) m
unfolding list_find get_count list_find_loop
list_find_lem {m} wanted [] is = rw (is.owns, (ends_lem [] is).2) (rw (is.counted) refl)
list_find_lem {m} {l} wanted (n ∷ ys) is =
    rw (is.owns, (ends_lem (n ∷ ys) is).2)
      (loop_lem (m.members_count l + 2) l wanted n ys
        (record {
          tail_ok = (is.owns_tail, is.ends.1, is.blank);
          live = λ p i. ground (arith, is.nodes_ok p, is.null_free);
        })
        is.chain.2 (ground (arith, is.counted)))
