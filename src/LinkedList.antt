-- ===== src/LinkedList.antt =====
-- The doubly linked list of src/linked_list.c, a command for each function. The two sentinels are
-- part of the list struct, so a list at `l` starts at `head_of l` and ends at `tail_of l`.
-- `list_init` and `list_next` test the list pointer; the others follow it without a test.
pub mod Chains
pub mod Links
pub mod Init
pub mod Insert
pub mod Remove
pub mod Clear
pub mod Walk
pub mod Find
mod Tests
use concurrent_request_orche.Base.{
  ℕ, zero, suc, ◌+◌, ◌-◌, ◌≡◌, ◌≢◌, Bool, true, false, List, ◌∷◌, ◌++◌, map, ◌==◌, if◌then◌else◌,
  length,
}
use concurrent_request_orche.Memory.{
  Ptr, null, head_of, tail_of, Memory, Cmd, pure, ◌>>=◌, ◌>>◌, out_of_fuel, get_next, get_prev,
  get_data, get_count, set_next, set_prev, set_data, set_count, malloc, free,
}
use concurrent_request_orche.LinkedList.Chains.{has, Distinct, Chain}

unfoldable pub list_length : Ptr → Cmd ℕ
list_length list = get_count list

unfoldable pub list_is_empty : Ptr → Cmd Bool
list_is_empty list = do n ← get_count list; pure (n == 0)

-- `fresh` is what `malloc` returns.
unfoldable pub list_append : (fresh : Ptr) → Ptr → Ptr → Cmd Bool
list_append fresh list obj = do
  new_node ← malloc fresh
  if new_node == null then pure false else do
    set_data new_node obj
    set_next new_node (tail_of list)
    last ← get_prev (tail_of list)
    set_prev new_node last
    last' ← get_prev (tail_of list)
    set_next last' new_node
    set_prev (tail_of list) new_node
    n ← get_count list
    set_count list (n + 1)
    pure true

unfoldable pub list_append_left : (fresh : Ptr) → Ptr → Ptr → Cmd Bool
list_append_left fresh list obj = do
  new_node ← malloc fresh
  if new_node == null then pure false else do
    set_data new_node obj
    first ← get_next (head_of list)
    set_next new_node first
    set_prev new_node (head_of list)
    first' ← get_next (head_of list)
    set_prev first' new_node
    set_next (head_of list) new_node
    n ← get_count list
    set_count list (n + 1)
    pure true

unfoldable pub list_pop : Ptr → Cmd Ptr
unfolding list_is_empty
list_pop list = do
  empty ← list_is_empty list
  if empty then pure null else do
    last ← get_prev (tail_of list)
    before ← get_prev last
    set_next before (tail_of list)
    before' ← get_prev last
    set_prev (tail_of list) before'
    n ← get_count list
    set_count list (n - 1)
    pure last

unfoldable pub list_pop_left : Ptr → Cmd Ptr
unfolding list_is_empty
list_pop_left list = do
  empty ← list_is_empty list
  if empty then pure null else do
    first ← get_next (head_of list)
    after ← get_next first
    set_prev after (head_of list)
    after' ← get_next first
    set_next (head_of list) after'
    n ← get_count list
    set_count list (n - 1)
    pure first

-- The writes of `list_remove`, once its guard has passed.
unfoldable pub detach : (list node : Ptr) → Cmd (Unit {0})
detach list node = do
  before ← get_prev node
  after ← get_next node
  set_next before after
  after' ← get_next node
  before' ← get_prev node
  set_prev after' before'
  n ← get_count list
  set_count list (n - 1)
  free node

unfoldable pub list_remove : (list node : Ptr) → Cmd (Unit {0})
unfolding list_is_empty detach
list_remove list node =
    if node == null
    then pure tt
    else do empty ← list_is_empty list; if empty then pure tt else detach list node

list_clear_loop : ℕ → Ptr → Cmd (Unit {0})
list_clear_loop zero list = λ _. out_of_fuel
list_clear_loop (suc k) list = do
  empty ← list_is_empty list
  if empty then pure tt else do node ← list_pop_left list; free node; list_clear_loop k list

-- The loop makes one round for each member, so that many and one more are enough.
unfoldable pub list_clear : Ptr → Cmd (Unit {0})
unfolding list_clear_loop list_is_empty list_pop_left
list_clear list = do n ← get_count list; list_clear_loop (n + 1) list

unfoldable pub list_first : Ptr → Cmd Ptr
unfolding list_is_empty
list_first list = do
  empty ← list_is_empty list
  if empty then pure null else get_next (head_of list)

unfoldable pub list_last : Ptr → Cmd Ptr
unfolding list_is_empty
list_last list = do empty ← list_is_empty list; if empty then pure null else get_prev (tail_of list)

unfoldable pub list_next : (list node : Ptr) → Cmd Ptr
list_next list node = if list == null then pure null else if node == null then pure null else do
  n ← get_next node
  if n == null then pure null else if n == tail_of list then pure null else pure n

unfoldable pub list_prev : (list node : Ptr) → Cmd Ptr
list_prev list node = if list == null then pure null else if node == null then pure null else do
  n ← get_prev node
  if n == null then pure null else if n == head_of list then pure null else pure n

-- The loop runs on through the `tail` sentinel, whose `next` is `NULL`.
list_find_loop : ℕ → (curr wanted : Ptr) → Cmd Ptr
list_find_loop zero curr wanted = λ _. out_of_fuel
list_find_loop (suc k) curr wanted = if curr == null then pure null else do
  d ← get_data curr
  if d == wanted then pure curr else do n ← get_next curr; list_find_loop k n wanted

unfoldable pub list_find : (list wanted : Ptr) → Cmd Ptr
unfolding list_find_loop list_first
list_find list wanted = do
  n ← get_count list
  first ← list_first list
  list_find_loop (n + 2) first wanted

unfoldable pub list_init : Ptr → Cmd Bool
list_init list = if list == null then pure false else do
  set_count list 0
  set_next (head_of list) (tail_of list)
  set_prev (head_of list) null
  set_data (head_of list) null
  set_prev (tail_of list) (head_of list)
  set_next (tail_of list) null
  set_data (tail_of list) null
  pure true

-- What the memory holds when the list at `l` is well formed and its nodes are `nodes`, in order.
abbrev pub IsNode : Memory → Ptr → Ptr → Type 0
IsNode m l p = (m.allocated p ≡ true) × (p ≢ l) × (p ≢ head_of l) × (p ≢ tail_of l)

pub record IsList (m : Memory) (l : Ptr) (nodes : List Ptr) : Type 0 where
  pub null_free : m.allocated null ≡ false
  pub owns : m.allocated l ≡ true
  pub owns_head : m.allocated (head_of l) ≡ true
  pub owns_tail : m.allocated (tail_of l) ≡ true
  pub counted : m.members_count l ≡ length nodes
  pub chain : Chain m.next m.prev (head_of l) nodes (tail_of l)
  pub distinct : Distinct nodes
  pub nodes_ok : (p : Ptr) → has p nodes ≡ true → IsNode m l p
  pub ends : (m.prev (head_of l) ≡ null) × (m.next (tail_of l) ≡ null)
  pub blank : m.item (tail_of l) ≡ null

-- The data pointers of the nodes, in order: what the list holds.
abbrev pub items : Memory → List Ptr → List Ptr
items m nodes = map m.item nodes

-- The addresses that a list with the nodes `nodes` owns.
abbrev pub footprint : Ptr → List Ptr → List Ptr
footprint l nodes = l ∷ head_of l ∷ tail_of l ∷ nodes

abbrev pub SameAt : Memory → Memory → Ptr → Type 0
SameAt m m' p =
    (m'.next p ≡ m.next p)
    × (m'.prev p ≡ m.prev p)
    × (m'.item p ≡ m.item p)
    × (m'.members_count p ≡ m.members_count p)
    × (m'.last_interaction_time_us p ≡ m.last_interaction_time_us p)
    × (m'.allocated p ≡ m.allocated p)

-- Nothing is written outside `ps`.
abbrev pub SameOutside : List Ptr → Memory → Memory → Type 0
SameOutside ps m m' = (p : Ptr) → has p ps ≡ false → SameAt m m' p

-- An operation returned `r`, left the list at `l` with the nodes `after` and the items `xs`, and
-- wrote only to addresses of `owned`.
abbrev pub Leaves :
    {A : Type 0} → Memory → Ptr → (owned after xs : List Ptr) → A → A → Memory → Type 0
Leaves m l owned after xs r result m' =
    (result ≡ r) × IsList m' l after × (items m' after ≡ xs) × SameOutside owned m m'
