-- ===== src/Memory.antt =====
-- The memory that the list code of src/linked_list.c and src/timed_queue.c works on: nodes and list
-- structs at addresses, one map for each field, and the commands that read and write them.
--
-- A `linked_list_t` at address `l` has `members_count` at `l`, its `head` sentinel at `l + 1` and its
-- `tail` sentinel at `l + 2`; a `timed_queue_t` is such a struct with a time stamp beside it. An access
-- to an address that is not allocated is a fault, and so is a second `free`.
use concurrent_request_orche.Base.{ℕ, ◌+◌, Bool, true, false, ◌==◌, if◌then◌else◌}

abbrev pub Ptr : Type 0
Ptr = ℕ

abbrev pub null : Ptr
null = 0

abbrev pub head_of : Ptr → Ptr
head_of l = l + 1

abbrev pub tail_of : Ptr → Ptr
tail_of l = l + 2

abbrev pub update {ℓ} : {A : Type ℓ} → (Ptr → A) → Ptr → A → Ptr → A
update f p v q = if q == p then v else f q

pub record Memory : Type 0 where
  pub next : Ptr → Ptr
  pub prev : Ptr → Ptr
  pub item : Ptr → Ptr
  pub members_count : Ptr → ℕ
  pub last_interaction_time_us : Ptr → ℕ
  pub allocated : Ptr → Bool

pub data Run (A : Type 0) : Type 0 where
  done : A → Memory → Run A
  fault : Run A
  out_of_fuel : Run A

abbrev pub Cmd : Type 0 → Type 0
Cmd A = Memory → Run A

abbrev pub pure : {A : Type 0} → A → Cmd A
pure a m = done a m

module _ {A B : Type 0} where
  abbrev pub and_then : Run A → (A → Cmd B) → Run B
  and_then (done a m) k = k a m
  and_then fault k = fault
  and_then out_of_fuel k = out_of_fuel

  infixl 5 ◌>>=◌ ◌>>◌
  abbrev pub ◌>>=◌ : Cmd A → (A → Cmd B) → Cmd B
  ◌>>=◌ c k m = and_then (c m) k

  abbrev pub ◌>>◌ : Cmd A → Cmd B → Cmd B
  c >> d = c >>= λ _. d

-- Total correctness: the run ends without a fault, and its result and memory satisfy `P`.
abbrev pub Returns : {A : Type 0} → (A → Memory → Type 0) → Run A → Type 0
Returns P (done a m) = P a m
Returns P fault = ⊥
Returns P out_of_fuel = ⊥

pub Returns-mono :
    {A : Type 0} (P Q : A → Memory → Type 0) (r : Run A)
    → Returns P r
    → ((a : A) (m : Memory) → P a m → Q a m)
    → Returns Q r
Returns-mono P Q (done a m) h weaken = weaken a m h
Returns-mono P Q fault h weaken = h
Returns-mono P Q out_of_fuel h weaken = h

pub Returns-bind :
    {A B : Type 0} (P : A → Memory → Type 0) (Q : B → Memory → Type 0) (r : Run A) (k : A → Cmd B)
    → Returns P r
    → ((a : A) (m : Memory) → P a m → Returns Q (k a m))
    → Returns Q (and_then r k)
Returns-bind P Q (done a m) k h then_ = then_ a m h
Returns-bind P Q fault k h then_ = absurd h
Returns-bind P Q out_of_fuel k h then_ = absurd h

abbrev checked : {A : Type 0} → Ptr → (Memory → A) → (Memory → Memory) → Cmd A
checked p result change m = if m.allocated p then done (result m) (change m) else fault

unfoldable pub get_next : Ptr → Cmd Ptr
get_next p = checked p (λ m. m.next p) (λ m. m)

unfoldable pub get_prev : Ptr → Cmd Ptr
get_prev p = checked p (λ m. m.prev p) (λ m. m)

unfoldable pub get_data : Ptr → Cmd Ptr
get_data p = checked p (λ m. m.item p) (λ m. m)

unfoldable pub get_count : Ptr → Cmd ℕ
get_count l = checked l (λ m. m.members_count l) (λ m. m)

unfoldable pub set_next : Ptr → Ptr → Cmd (Unit {0})
set_next p q = checked p (λ _. tt) (λ m. record m { next = update m.next p q })

unfoldable pub set_prev : Ptr → Ptr → Cmd (Unit {0})
set_prev p q = checked p (λ _. tt) (λ m. record m { prev = update m.prev p q })

unfoldable pub set_data : Ptr → Ptr → Cmd (Unit {0})
set_data p d = checked p (λ _. tt) (λ m. record m { item = update m.item p d })

unfoldable pub set_count : Ptr → ℕ → Cmd (Unit {0})
set_count l n = checked l (λ _. tt) (λ m. record m { members_count = update m.members_count l n })

unfoldable pub set_time : Ptr → ℕ → Cmd (Unit {0})
set_time l t =
    checked l (λ _. tt)
      (λ m. record m { last_interaction_time_us = update m.last_interaction_time_us l t })

-- `malloc` hands out the address `fresh`, or `null` on failure; the allocator chooses it.
unfoldable pub malloc : (fresh : Ptr) → Cmd Ptr
malloc fresh m =
    if fresh == null
    then done null m
    else done fresh (record m { allocated = update m.allocated fresh true })

unfoldable pub free : Ptr → Cmd (Unit {0})
free p = checked p (λ _. tt) (λ m. record m { allocated = update m.allocated p false })
