-- ===== src/LinkedList/Tests.antt =====
-- Runs of src/linked_list.c at small lists, and the theorems at such a list.
use concurrent_request_orche.Base.{ℕ, ◌≡◌, refl, true, false, [], ◌∷◌, arith}
use concurrent_request_orche.Memory.{
  Ptr, null, update, Memory, done, fault, pure, ◌>>=◌, ◌>>◌, Returns, Cmd, get_next, get_prev,
  get_count, set_next, set_prev, set_data, set_count, malloc, free,
}
use concurrent_request_orche.LinkedList.{
  list_length, list_is_empty, list_append, list_append_left, list_pop, list_pop_left, list_remove,
  list_clear, list_first, list_last, list_find, list_init, IsList, footprint, SameOutside, Leaves,
}
use concurrent_request_orche.LinkedList.Init.{list_init_lem}
use concurrent_request_orche.LinkedList.Insert.{list_append_lem}
use concurrent_request_orche.LinkedList.Remove.{list_remove_lem, list_pop_lem}
use concurrent_request_orche.LinkedList.Clear.{Cleared, list_clear_lem}
use concurrent_request_orche.LinkedList.Walk.{ends_lem}
use concurrent_request_orche.LinkedList.Find.{list_find_lem}

-- A list struct at 10 whose memory holds nothing of use yet.
abbrev blank : Memory
blank = record {
  next = λ _. 99;
  prev = λ _. 99;
  item = λ _. 99;
  members_count = λ _. 99;
  last_interaction_time_us = λ _. 0;
  allocated = update (update (update (λ _. false) 10 true) 11 true) 12 true;
}

-- The list at 10 with the items 7 and 8 in the nodes 20 and 21.
abbrev pair : Memory
pair = record {
  next = update (update (update (update (λ _. 0) 11 20) 20 21) 21 12) 12 0;
  prev = update (update (update (update (λ _. 0) 12 21) 21 20) 20 11) 11 0;
  item = update (update (λ _. 0) 20 7) 21 8;
  members_count = update (λ _. 0) 10 2;
  last_interaction_time_us = λ _. 5;
  allocated =
      update (update (update (update (update (λ _. false) 10 true) 11 true) 12 true) 20 true) 21
        true;
}

pub pair-IsList : IsList pair 10 (20 ∷ 21 ∷ [])
pair-IsList = record {
  null_free = refl;
  owns = refl;
  owns_head = refl;
  owns_tail = refl;
  counted = refl;
  chain = (refl, refl, (refl, refl, (refl, refl)));
  distinct = (refl, (refl, tt));
  nodes_ok = λ p h. ground arith;
  ends = (refl, refl);
  blank = refl;
}

-- Six calls in a row, from a list struct that was never set up.
session : Cmd (Ptr × Ptr × ℕ)
unfolding list_init list_append list_append_left list_pop list_pop_left list_length malloc set_data
    set_next set_prev get_next get_prev get_count set_count
session = do
  _ ← list_init 10
  _ ← list_append 20 10 7
  _ ← list_append 21 10 8
  _ ← list_append_left 22 10 6
  first ← list_pop_left 10
  last ← list_pop 10
  n ← list_length 10
  pure (first, last, n)

session_result :
    Returns (λ r m. (r ≡ (22, 21, 1)) × (m.item 22 ≡ 6) × (m.item 21 ≡ 8)) (session blank)
unfolding session
session_result = (refl, refl, refl)

-- A second `list_remove` of one node is an access to freed memory.
remove_twice : (list_remove 10 20 >> list_remove 10 20) pair ≡ fault
unfolding list_remove get_prev get_next set_next set_prev get_count set_count free
remove_twice = refl

list_init_example :
    Returns
      (λ b m'. (b ≡ true) × IsList m' 10 [] × SameOutside (footprint 10 []) blank m')
      (list_init 10 blank)
list_init_example = list_init_lem blank 10 (refl, refl, refl, refl)

list_append_example :
    Returns
      (Leaves pair 10 (10 ∷ 11 ∷ 12 ∷ 20 ∷ 21 ∷ 22 ∷ []) (20 ∷ 21 ∷ 22 ∷ []) (7 ∷ 8 ∷ 9 ∷ []) true)
      (list_append 22 10 9 pair)
list_append_example = list_append_lem pair-IsList 22 9 (omega arith, refl)

list_remove_example :
    Returns
      (λ r m'.
        Leaves pair 10 (10 ∷ 11 ∷ 12 ∷ 20 ∷ 21 ∷ []) (21 ∷ []) (8 ∷ []) tt r m'
        × (m'.allocated 20 ≡ false))
      (list_remove 10 20 pair)
list_remove_example = list_remove_lem [] 20 (21 ∷ []) pair-IsList

list_pop_example :
    Returns
      (λ r m'.
        Leaves pair 10 (10 ∷ 11 ∷ 12 ∷ 20 ∷ 21 ∷ []) (20 ∷ []) (7 ∷ []) 21 r m'
        × (m'.allocated 21 ≡ true)
        × (m'.item 21 ≡ 8))
      (list_pop 10 pair)
list_pop_example = list_pop_lem (20 ∷ []) 21 pair-IsList

list_clear_example : Returns (Cleared pair 10 (20 ∷ 21 ∷ [])) (list_clear 10 pair)
list_clear_example = list_clear_lem pair-IsList

list_ends_example :
    (list_length 10 pair ≡ done 2 pair)
    × (list_is_empty 10 pair ≡ done false pair)
    × (list_first 10 pair ≡ done 20 pair)
    × (list_last 10 pair ≡ done 21 pair)
list_ends_example = ends_lem (20 ∷ 21 ∷ []) pair-IsList

list_find_example : list_find 10 8 pair ≡ done 21 pair
list_find_example = list_find_lem 8 (20 ∷ 21 ∷ []) pair-IsList

-- A search for `NULL` returns the sentinel at 12.
find_null : list_find 10 null pair ≡ done 12 pair
find_null = list_find_lem null (20 ∷ 21 ∷ []) pair-IsList
