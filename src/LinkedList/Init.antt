-- ===== src/LinkedList/Init.antt =====
-- `list_init` of src/linked_list.c.
use concurrent_request_orche.Base.{◌≡◌, refl, true, false, [], arith}
use concurrent_request_orche.Memory.{
  Ptr, null, head_of, tail_of, update, Memory, done, Returns, set_next, set_prev, set_data,
  set_count,
}
use concurrent_request_orche.LinkedList.{list_init, IsList, footprint, SameOutside}

-- A list struct whose memory the caller owns.
abbrev pub IsStruct : Memory → Ptr → Type 0
IsStruct m l =
    (m.allocated null ≡ false)
    × (m.allocated l ≡ true)
    × (m.allocated (head_of l) ≡ true)
    × (m.allocated (tail_of l) ≡ true)

abbrev initialised : Memory → Ptr → Memory
initialised m l = record m {
  next = update (update m.next (head_of l) (tail_of l)) (tail_of l) null;
  prev = update (update m.prev (head_of l) null) (tail_of l) (head_of l);
  item = update (update m.item (head_of l) null) (tail_of l) null;
  members_count = update m.members_count l 0;
}

list_init-run : (m : Memory) (l : Ptr) → IsStruct m l → list_init l m ≡ done true (initialised m l)
unfolding list_init set_count set_next set_prev set_data
list_init-run m l h = ground arith

initialised-IsList : (m : Memory) (l : Ptr) → IsStruct m l → IsList (initialised m l) l []
initialised-IsList m l h = record {
  null_free = h.0;
  owns = h.1;
  owns_head = h.2;
  owns_tail = h.3;
  counted = ground arith;
  chain = ground arith;
  distinct = tt;
  nodes_ok = λ p i. cc;
  ends = ground arith;
  blank = ground arith;
}

-- `list_init` turns any list struct, whatever it held before, into an empty list, reports success
-- and writes nothing outside the struct.
pub list_init_lem :
    (m : Memory) (l : Ptr)
    → IsStruct m l
    → Returns
        (λ b m'. (b ≡ true) × IsList m' l [] × SameOutside (footprint l []) m m')
        (list_init l m)
list_init_lem m l h = rw (list_init-run m l h) (refl, initialised-IsList m l h, λ p i. ground arith)
