-- ===== src/TimedQueue/Tests.antt =====
-- The theorems on src/timed_queue.c at a queue of two items.
use concurrent_request_orche.Base.{◌≡◌, refl, true, false, [], ◌∷◌, arith}
use concurrent_request_orche.Memory.{update, Memory, Returns}
use concurrent_request_orche.TimedQueue.{
  timed_queue_init, timed_queue_enqueue, timed_queue_enqueue_front, timed_queue_dequeue,
  timed_queue_dequeue_front, timed_queue_remove,
}
use concurrent_request_orche.TimedQueue.Contract.{
  Holds, timed_queue_init_lem, timed_queue_enqueue_lem, timed_queue_enqueue_front_lem,
  timed_queue_dequeue_front_lem, timed_queue_dequeue_lem, timed_queue_remove_lem,
}

-- The queue at 10 with the items 7 and 8, last changed at the time 5.
abbrev two : Memory
two = record {
  next = update (update (update (update (λ _. 0) 11 20) 20 21) 21 12) 12 0;
  prev = update (update (update (update (λ _. 0) 12 21) 21 20) 20 11) 11 0;
  item = update (update (λ _. 0) 20 7) 21 8;
  members_count = update (λ _. 0) 10 2;
  last_interaction_time_us = λ _. 5;
  allocated =
      update (update (update (update (update (λ _. false) 10 true) 11 true) 12 true) 20 true) 21
        true;
}

two-Holds : Holds two 10 (20 ∷ 21 ∷ []) (7 ∷ 8 ∷ []) 5
two-Holds = record {
  list = record {
    null_free = refl;
    owns = refl;
    owns_head = refl;
    owns_tail = refl;
    counted = refl;
    chain = (refl, refl, (refl, refl, (refl, refl)));
    distinct = (refl, (refl, tt));
    nodes_ok = λ p h. ground arith;
    ends = (refl, refl);
    blank = refl;
  };
  held = refl;
  stamped = refl;
}

timed_queue_init_example :
    Returns (λ b m'. (b ≡ true) × Holds m' 10 [] [] 6) (timed_queue_init 6 10 two)
timed_queue_init_example = timed_queue_init_lem two 10 6 (refl, refl, refl, refl)

timed_queue_enqueue_example :
    Returns
      (λ b m'. (b ≡ true) × Holds m' 10 (20 ∷ 21 ∷ 22 ∷ []) (7 ∷ 8 ∷ 9 ∷ []) 6)
      (timed_queue_enqueue 6 22 10 9 two)
timed_queue_enqueue_example = timed_queue_enqueue_lem two-Holds 6 22 9 (omega arith, refl)

timed_queue_enqueue_front_example :
    Returns
      (λ b m'. (b ≡ true) × Holds m' 10 (22 ∷ 20 ∷ 21 ∷ []) (9 ∷ 7 ∷ 8 ∷ []) 6)
      (timed_queue_enqueue_front 6 22 10 9 two)
timed_queue_enqueue_front_example =
    timed_queue_enqueue_front_lem two-Holds 6 22 9 (omega arith, refl)

timed_queue_dequeue_front_example :
    Returns
      (λ r m'.
        (r ≡ 20) × (m'.allocated 20 ≡ true) × (m'.item 20 ≡ 7) × Holds m' 10 (21 ∷ []) (8 ∷ []) 6)
      (timed_queue_dequeue_front 6 10 two)
timed_queue_dequeue_front_example =
    timed_queue_dequeue_front_lem 6 20 (21 ∷ []) 7 (8 ∷ []) two-Holds

timed_queue_dequeue_example :
    Returns
      (λ r m'.
        (r ≡ 21) × (m'.allocated 21 ≡ true) × (m'.item 21 ≡ 8) × Holds m' 10 (20 ∷ []) (7 ∷ []) 6)
      (timed_queue_dequeue 6 10 two)
timed_queue_dequeue_example = timed_queue_dequeue_lem 6 21 (20 ∷ []) 8 (7 ∷ []) two-Holds

timed_queue_remove_example :
    Returns
      (λ _ m'. Holds m' 10 (21 ∷ []) (8 ∷ []) 6 × (m'.allocated 20 ≡ false))
      (timed_queue_remove 6 10 20 two)
timed_queue_remove_example = timed_queue_remove_lem 6 [] 20 (21 ∷ []) two-Holds
