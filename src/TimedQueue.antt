-- ===== src/TimedQueue.antt =====
-- The timed queue of src/timed_queue.c: a list with the time of its last change beside it. `now` is
-- what `get_time_in_us` returns in the call.
pub mod Contract
mod Tests
use concurrent_request_orche.Base.{ℕ, Bool, true, false, ◌==◌, if◌then◌else◌}
use concurrent_request_orche.Memory.{Ptr, null, Cmd, pure, ◌>>=◌, ◌>>◌, set_time}
use concurrent_request_orche.LinkedList.{
  list_length, list_is_empty, list_append, list_append_left, list_pop, list_pop_left, list_remove,
  list_clear, list_first, list_last, list_next, list_prev, list_find, list_init,
}

unfoldable pub timed_queue_init : (now : ℕ) → Ptr → Cmd Bool
timed_queue_init now tq =
    if tq == null
    then pure false
    else do result ← list_init tq; if result then (do set_time tq now; pure result) else pure result

unfoldable pub timed_queue_length : Ptr → Cmd ℕ
timed_queue_length tq = if tq == null then pure 0 else list_length tq

unfoldable pub timed_queue_is_empty : Ptr → Cmd Bool
timed_queue_is_empty tq = if tq == null then pure true else list_is_empty tq

unfoldable pub timed_queue_enqueue : (now fresh : ℕ) → (tq item : Ptr) → Cmd Bool
timed_queue_enqueue now fresh tq item = if tq == null then pure false else do
  result ← list_append fresh tq item
  if result then (do set_time tq now; pure result) else pure result

unfoldable pub timed_queue_enqueue_front : (now fresh : ℕ) → (tq item : Ptr) → Cmd Bool
timed_queue_enqueue_front now fresh tq item = if tq == null then pure false else do
  result ← list_append_left fresh tq item
  if result then (do set_time tq now; pure result) else pure result

unfoldable pub timed_queue_dequeue : (now : ℕ) → Ptr → Cmd Ptr
timed_queue_dequeue now tq =
    if tq == null
    then pure null
    else do node ← list_pop tq; if node == null then pure node else do set_time tq now; pure node

unfoldable pub timed_queue_dequeue_front : (now : ℕ) → Ptr → Cmd Ptr
timed_queue_dequeue_front now tq = if tq == null then pure null else do
  node ← list_pop_left tq
  if node == null then pure node else do set_time tq now; pure node

unfoldable pub timed_queue_remove : (now : ℕ) → (tq node : Ptr) → Cmd (Unit {0})
timed_queue_remove now tq node =
    if tq == null
    then pure tt
    else if node == null
    then pure tt
    else do list_remove tq node; set_time tq now

unfoldable pub timed_queue_clear : (now : ℕ) → Ptr → Cmd (Unit {0})
timed_queue_clear now tq = if tq == null then pure tt else do list_clear tq; set_time tq now

unfoldable pub timed_queue_first : Ptr → Cmd Ptr
timed_queue_first tq = if tq == null then pure null else list_first tq

unfoldable pub timed_queue_last : Ptr → Cmd Ptr
timed_queue_last tq = if tq == null then pure null else list_last tq

unfoldable pub timed_queue_find : (tq wanted : Ptr) → Cmd Ptr
timed_queue_find tq wanted = if tq == null then pure null else list_find tq wanted

unfoldable pub timed_queue_next : (tq node : Ptr) → Cmd Ptr
timed_queue_next tq node = if tq == null then pure null else list_next tq node

unfoldable pub timed_queue_prev : (tq node : Ptr) → Cmd Ptr
timed_queue_prev tq node = if tq == null then pure null else list_prev tq node
