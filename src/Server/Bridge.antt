-- ===== src/Server/Bridge.antt =====
-- src/server.c: the one websocket client that is served, and the way of a message from any thread to
-- it. `mg_wakeup` of mongoose takes a connection and a text, and raises `MG_EV_WAKEUP` for that
-- connection in the thread of the event loop.
pub mod Delivery
mod Tests
use concurrent_request_orche.Base.{
  ℕ, zero, suc, ◌+◌, ◌==◌, Bool, true, false, not, List, [], ◌∷◌, ◌++◌, length, if◌then◌else◌,
}
use concurrent_request_orche.Text.{Text}

-- `g_ws_conn_id`, 0 for none; what was handed to `mg_wakeup`, and what to `mg_ws_send`.
pub record Bridge : Type 0 where
  pub ws_conn_id : ℕ
  pub woken : List (ℕ × Text)
  pub sent : List (ℕ × Text)

-- `MG_EV_WS_OPEN`.
unfoldable pub ws_open : (id : ℕ) → Bridge → Bridge
ws_open id b = record b { ws_conn_id = id }

-- `MG_EV_CLOSE`.
unfoldable pub close : (id : ℕ) → Bridge → Bridge
close id b = record b { ws_conn_id = if b.ws_conn_id == id then 0 else b.ws_conn_id }

-- `MG_EV_WAKEUP`.
unfoldable pub wakeup : (id : ℕ) → Text → Bridge → Bridge
wakeup id [] b = b
wakeup id (c ∷ t) b = record b { sent = b.sent ++ (id, c ∷ t) ∷ [] }

unfoldable pub ws_bridge_send_json_from_any_thread : Text → Bridge → Bridge
ws_bridge_send_json_from_any_thread [] b = b
ws_bridge_send_json_from_any_thread (c ∷ t) b =
    if b.ws_conn_id == 0 then b else record b { woken = b.woken ++ (b.ws_conn_id, c ∷ t) ∷ [] }

-- What happens to the bridge.
pub data Event : Type 0 where
  opens : (id : ℕ) → Event
  closes : (id : ℕ) → Event
  sends : Text → Event

unfoldable pub handle : Event → Bridge → Bridge
unfolding ws_open close ws_bridge_send_json_from_any_thread
handle (opens id) b = ws_open id b
handle (closes id) b = close id b
handle (sends t) b = ws_bridge_send_json_from_any_thread t b

unfoldable pub handle_all : List Event → Bridge → Bridge
unfolding handle
handle_all [] b = b
handle_all (e ∷ es) b = handle_all es (handle e b)
