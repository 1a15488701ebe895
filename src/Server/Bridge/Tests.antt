-- ===== src/Server/Bridge/Tests.antt =====
-- Two clients, one after the other.
use concurrent_request_orche.Base.{◌≡◌, refl, List, [], ◌∷◌}
use concurrent_request_orche.Text.{codes}
use concurrent_request_orche.Server.Bridge.{Bridge, Event, opens, closes, sends, handle_all, wakeup}

abbrev idle_bridge : Bridge
idle_bridge = record { ws_conn_id = 0; woken = []; sent = [] }

abbrev traffic : List Event
traffic =
    sends (codes "lost")
    ∷ opens 3
    ∷ sends (codes "a")
    ∷ opens 5
    ∷ closes 3
    ∷ sends (codes "b")
    ∷ sends []
    ∷ closes 5
    ∷ sends (codes "c")
    ∷ []

who_got_what : (handle_all traffic idle_bridge).woken ≡ (3, codes "a") ∷ (5, codes "b") ∷ []
unfolding handle_all
who_got_what = refl

answered : (wakeup 5 (codes "b") idle_bridge).sent ≡ (5, codes "b") ∷ []
unfolding wakeup
answered = refl
