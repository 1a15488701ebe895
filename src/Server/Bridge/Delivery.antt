-- ===== src/Server/Bridge/Delivery.antt =====
-- Who gets the messages of src/server.c: what `g_ws_conn_id` promises.
use concurrent_request_orche.Base.{
  ℕ, ◌≤◌, ◌≡◌, refl, ap, sym, ◌∙◌, ◌==◌, ==_iff, Bool, true, false, List, [], ◌∷◌, ◌++◌,
  append_assoc, append-nil, if◌then◌else◌, arith,
}
use concurrent_request_orche.Text.{Text}
use concurrent_request_orche.Server.Bridge.{
  Bridge, Event, opens, closes, sends, ws_open, close, ws_bridge_send_json_from_any_thread,
  handle_all,
}

-- The client that is served, by the events alone: the last that opened a websocket, until it closes
-- it. Nobody is 0.
abbrev pub served : (client : ℕ) → List Event → ℕ
served c [] = c
served c (opens id ∷ es) = served id es
served c (closes id ∷ es) = served (if c == id then 0 else c) es
served c (sends t ∷ es) = served c es

-- The messages with their addressees: those that are not empty, while a client is served.
abbrev pub delivered : (client : ℕ) → List Event → List (ℕ × Text)
delivered c [] = []
delivered c (opens id ∷ es) = delivered id es
delivered c (closes id ∷ es) = delivered (if c == id then 0 else c) es
delivered c (sends [] ∷ es) = delivered c es
delivered c (sends (x ∷ t) ∷ es) =
    let rest = delivered c es in if c == 0 then rest else (c, x ∷ t) ∷ rest

-- The bridge with one more message handed on.
abbrev handed : Text → Bridge → Bridge
handed t b = record b { woken = b.woken ++ (b.ws_conn_id, t) ∷ [] }

sending :
    (es : List Event) (b : Bridge) (t : Text) (nobody : Bool)
    → ((handle_all es b).ws_conn_id ≡ served b.ws_conn_id es)
      × ((handle_all es b).woken ≡ b.woken ++ delivered b.ws_conn_id es)
      × ((handle_all es b).sent ≡ b.sent)
    → ((handle_all es (handed t b)).ws_conn_id ≡ served b.ws_conn_id es)
      × ((handle_all es (handed t b)).woken
          ≡ (b.woken ++ (b.ws_conn_id, t) ∷ []) ++ delivered b.ws_conn_id es)
      × ((handle_all es (handed t b)).sent ≡ b.sent)
    → let rest = delivered b.ws_conn_id es in
      let b' : Bridge = if nobody then b else handed t b in
      ((handle_all es b').ws_conn_id ≡ served b.ws_conn_id es)
      × ((handle_all es b').woken ≡ b.woken ++ (if nobody then rest else (b.ws_conn_id, t) ∷ rest))
      × ((handle_all es b').sent ≡ b.sent)
sending es b t true h k = h
sending es b t false h k =
    (k.0, k.1 ∙ append_assoc b.woken ((b.ws_conn_id, t) ∷ []) (delivered b.ws_conn_id es), k.2)

-- The bridge does what `served` and `delivered` say.
pub handle_all_lem :
    (es : List Event) (b : Bridge)
    → ((handle_all es b).ws_conn_id ≡ served b.ws_conn_id es)
      × ((handle_all es b).woken ≡ b.woken ++ delivered b.ws_conn_id es)
      × ((handle_all es b).sent ≡ b.sent)
unfolding handle_all ws_open close ws_bridge_send_json_from_any_thread
handle_all_lem [] b = (refl, sym (append-nil b.woken), refl)
handle_all_lem (opens id ∷ es) b = handle_all_lem es (ws_open id b)
handle_all_lem (closes id ∷ es) b = handle_all_lem es (close id b)
handle_all_lem (sends [] ∷ es) b = handle_all_lem es b
handle_all_lem (sends (x ∷ t) ∷ es) b =
    sending es b (x ∷ t) (b.ws_conn_id == 0) (handle_all_lem es b)
      (handle_all_lem es (handed (x ∷ t) b))

-- Nobody opens a websocket, and the client does not close its own.
abbrev pub Undisturbed : (client : ℕ) → List Event → Type 0
Undisturbed c [] = Unit
Undisturbed c (opens id ∷ es) = ⊥
Undisturbed c (closes id ∷ es) = ((c == id) ≡ false) × Undisturbed c es
Undisturbed c (sends t ∷ es) = Undisturbed c es

-- The messages that are not empty.
abbrev pub messages : List Event → List Text
messages [] = []
messages (opens id ∷ es) = messages es
messages (closes id ∷ es) = messages es
messages (sends [] ∷ es) = messages es
messages (sends (x ∷ t) ∷ es) = (x ∷ t) ∷ messages es

abbrev pub addressed : (client : ℕ) → List Text → List (ℕ × Text)
addressed c [] = []
addressed c (t ∷ ts) = (c, t) ∷ addressed c ts

-- Up to the end of its session a client gets every message; what follows is another matter.
delivered-Undisturbed :
    (c : ℕ) (es rest : List Event)
    → (c == 0) ≡ false
    → Undisturbed c es
    → delivered c (es ++ rest) ≡ addressed c (messages es) ++ delivered c rest
delivered-Undisturbed c [] rest h u = refl
delivered-Undisturbed c (opens id ∷ es) rest h u = elim u [ ]
delivered-Undisturbed c (closes id ∷ es) rest h u =
    ap (λ (d : ℕ). delivered d (es ++ rest)) (rw (u.0) refl)
    ∙ delivered-Undisturbed c es rest h (u.1)
delivered-Undisturbed c (sends [] ∷ es) rest h u = delivered-Undisturbed c es rest h u
delivered-Undisturbed c (sends (x ∷ t) ∷ es) rest h u =
    rw h (ap (◌∷◌ (c, x ∷ t)) (delivered-Undisturbed c es rest h u))

-- Without a client nothing is handed on.
delivered-nobody : (es : List Event) → Undisturbed 0 es → delivered 0 es ≡ []
delivered-nobody [] u = refl
delivered-nobody (opens id ∷ es) u = elim u [ ]
delivered-nobody (closes id ∷ es) u = rw (u.0) (delivered-nobody es (u.1))
delivered-nobody (sends [] ∷ es) u = delivered-nobody es u
delivered-nobody (sends (x ∷ t) ∷ es) u = delivered-nobody es u

-- From the opening of a client's websocket to its closing, with no other opening in between, exactly
-- the messages that are not empty are handed on, in order and each to that client; and none is handed
-- on after the closing, until there is another opening. Ids are not 0.
pub client_session :
    (c : ℕ) (es after : List Event) (b : Bridge)
    → 1 ≤ c
    → Undisturbed c es
    → Undisturbed 0 after
    → (handle_all (opens c ∷ (es ++ closes c ∷ after)) b).woken
      ≡ b.woken ++ addressed c (messages es)
client_session c es after b h u v =
    let some_client : (c == 0) ≡ false = ground arith in
    let same : (c == c) ≡ true = (==_iff c c).1 refl in
    (handle_all_lem (opens c ∷ (es ++ closes c ∷ after)) b).1
    ∙ ap (◌++◌ b.woken) (
        delivered-Undisturbed c es (closes c ∷ after) some_client u
        ∙ rw (same, delivered-nobody after v) (append-nil (addressed c (messages es))))
