-- ===== src/Ws/Machine.antt =====
-- `AdminWS` (admin-web/src/lib/ws.ts). A socket is the number of its `new WebSocket`; a listener
-- function is a number too, and a listener throws nothing. `endpoint` makes the URL of a token: the
-- environment's base, resolved against the page, and `encodeURIComponent`.
use hr_profi_uz.Common.{
  true, Bool, none, List, ℕ, Option, String, filter_by, [], some, false, if◌then◌else◌, insert,
  ◌===◌, not, is_some, ◌+◌, is_blank, any, lookup, ◌∷◌, ◌==◌, ◌&&◌, ◌++◌,
}

-- What a frame is after `JSON.parse`: an object with its `event`, or anything else.
pub data Frame : Type 0 where
  malformed : Frame
  envelope : (event : Option String) → Frame

pub record AdminWs : Type 0 where
  pub url : Option String
  pub socket : Option ℕ
  pub listeners : List (String × List ℕ)
  pub reconnect_timer : Bool
  pub current_token : Option String
  pub explicitly_closed : Bool
  pub created : ℕ  -- how many sockets were made
  pub connected : List ℕ  -- sockets that were neither closed nor told to close, newest first

unfoldable pub initial : AdminWs
initial = record {
  url = none;
  socket = none;
  listeners = [];
  reconnect_timer = false;
  current_token = none;
  explicitly_closed = false;
  created = 0;
  connected = [];
}

abbrev pub without : ℕ → List ℕ → List ℕ
without n xs = filter_by (λ m. not (m == n)) xs

-- `_scheduleReconnect`: a timer that is set is left.
unfoldable pub schedule_reconnect : AdminWs → AdminWs
schedule_reconnect s = record s { reconnect_timer = true }

-- `_open`; `refused` says that the constructor throws.
unfoldable pub open_socket : Bool → AdminWs → AdminWs
unfolding schedule_reconnect
open_socket refused s = elim s.url [
  | none ↦ s
  | some url ↦ if refused then schedule_reconnect s else record s {
    socket = some s.created;
    created = s.created + 1;
    connected = s.created ∷ s.connected;
  }
]

-- `socket.close()`: the socket's `onclose` runs later.
abbrev pub told_to_close : Option ℕ → List ℕ → List ℕ
told_to_close none xs = xs
told_to_close (some n) xs = without n xs

unfoldable pub disconnect : AdminWs → AdminWs
disconnect s = record s {
  explicitly_closed = true;
  reconnect_timer = false;
  connected = told_to_close s.socket s.connected;
  socket = none;
  current_token = none;
}

abbrev pub is_token : Option String → String → Bool
is_token none token = false
is_token (some t) token = t === token

unfoldable pub connect : (String → String) → String → Bool → AdminWs → AdminWs
unfolding disconnect open_socket
connect endpoint token refused s =
    let closed = disconnect s in
    if is_some s.socket && is_token s.current_token token
    then s
    else open_socket refused (record closed {
      current_token = some token;
      explicitly_closed = false;
      url = some (endpoint token);
    })

-- The `onclose` of the `n`-th socket.
unfoldable pub on_close : ℕ → AdminWs → AdminWs
unfolding schedule_reconnect
on_close n s =
    let s' = record s { socket = none; connected = without n s.connected } in
    if s.explicitly_closed then s' else schedule_reconnect s'

-- The function that the timer runs.
unfoldable pub on_timer : Bool → AdminWs → AdminWs
unfolding open_socket
on_timer refused s =
    if s.reconnect_timer then open_socket refused (record s { reconnect_timer = false }) else s

abbrev pub subscribers : Option (List ℕ) → List ℕ
subscribers none = []
subscribers (some fns) = fns

-- A `Set` keeps a function once.
abbrev pub add_fn : ℕ → List ℕ → List ℕ
add_fn fn fns = if any (λ m. m == fn) fns then fns else fns ++ fn ∷ []

-- `on`, and the function that it returns.
unfoldable pub on : String → ℕ → AdminWs → AdminWs
on event fn s = record s {
  listeners = insert event (add_fn fn (subscribers (lookup event s.listeners))) s.listeners;
}

unfoldable pub off : String → ℕ → AdminWs → AdminWs
off event fn s = record s {
  listeners = insert event (without fn (subscribers (lookup event s.listeners))) s.listeners;
}

-- `_onMessage`: the listeners that are called, in order.
unfoldable pub on_message : Frame → AdminWs → List ℕ
on_message malformed s = []
on_message (envelope none) s = []
on_message (envelope (some event)) s =
    if is_blank event
    then []
    else subscribers (lookup event s.listeners) ++ subscribers (lookup "*" s.listeners)
