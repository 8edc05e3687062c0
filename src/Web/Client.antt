-- ===== src/Web/Client.antt =====
-- apps/web/src/lib/apiClient.ts: the axios engine with its response interceptor, as a machine whose
-- steps are the calls of the application, the answers, and the end of a refresh. A call is marked
-- `retried` (`_retry`) before it waits for the refresh, and is sent again once.
pub mod Flight
use devops_lab.Prelude.{
  ℕ, zero, suc, Bool, true, false, not, ◌&&◌, ◌||◌, Option, none, some, String, string_eq, nat_eq,
  ◌==◌, List, [], ◌∷◌, ◌++◌, map, or_else, if◌then◌else◌,
}

-- What `url.includes` tells apart.
pub data Route : Type 0 where
  refresh_route login_route other_route : Route

abbrev pub is_auth_route : Route → Bool
is_auth_route refresh_route = true
is_auth_route login_route = true
is_auth_route other_route = false

pub record Call : Type 0 where
  pub id : ℕ
  pub route : Route
  pub retried : Bool

-- The body of an error, a missing field as "".
pub record ErrorBody : Type 0 where
  pub error : String
  pub message : String
  pub code : String

pub record ApiError : Type 0 where
  pub message : String
  pub status : ℕ
  pub code : String

-- A response within the 2xx range, or an error with its response's status and body, if there are.
pub data CallAnswer : Type 0 where
  success : CallAnswer
  failed : Option ℕ → Option ErrorBody → CallAnswer

pub data CallOutcome : Type 0 where
  resolved : CallOutcome
  rejected : ApiError → CallOutcome

-- `a || b`
abbrev pub or_text : String → String → String
or_text a b = if a == "" then b else a

abbrev pub is_gateway : ℕ → Bool
is_gateway n = n == 502 || (n == 503 || n == 504)

-- A status of 0 counts as none.
abbrev pub status_of : Option ℕ → ℕ
status_of none = 500
status_of (some n) = if n == 0 then 500 else n

-- The error that the interceptor rejects with.
unfoldable pub api_error : Option ℕ → Option ErrorBody → ApiError
api_error status (some b) = record {
  message = or_text b.error (or_text b.message "Request failed");
  status = status_of status;
  code = b.code;
}
api_error status none = record {
  message =
      if is_gateway (status_of status)
      then "Service unavailable - backend may not be running"
      else "Request failed";
  status = status_of status;
  code = "";
}

-- The calls on the wire, those that wait for the refresh with the error that they came with,
-- whether `refreshPromise` is set, the refreshes posted and settled, the calls made, the requests
-- sent, and the outcomes.
pub record Waiter : Type 0 where
  pub call : Call
  pub error : ApiError

pub record Settled : Type 0 where
  pub id : ℕ
  pub outcome : CallOutcome

pub record Client : Type 0 where
  pub pending : List Call
  pub waiting : List Waiter
  pub refreshing : Bool
  pub posted : ℕ
  pub finished : ℕ
  pub calls : List ℕ
  pub sends : List ℕ
  pub settled : List Settled

abbrev pub idle_client : Client
idle_client = record {
  pending = [];
  waiting = [];
  refreshing = false;
  posted = 0;
  finished = 0;
  calls = [];
  sends = [];
  settled = [];
}

-- The n-th call on the wire is answered.
pub data ClientEvent : Type 0 where
  called : ℕ → Route → ClientEvent
  answered : ℕ → CallAnswer → ClientEvent
  refreshed : Bool → ClientEvent

abbrev pub new_call : ℕ → Route → Call
new_call id route = record { id = id; route = route; retried = false }

abbrev pub settle : ℕ → CallOutcome → List Settled → List Settled
settle id o l = record { id = id; outcome = o } ∷ l

-- `engine(request)`
unfoldable pub send_call : Call → Client → Client
send_call c s = record s { pending = c ∷ s.pending; sends = c.id ∷ s.sends }

-- `await refreshTokens()`: the refresh on its way, or a new one.
unfoldable pub await_refresh : Waiter → Client → Client
await_refresh w s =
    let s' = record s { waiting = w ∷ s.waiting } in
    if s.refreshing then s' else record s' { refreshing = true; posted = suc s.posted }

abbrev pub is_401 : Option ℕ → Bool
is_401 none = false
is_401 (some n) = n == 401

-- The interceptor, for the answer to a call that is off the wire.
unfoldable pub on_answer : Call → CallAnswer → Client → Client
unfolding await_refresh
on_answer c success s = record s { settled = settle c.id resolved s.settled }
on_answer c (failed status body) s =
    let e = api_error status body in
    if is_401 status && (not (is_auth_route c.route) && not c.retried)
    then await_refresh (record { call = record c { retried = true }; error = e }) s
    else record s { settled = settle c.id (rejected e) s.settled }

unfoldable pub pick : ℕ → List Call → Option (Call × List Call)
pick n [] = none
pick zero (c ∷ cs) = some (c, cs)
pick (suc n) (c ∷ cs) = elim (pick n cs) [ none ↦ none | some (d, rest) ↦ some (d, c ∷ rest) ]

-- The refresh ends: the waiting calls are sent again, or rejected with their errors.
unfoldable pub release : Bool → List Waiter → Client → Client
unfolding send_call
release ok [] s = s
release ok (w ∷ ws) s =
    let next =
      if ok
      then send_call w.call s
      else record s { settled = settle w.call.id (rejected w.error) s.settled } in
    release ok ws next

unfoldable pub client_step : ClientEvent → Client → Client
unfolding send_call on_answer pick release
client_step (called id route) s = send_call (new_call id route) (record s { calls = id ∷ s.calls })
client_step (answered n a) s = elim (pick n s.pending) [
  | none ↦ s
  | some (c, rest) ↦ on_answer c a (record s { pending = rest })
]
client_step (refreshed ok) s =
    if s.refreshing
    then release ok s.waiting
        (record s { waiting = []; refreshing = false; finished = suc s.finished })
    else s

unfoldable pub client_run : List ClientEvent → Client → Client
unfolding client_step
client_run [] s = s
client_run (e ∷ es) s = client_run es (client_step e s)
