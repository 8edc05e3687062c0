-- ===== src/Tests/WebTests.antt =====
-- The terminal's machine and the guest roadmap at concrete inputs.
use devops_lab.Prelude.{List, ◌≡◌, refl, true, false, none, some, [], ◌∷◌, arith}
use devops_lab.Web.Client.{
  ClientEvent, called, answered, refreshed, other_route, failed, success, idle_client, client_run,
}
use devops_lab.Web.Client.Flight.{IsSingleFlight, IsAccounted, client_run-IsAccounted}
use devops_lab.Web.Terminal.{
  Machine, SessionInfo, connected, sandbox_lost, ws_closed, ws_message, progress, ws_opened,
  timer_fired, terminate_clicked, terminate_done, step,
}
use devops_lab.Web.Terminal.Runs.{run, IsBounded, run-IsBounded}
use devops_lab.Web.Terminal.Attempts.{attempts, attempts-lost, terminate-returns}
use devops_lab.Web.Roadmap.{
  RoadmapProgress, GuestProgress, garbage, merge_progress, includes, get_progress, save_progress,
  read_as,
}
use devops_lab.Web.Roadmap.Merge.{merge_progress-members}
use devops_lab.Web.Roadmap.Saved.{get_progress-save_progress}

abbrev info : SessionInfo
info = record { session_id = "s1"; terminal_url = "ws://lab/s1"; token = none }

abbrev online : Machine
online = record {
  state = connected;
  session = some info;
  attempt = 4;
  validation = none;
  is_validating = false;
  error_message = none;
  progress_events = [];
  ttl_warning = none;
  isolation_downgraded = false;
  socket = some (record { url = "ws://lab/s1"; bearer = none });
  pending = [];
  timer = none;
  next_timer = 3;
  intentional_close = false;
}

run-IsBounded_example :
    IsBounded
      (run none (ws_closed 1006 5 ∷ timer_fired 3 ∷ ws_closed 1006 7 ∷ ws_opened ∷ []) online)
run-IsBounded_example =
    run-IsBounded none (ws_closed 1006 5 ∷ timer_fired 3 ∷ ws_closed 1006 7 ∷ ws_opened ∷ []) online
      (omega arith, (tt, (omega arith, (tt, tt)))) (record { budget = omega arith; delays = tt })

online-ready : (step none (ws_message (progress "READY" "go")) online).state ≡ connected
unfolding step
online-ready = refl

attempts-lost_example :
    (step none (ws_closed 1006 3) (attempts none info 1006 (1 ∷ 2 ∷ []) online)).state
    ≡ sandbox_lost
attempts-lost_example =
    (attempts-lost none info 1006 (1 ∷ 2 ∷ []) 3 online refl refl
      (record { has_session = refl; open_socket = refl })).0

terminate-returns_example :
    (run none
      (terminate_clicked ∷ ws_closed 1005 3 ∷ terminate_done ∷ timer_fired 3 ∷ [])
      online).state
    ≡ sandbox_lost
terminate-returns_example = (terminate-returns none info 3 online (omega arith) refl).1

abbrev account : RoadmapProgress
account = record {
  roadmap_id = "docker";
  completed_nodes = "images" ∷ [];
  in_progress_nodes = "volumes" ∷ [];
}

abbrev guest : GuestProgress
guest = record {
  completed_nodes = "volumes" ∷ "images" ∷ [];
  in_progress_nodes = some ("networks" ∷ []);
}

merge_progress-members_example :
    includes (merge_progress (some account) guest).completed_nodes "volumes" ≡ true
merge_progress-members_example = (merge_progress-members (some account) guest "volumes").0

get_progress-save_progress_example :
    get_progress "docker" (save_progress false 5 "docker" ("images" ∷ []) [] garbage)
    ≡ read_as (
        some (record {
          roadmap_id = "docker";
          completed_nodes = "images" ∷ [];
          in_progress_nodes = [];
        }))
get_progress-save_progress_example =
    get_progress-save_progress false 5 "docker" "docker" ("images" ∷ []) [] garbage

-- Two calls are refused at once; one refresh serves both, and each is sent again.
abbrev two_calls : List ClientEvent
two_calls =
    called 1 other_route
    ∷ called 2 other_route
    ∷ answered 0 (failed (some 401) none)
    ∷ answered 0 (failed (some 401) none)
    ∷ refreshed true
    ∷ answered 1 success
    ∷ []

client_run-IsAccounted_example :
    let s = client_run two_calls idle_client in IsSingleFlight s × IsAccounted 2 s
client_run-IsAccounted_example = client_run-IsAccounted 2 two_calls
