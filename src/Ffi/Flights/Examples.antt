-- ===== src/Ffi/Flights/Examples.antt =====
-- A run of two calls of the single-flight check of updater/src/lib.rs.
use fl_codepush_box.Prelude.{ℕ, ◌≡◌, refl, ap, none, some, codes}
use fl_codepush_box.Ffi.Flights.{
  leading, waiting, returned, System, start, entered, enter, publish, looked, look, enters,
  publishes, looks, Run, here, after,
}
use fl_codepush_box.Ffi.Install.{Request}
use fl_codepush_box.Ffi.Flights.Requests.{same_request, requests}
use fl_codepush_box.Ffi.Flights.Safety.{request_led, one_leader, returned_result}
use fl_codepush_box.Ffi.Flights.Progress.{waiting_returns}

-- A check of the app.
abbrev q : Request
q = record {
  server_url = codes "http://h";
  org_id = none;
  app_id = codes "app";
  release_version = codes "1.0";
  platform = codes "android";
  arch = codes "arm64";
  channel = codes "stable";
  current_patch_number = 1;
  client_id = codes "c";
}

-- Call 0 leads, and call 1 follows and waits.
abbrev both : System Request ℕ
both = look requests 1 q 0 (enter requests 1 q (enter requests 0 q start))

both_run : Run requests start both
unfolding enter entered same_request
both_run = after (after (after here (enters 0 q refl)) (enters 1 q refl)) (looks 1 q 0 refl)

leader : both.threads 0 ≡ leading q 0
unfolding enter entered same_request look looked
leader = refl

one_leader_example : ◌≡◌ {A = ℕ} 0 0
one_leader_example =
    one_leader requests both 0 0 q both_run (ap (request_led requests) leader)
      (ap (request_led requests) leader)

waiter : both.threads 1 ≡ waiting q 0
unfolding enter entered same_request look looked
waiter = refl

waiting_returns_example :
    (t : System Request ℕ) × Run requests both t × (t.threads 1 ≡ returned q 5)
waiting_returns_example = waiting_returns requests both 1 q 0 5 both_run waiter

-- The leader stores 5, and call 1 looks again.
abbrev answered : System Request ℕ
answered = look requests 1 q 0 (publish requests 0 q 0 5 both)

answered_run : Run requests start answered
unfolding enter entered same_request look looked publish
answered_run = after (after both_run (publishes 0 q 0 5 leader)) (looks 1 q 0 refl)

follower : answered.threads 1 ≡ returned q 5
unfolding enter entered same_request look looked publish
follower = refl

returned_result_example : (f : ℕ) × (answered.asked f ≡ some q) × (answered.slots f ≡ some 5)
returned_result_example = returned_result requests answered 1 q 5 answered_run follower
