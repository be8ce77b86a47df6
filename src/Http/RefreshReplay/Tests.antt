-- ===== src/Http/RefreshReplay/Tests.antt =====
-- Runs of the shared rotations of internal/httpapi/refresh_replay.go.
use classing_backend.Base.{ℕ, ◌≡◌, refl, false, none, some}
use classing_backend.Http.RefreshReplay.{
  RefreshSession, Entry, Cache, issued, failed, replay_invalidated, waits, leads, new_cache, enter,
  finish, read, invalidate_user, Reach, here, further, enters,
}
use classing_backend.Http.RefreshReplay.Flight.{single_flight}

abbrev session : RefreshSession
session = record {
  user_id = "b";
  access_token = "x";
  refresh_token = "y";
  access_expires_at = 100;
  refresh_expires_at = 1000;
}

abbrev in_flight : Entry
in_flight = record { key = "k"; outcome = none; invalidated = false; expires_at = 0 }

abbrev one_call : Cache
one_call = (enter 5 "k" (new_cache 30)).0

one_call-Reach : Reach (new_cache 30) one_call
one_call-Reach = further here (enters 5 "k")

flies : one_call.heap 0 ≡ some in_flight
unfolding enter new_cache
flies = refl

single_flight_example : ◌≡◌ {A = ℕ} 0 0
single_flight_example =
    single_flight 30 one_call 0 0 in_flight in_flight one_call-Reach flies flies refl refl refl

keeps_ttl : one_call.ttl ≡ 30
unfolding enter new_cache
keeps_ttl = refl

abbrev two_calls : Cache
two_calls = (enter 6 "l" (finish 6 0 in_flight (issued session) one_call)).0

waits_for_another : (enter 7 "l" (invalidate_user "b" two_calls)).1 ≡ waits 1
unfolding enter finish invalidate_user new_cache
waits_for_another = refl

-- A call whose entry is invalidated while it waits gets an error.
is_invalidated : read 0 (invalidate_user "b" two_calls) ≡ some (failed replay_invalidated)
unfolding enter finish read invalidate_user new_cache
is_invalidated = refl

rotates_again : (enter 8 "k" (invalidate_user "b" two_calls)).1 ≡ leads 2
unfolding enter finish invalidate_user new_cache
rotates_again = refl
