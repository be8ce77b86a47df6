-- ===== src/Store/Devices/Tests.antt =====
-- Runs of internal/store/device_authorizations.go.
use classing_backend.Base.{◌≡◌, refl, ◌⊎◌, ◌∷◌, [], string_eq, arith}
use classing_backend.Store.Core.{
  ok, err, device_authorization_consumed, device_authorization_expired,
  device_authorization_pending,
}
use classing_backend.Store.Rows.{Tables}
use classing_backend.Store.Fixtures.{bob, accounts, device}
use classing_backend.Store.Sessions.{open_session}
use classing_backend.Store.Devices.{
  approve_new, approve_device_authorization, consume_device_authorization_and_create_session,
  create_device_authorization,
}
use classing_backend.Store.Devices.Once.{consume_once}

abbrev asked_for : Tables
asked_for = record accounts { device_authorizations = device ∷ [] }

abbrev approved : Tables
approved = (approve_device_authorization 10 "d" "b" asked_for).1

approves : approve_device_authorization 10 "d" "b" asked_for ≡ (ok 1000, approved)
unfolding approve_device_authorization approve_new
approves = refl

abbrev polled : Tables
polled =
    (consume_device_authorization_and_create_session 20 "s" "t" "d" "secret" "h" 5000 "ip" "ua"
      approved).1

polls :
    consume_device_authorization_and_create_session 20 "s" "t" "d" "secret" "h" 5000 "ip" "ua"
      approved
    ≡ (ok (bob, "s"), polled)
unfolding consume_device_authorization_and_create_session approve_device_authorization approve_new
    open_session
polls = refl

consume_once_example :
    (consume_device_authorization_and_create_session 30 "s2" "t2" "d" "secret" "h2" 6000 "ip" "ua"
        polled
      ≡ (err device_authorization_consumed, polled))
    ⊎ (consume_device_authorization_and_create_session 30 "s2" "t2" "d" "secret" "h2" 6000 "ip" "ua"
          polled
        ≡ (err device_authorization_expired, polled))
consume_once_example =
    consume_once 20 "s" "t" "d" "secret" "h" 5000 "ip" "ua" approved polled bob "s" 30 "s2" "t2"
      "h2" 6000 "ip" "ua" (omega arith) polls

waits :
    (consume_device_authorization_and_create_session 20 "s" "t" "d" "secret" "h" 5000 "ip" "ua"
      asked_for).0
    ≡ err device_authorization_pending
unfolding consume_device_authorization_and_create_session
waits = refl

asks : (create_device_authorization 1 "d" "secret" "tv" 1000 "ip" "ua" accounts).1 ≡ asked_for
unfolding create_device_authorization
asks = refl
