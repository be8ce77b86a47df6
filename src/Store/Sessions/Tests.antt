-- ===== src/Store/Sessions/Tests.antt =====
-- Runs of the sessions of internal/store/users.go.
use classing_backend.Base.{ℕ, ◌≡◌, refl, String, true, false, arith}
use classing_backend.Store.Core.{ok, err, forbidden}
use classing_backend.Store.Rows.{Tables}
use classing_backend.Store.Fixtures.{bob, signed_in}
use classing_backend.Store.Sessions.{
  session_active, open_session, add_session, add_refresh_token, rotate_live, rotate_dead,
  rotate_refresh_token_session, create_refresh_token, revoke_session, revoke_refresh_token,
  rotate_refresh_token,
}
use classing_backend.Store.Sessions.Reuse.{reuse_ends_session}

abbrev rotated_once : Tables
rotated_once = (rotate_refresh_token_session 10 "t2" "old" "new" 2000 "ip" "ua" signed_in).1

rotates :
    rotate_refresh_token_session 10 "t2" "old" "new" 2000 "ip" "ua" signed_in
    ≡ (ok (bob, "s"), rotated_once)
unfolding rotate_refresh_token_session rotate_live rotate_dead add_refresh_token
rotates = refl

reuse_ends_session_example :
    ((rotate_refresh_token_session 20 "t3" "old" "n" 3000 "ip" "ua" rotated_once).0 ≡ err forbidden)
    × ((t : ℕ) (anyone : String)
        → session_active t anyone "s"
            (rotate_refresh_token_session 20 "t3" "old" "n" 3000 "ip" "ua" rotated_once).1
          ≡ false)
reuse_ends_session_example =
    reuse_ends_session 10 "t2" "old" "new" 2000 "ip" "ua" signed_in rotated_once bob "s" 20 "t3" "n"
      3000 "ip" "ua" (omega arith) (omega arith) rotates

-- The session that a login opens is active until it ends.
opens :
    session_active 999 "b" "s2"
      (create_refresh_token 10 "s2" "t2" "b" "x" 1000 "ip" "ua" signed_in).1
    ≡ true
unfolding session_active create_refresh_token open_session add_session add_refresh_token
opens = refl

logs_out : session_active 20 "b" "s" (revoke_session 10 "b" "s" signed_in).1 ≡ false
unfolding session_active revoke_session
logs_out = refl

logs_out_by_token :
    session_active 20 "b" "s" (revoke_refresh_token 10 "b" "old" signed_in).1 ≡ false
unfolding session_active revoke_refresh_token
logs_out_by_token = refl

gives_the_user : (rotate_refresh_token 10 "t2" "old" "new" 2000 "ip" "ua" signed_in).0 ≡ ok bob
unfolding rotate_refresh_token rotate_refresh_token_session rotate_live rotate_dead
    add_refresh_token
gives_the_user = refl
