-- ===== src/Store/Devices/Once.antt =====
-- Who can approve a device's request, and how often it gives a session.
use classing_backend.Base.{
  ℕ, ◌<◌, ◌≡◌, refl, ◌∙◌, ap, sym, ◌≢◌, ◌⊎◌, String, true, ◌&&◌, Option, none, some, List, arith,
  leb, if◌then◌else◌, ◌==◌, nat_eq, string_eq, inl, inr, Bool-cases, Option-cases,
}
use text.Mathlib.TextEquality.{eq_iff}
use classing_backend.Base.Table.{
  select_one, update_where, select_one-update_where, select_one_passes,
}
use classing_backend.Store.Core.{
  conflict, device_authorization_expired, device_authorization_consumed, ok, err,
}
use classing_backend.Store.Rows.{User, DeviceAuthorization, Tables, status_active}
use classing_backend.Store.Sessions.{open_session}
use classing_backend.Store.Devices.{
  is_bound_to, find_authorization, approve_new, approve_device_authorization, find_polled, approver,
  consume_device_authorization_and_create_session,
}

-- The row of a request, once it has given its session.
find_polled-consumed :
    (now : ℕ) (id secret : String) (item : DeviceAuthorization) (rows : List DeviceAuthorization)
    → select_one (λ a. a.id == id && a.poll_secret_hash == secret) rows ≡ some item
    → item.consumed_at ≡ 0
    → select_one
        (λ a. a.id == id && a.poll_secret_hash == secret)
        (update_where
          (λ a. a.id == id && a.consumed_at == 0)
          (λ a. record a { consumed_at = now })
          rows)
      ≡ some (record item { consumed_at = now })
find_polled-consumed now id secret item rows e c =
    rw
      (
        select_one-update_where (λ a. a.id == id && a.poll_secret_hash == secret)
            (λ a. a.id == id && a.consumed_at == 0) (λ a. record a { consumed_at = now }) rows
            (λ a. refl),
        e,
      )
      (ground
        (arith, select_one_passes (λ a. a.id == id && a.poll_secret_hash == secret) rows item e))

abbrev marked_used : ℕ → String → Tables → Tables
marked_used now id d = record d {
  device_authorizations =
      update_where (λ a. a.id == id && a.consumed_at == 0) (λ a. record a { consumed_at = now })
        d.device_authorizations;
}

-- What a successful poll has found, and the row that it leaves.
pub record Consumption (now : ℕ) (id secret session : String) (refresh_expires_at : ℕ) (user : User)
    (d d' : Tables) : Type 0 where
  pub item : DeviceAuthorization
  pub found : find_polled id secret d ≡ some item
  pub unexpired : now < item.expires_at
  pub unconsumed : item.consumed_at ≡ 0
  pub approved : approver item ≡ some user.id
  pub owner_active : user.status ≡ status_active
  pub marked : find_polled id secret d' ≡ some (record item { consumed_at = now })

module _ (now : ℕ) (session_id refresh_id user token_hash : String) (expires_at : ℕ)
    (ip ua : String) (d : Tables) where
  -- Opening a session touches neither the requests nor the accounts.
  open_session-device_authorizations :
      (open_session now session_id refresh_id user token_hash expires_at ip ua
        d).1.device_authorizations
      ≡ d.device_authorizations
  unfolding open_session
  open_session-device_authorizations = ground arith

-- The approver of a request that can be found among the accounts is the account found.
approver-found :
    (item : DeviceAuthorization) (u : String) (user : User) (users : List User)
    → approver item ≡ some u
    → select_one (λ x. x.id == u) users ≡ some user
    → approver item ≡ some user.id
approver-found item u user users a e =
    a ∙ ap some (sym ((eq_iff user.id u).0 (select_one_passes (λ x. x.id == u) users user e).0))

module _ (now : ℕ) (session_id refresh_id id secret refresh_hash : String) (refresh_expires_at : ℕ)
    (ip ua : String) (d d' : Tables) (user : User) (session : String)
    (run : consume_device_authorization_and_create_session now session_id refresh_id id secret
        refresh_hash refresh_expires_at ip ua d
      ≡ (ok (user, session), d')) where
  -- A poll gives a session only for a request that is found under the id and the secret, has neither
  -- run out nor been used, and was approved by an account that is active: the session is that
  -- account's. The request is then marked as used.
  pub consume-eq-ok : Consumption now id secret session refresh_expires_at user d d'
  unfolding consume_device_authorization_and_create_session
  consume-eq-ok = elim (Option-cases (find_polled id secret d)) [
    | inl e ↦ absurd (ground arith)
    | inr (item, e) ↦ elim (Option-cases (approver item)) [
      | inl a ↦ absurd (ground arith)
      | inr (u, a) ↦ elim (Option-cases (select_one (λ x. x.id == u) d.users)) [
        | inl o ↦ absurd (ground arith)
        | inr (owner, o) ↦
            let same : owner ≡ user = ground arith in
            record {
              item = item;
              found = e;
              unexpired = ground arith;
              unconsumed = ground arith;
              approved = rw (← same) (approver-found item u owner d.users a o);
              owner_active = ground (arith, eq_iff user.status status_active);
              marked = ground (
                arith,
                find_polled-consumed now id secret item d.device_authorizations e,
                open_session-device_authorizations now session_id refresh_id owner.id refresh_hash
                    refresh_expires_at ip ua (marked_used now id d),
              );
            }
      ]
    ]
  ]

-- A request gives one session: once a poll has succeeded, at a time that is not 0, a poll of the
-- tables that it leaves with the same id and secret fails, as used up or run out, and changes
-- nothing.
pub consume_once :
    (now : ℕ) (session_id refresh_id id secret refresh_hash : String) (refresh_expires_at : ℕ)
    (ip ua : String) (d d' : Tables) (user : User) (session : String) (later : ℕ)
    (session' refresh' hash' : String) (expires' : ℕ) (ip' ua' : String)
    → 0 < now
    → consume_device_authorization_and_create_session now session_id refresh_id id secret
        refresh_hash refresh_expires_at ip ua d
      ≡ (ok (user, session), d')
    → let again =
        consume_device_authorization_and_create_session later session' refresh' id secret hash'
          expires' ip' ua' d' in
      (again ≡ (err device_authorization_consumed, d'))
      ⊎ (again ≡ (err device_authorization_expired, d'))
unfolding consume_device_authorization_and_create_session
consume_once now session_id refresh_id id secret refresh_hash refresh_expires_at ip ua d d' user
      session later session' refresh' hash' expires' ip' ua' pos run =
    let c =
      consume-eq-ok now session_id refresh_id id secret refresh_hash refresh_expires_at ip ua d d'
        user session run in
    ground (arith, c.marked)

find-approved :
    (now : ℕ) (id user : String) (item : DeviceAuthorization) (rows : List DeviceAuthorization)
    → select_one (λ a. a.id == id) rows ≡ some item
    → item.approved_at ≡ 0
    → item.consumed_at ≡ 0
    → select_one
        (λ a. a.id == id)
        (update_where
          (λ a. a.id == id && a.approved_at == 0 && a.consumed_at == 0)
          (λ a. record a { user_id = some user; approved_at = now })
          rows)
      ≡ some (record item { user_id = some user; approved_at = now })
find-approved now id user item rows e p c =
    rw
      (
        select_one-update_where (λ a. a.id == id)
            (λ a. a.id == id && a.approved_at == 0 && a.consumed_at == 0)
            (λ a. record a { user_id = some user; approved_at = now }) rows (λ a. refl),
        e,
      )
      (ground (arith, select_one_passes (λ a. a.id == id) rows item e))

is_bound_to-eq :
    (user : String) (bound : Option String) → is_bound_to user bound ≡ true → bound ≡ some user
is_bound_to-eq user none h = cc
is_bound_to-eq user (some u) h = ap some ((eq_iff u user).0 h)

-- What an approval leaves: the request bound to its approver.
approve-bound :
    (now : ℕ) (id user : String) (d d' : Tables) (expires_at : ℕ)
    → 0 < now
    → approve_device_authorization now id user d ≡ (ok expires_at, d')
    → (item : DeviceAuthorization) × (find_authorization id d' ≡ some item)
      × (item.user_id ≡ some user)
      × (item.approved_at ≢ 0)
      × (item.consumed_at ≡ 0)
      × (item.expires_at ≡ expires_at)
unfolding approve_device_authorization approve_new
approve-bound now id user d d' expires_at pos run = elim (Option-cases (find_authorization id d)) [
  | inl e ↦ absurd (ground arith)
  | inr (item, e) ↦ elim (Bool-cases (item.approved_at == 0)) [
    | inl new ↦
        let bound : DeviceAuthorization = record item { user_id = some user; approved_at = now } in
        (
          bound,
          ground (arith, find-approved now id user item d.device_authorizations e),
          refl,
          ground arith,
          ground arith,
          ground arith,
        )
    | inr old ↦ (
      item,
      ground arith,
      is_bound_to-eq user item.user_id (ground arith),
      ground arith,
      ground arith,
      ground arith,
    )
  ]
]

-- The first approval, at a time that is not 0, binds the request: on the tables that an approval
-- leaves, while the request has not run out, the same user may approve again, to no effect, and any
-- other user is refused with Conflict.
pub approve_binds :
    (now : ℕ) (id user : String) (d d' : Tables) (expires_at later : ℕ) (other : String)
    → 0 < now
    → approve_device_authorization now id user d ≡ (ok expires_at, d')
    → approve_device_authorization later id other d' ≡ (
      if leb expires_at later
          then err device_authorization_expired
          else if user == other
          then ok expires_at
          else err conflict,
      d',
    )
unfolding approve_device_authorization
approve_binds now id user d d' expires_at later other pos run =
    let b = approve-bound now id user d d' expires_at pos run in
    ground (arith, b.1, b.2, b.3, b.4, b.5)
