-- ===== src/Store/Accounts/Rights/Counting.antt =====
-- Counting the active administrators, for the checks of internal/store/users.go.
use classing_backend.Base.{
  ℕ, ◌≤◌, ◌≡◌, refl, String, Bool, true, false, not, ◌&&◌, some, List, [], ◌∷◌, arith, ◌==◌, nat_eq,
  string_eq, inl, inr, Bool-cases,
}
use text.Mathlib.TextEquality.{eq_iff}
use classing_backend.Base.Table.{
  select_one, count_where, update_where, updated, count_where-update_where, count_where_mono,
  count_where_split,
}
use classing_backend.Store.Rows.{User, Tables}
use classing_backend.Store.Accounts.{Dialect, sqlite, pgx}
use classing_backend.Store.Accounts.Rights.{is_active_admin, remaining_admins}

abbrev pub active_admins : Tables → ℕ
active_admins d = count_where is_active_admin d.users

-- The primary key: no id stands twice.
abbrev pub UniqueIds : Tables → Type 0
UniqueIds d = (id : String) → count_where (λ u. u.id == id) d.users ≤ 1

abbrev pub others : String → User → Bool
others user u = is_active_admin u && not (u.id == user)

-- The loop of the PostgreSQL branch counts what the query of the SQLite branch counts.
pub remaining_admins-dialect :
    (user : String) (users : List User)
    → remaining_admins pgx user users ≡ remaining_admins sqlite user users
unfolding remaining_admins
remaining_admins-dialect user [] = refl
remaining_admins-dialect user (u ∷ users) = ground (arith, remaining_admins-dialect user users)

pub remaining_admins-eq :
    (dialect : Dialect) (user : String) (users : List User)
    → remaining_admins dialect user users ≡ count_where (others user) users
unfolding remaining_admins
remaining_admins-eq sqlite user users = refl
remaining_admins-eq pgx user users = unfold remaining_admins in remaining_admins-dialect user users

-- An update of one account leaves the others' rights alone.
pub others-le-update :
    (user : String) (q : User → Bool) (f : User → User) (users : List User)
    → ((u : User) → q u ≡ true → u.id ≡ user)
    → ((u : User) → (f u).id ≡ u.id)
    → count_where (others user) users ≤ count_where is_active_admin (update_where q f users)
others-le-update user q f users only keeps =
    rw (count_where-update_where is_active_admin q f users) (
      count_where_mono (others user) (λ u. is_active_admin (updated q f u)) users
        (λ u h. ground (arith, only u, eq_iff u.id user)))

-- If the row of the account is no active administrator's, all active administrators are others.
pub admins-le-others :
    (user : String) (current : User) (users : List User)
    → count_where (λ u. u.id == user) users ≤ 1
    → select_one (λ u. u.id == user) users ≡ some current
    → is_active_admin current ≡ false
    → count_where is_active_admin users ≤ count_where (others user) users
admins-le-others user current [] u e h = omega arith
admins-le-others user current (x ∷ users) u e h = elim (Bool-cases (x.id == user)) [
  | inl same ↦ ground (arith, count_where_split is_active_admin (λ u. u.id == user) users)
  | inr other ↦ ground (arith, admins-le-others user current users)
]
