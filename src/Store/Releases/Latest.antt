-- ===== src/Store/Releases/Latest.antt =====
-- Which release the applications of a platform and channel are offered.
use classing_backend.Base.{
  ℕ, ◌≤◌, ◌≡◌, refl, ◌∙◌, sym, String, Bool, true, false, ◌&&◌, ◌||◌, ltb, Option, none, some,
  arith, ◌==◌, nat_eq, string_eq, inl, inr, Bool-cases, Option-cases, beq_refl,
}
use text.Mathlib.TextEquality.{eq_iff}
use mathlib.Core.List.{Memᴰ}
use classing_backend.Base.Everywhere.{All-selected, All-select_where, All-Memᴰ}
use classing_backend.Base.Order.{
  order_by, head?, head?-order_by, head?-order_by_all, head?-order_by_passes, head?-order_by-none,
}
use classing_backend.Base.Table.{
  select_where, count_where, count_where_mono, count_where-select_where, select_one_counted,
  select_one_passes, select_one-none, select_one-update_where,
}
use classing_backend.Base.Text.{trim_space, to_upper}
use classing_backend.Store.Core.{ok}
use classing_backend.Store.ContentRows.{AppRelease, Contents}
use classing_backend.Store.Announcements.{valid_platform}
use classing_backend.Store.Releases.{
  valid_channel, normalize_channel, status_published, find_release, release, published,
  publish_release, is_offered, newer, latest_release,
}

abbrev offered_first : String → String → Contents → Option AppRelease
offered_first platform channel d =
    head? (order_by newer (select_where (is_offered platform channel) d.releases))

-- The first of the releases that are offered is one of them, and none of them is newer.
offered_first-newest :
    (platform channel : String) (d : Contents) (r : AppRelease)
    → offered_first platform channel d ≡ some r
    → (is_offered platform channel r ≡ true)
      × (count_where (λ s. is_offered platform channel s && newer s r) d.releases ≡ 0)
offered_first-newest platform channel d r e =
    let offered = select_where (is_offered platform channel) d.releases in
    (
      head?-order_by_passes newer (is_offered platform channel) offered r
          (All-selected (is_offered platform channel) d.releases) e,
      sym (count_where-select_where (λ s. newer s r) (is_offered platform channel) d.releases)
          ∙ head?-order_by newer (λ s t h. ground arith) (λ s t u g h. ground arith) offered r e,
    )

-- A published release of a platform and channel that would be a later one: of a higher version, or of the
-- same version and published later.
abbrev pub supersedes : String → String → AppRelease → AppRelease → Bool
supersedes platform channel r s =
    s.platform == platform
    && s.channel == channel
    && s.status == "PUBLISHED"
    && (ltb r.version_code s.version_code
        || (s.version_code == r.version_code && ltb r.published_at s.published_at))

-- What is offered is a stored release with the status PUBLISHED, is for the platform and the channel that
-- are asked for, whatever the margins and the case of their names are, and no other such release has a
-- higher version, or the same version and a later publication.
pub latest-eq-ok :
    (platform channel : String) (d : Contents) (r : AppRelease)
    → latest_release platform channel d ≡ ok r
    → let p = to_upper (trim_space platform) in
      let c = normalize_channel channel in
      Memᴰ r d.releases
      × (r.platform ≡ p)
      × (r.channel ≡ c)
      × (r.status ≡ "PUBLISHED")
      × (count_where (supersedes p c r) d.releases ≡ 0)
unfolding latest_release
latest-eq-ok platform channel d r run =
    let p = to_upper (trim_space platform) in
    let c = normalize_channel channel in
    let first : offered_first p c d ≡ some r = elim (Option-cases (offered_first p c d)) [
      | inl e ↦ absurd (ground arith)
      | inr (s, e) ↦ ground arith
    ] in
    let n = offered_first-newest p c d r first in
    (
      head?-order_by_all newer (λ s. Memᴰ s d.releases) (select_where (is_offered p c) d.releases) r
          (All-select_where (λ s. Memᴰ s d.releases) (is_offered p c) d.releases
            (All-Memᴰ d.releases))
          first,
      ground (arith, n.0, eq_iff r.platform p),
      ground (arith, n.0, eq_iff r.channel c),
      ground (arith, n.0, eq_iff r.status status_published),
      omega (
        arith,
        n.1,
        count_where_mono (supersedes p c r) (λ s. is_offered p c s && newer s r) d.releases
            (λ s h. ground arith),
      ),
    )

publish-found :
    (now : ℕ) (id : String) (r : AppRelease) (d d' : Contents)
    → publish_release now id d ≡ (ok r, d')
    → (find_release id d' ≡ some r) × (r.status ≡ status_published)
unfolding publish_release release
publish-found now id r d d' run = elim (Option-cases (find_release id d)) [
  | inl e ↦ absurd (ground (arith, missing e))
  | inr (s, e) ↦ ground (
    arith,
    select_one-update_where (λ r. r.id == id) (λ r. r.id == id) (published now) d.releases
        (λ r. refl),
    select_one_passes (λ r. r.id == id) d.releases s e,
  )
]
  where
    missing : find_release id d ≡ none → count_where (λ r. r.id == id) d.releases ≡ 0
    missing e = select_one-none (λ r. r.id == id) d.releases e

-- Publishing takes effect: once a release has been published, a request for its platform and channel is
-- offered a published release with at least its version.
pub publish-latest :
    (now : ℕ) (id platform channel : String) (r : AppRelease) (d d' : Contents)
    → publish_release now id d ≡ (ok r, d')
    → to_upper (trim_space platform) ≡ r.platform
    → normalize_channel channel ≡ r.channel
    → valid_platform r.platform ≡ true
    → valid_channel r.channel ≡ true
    → (s : AppRelease) × (latest_release platform channel d' ≡ ok s)
      × (r.version_code ≤ s.version_code)
unfolding latest_release
publish-latest now id platform channel r d d' run same_platform same_channel p c =
    let f = publish-found now id r d d' run in
    let offered : is_offered r.platform r.channel r ≡ true =
      ground
        (arith, f.1, beq_refl r.platform, beq_refl r.channel, eq_iff r.status status_published) in
    elim (Option-cases (offered_first r.platform r.channel d')) [
      | inl e ↦ absurd (
          omega (
            arith,
            select_one_counted (λ s. s.id == id) (λ s. is_offered r.platform r.channel s && true)
                d'.releases r f.0 (ground arith),
            count_where-select_where (λ s. true) (is_offered r.platform r.channel) d'.releases,
            head?-order_by-none newer (λ s. true)
                (select_where (is_offered r.platform r.channel) d'.releases) e,
          ))
      | inr (s, e) ↦
          let n = offered_first-newest r.platform r.channel d' s e in
          let not_newer : newer r s ≡ false = elim (Bool-cases (newer r s)) [
            | inl h ↦ absurd (
                omega (
                  arith,
                  n.1,
                  select_one_counted (λ s. s.id == id)
                      (λ t. is_offered r.platform r.channel t && newer t s) d'.releases r f.0
                      (ground arith),
                ))
            | inr h ↦ h
          ] in
          (s, rw (same_platform, same_channel) (ground (arith)), ground arith)
    ]
