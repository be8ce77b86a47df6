-- ===== src/Store/Requests/Start.antt =====
-- The start of a request to the assistant, internal/store/ai.go.
use classing_backend.Base.{
  ℕ, ◌+◌, ◌≤◌, ◌≡◌, refl, ◌∙◌, ap, sym, String, Bool, false, ◌&&◌, ◌||◌, none, some, [], ◌∷◌, ◌++◌,
  arith, ◌==◌, nat_eq, string_eq, inl, inr, Option-cases, beq_refl,
}
use text.Mathlib.TextEquality.{eq_iff}
use classing_backend.Base.Int.{pos}
use classing_backend.Base.Table.{select_one, select_one-append}
use classing_backend.Base.Text.{trim_space}
use classing_backend.Store.Core.{ok, err, transaction-eq-ok}
use classing_backend.Store.AiRows.{AiConfig, AiConversation, AiUsage, AiMonth, AiRequest, AiTables}
use classing_backend.Store.Quota.{find_month, open_month, usage_of}
use classing_backend.Store.Requests.{
  AiStart, AiStarted, started, replayed, StartIds, find_replay, pending_request, replay, start_with,
  start_ai_request,
}
use classing_backend.Store.Requests.Months.{
  open_month-found, find_month-reserve, open_month-requests, open_month-config,
}
use classing_backend.Store.Requests.Reserve.{
  Added, start_new-Added, start-with, start-config, start_with-opened,
}

-- A replay is never a new request.
replay-ne-started :
    (request : AiRequest) (config : AiConfig) (usage : AiUsage) (d d' : AiTables)
    (c : AiConversation) (id : String) (config' : AiConfig) (usage' : AiUsage)
    → ¬ (replay request config usage d ≡ (ok (ok (started c id config' usage')), d'))
unfolding replay
replay-ne-started request config usage d d' c id config' usage' h = ground arith

-- The replay reads only.
replay-eq :
    (request : AiRequest) (config : AiConfig) (usage : AiUsage) (d : AiTables)
    → (r : AiStarted) × (replay request config usage d ≡ (ok (ok r), d))
unfolding replay
replay-eq request config usage d = (_, refl)

-- What a start that makes a new request has read and done.
started-Added :
    (now : ℕ) (new : StartIds) (hash period : String) (reset_at : ℕ) (user : String)
    (input : AiStart) (d d' : AiTables) (c : AiConversation) (id : String) (config' : AiConfig)
    (usage : AiUsage)
    → start_ai_request now new hash period reset_at user input d
      ≡ (ok (started c id config' usage), d')
    → let opened = open_month now user period d in
      (config : AiConfig) × (d.config ≡ some config)
      × (m : AiMonth) × (find_month user period opened ≡ some m)
      × Added now new.request user period input
          (usage_of now user period reset_at config m opened)
          opened
          d'
          (started c id config' usage)
started-Added now new hash period reset_at user input d d' c id config' usage h =
    let (b, config, k) =
      start-config now new hash period reset_at user input d d' (started c id config' usage) h in
    let (m, f) = open_month-found now user period d in
    let opened = open_month now user period d in
    let before = usage_of now user period reset_at config m opened in
    let body = start_with now new hash period reset_at user input config in
    let run =
      transaction-eq-ok body d d' (started c id config' usage)
        (sym (start-with now new hash period reset_at user input d config b k) ∙ h) in
    elim (Option-cases (find_replay user input.client_request_id opened)) [
      | inl e ↦ (
        config,
        k,
        m,
        f,
        start_new-Added now new hash period user input config before opened d'
            (started c id config' usage)
            (sym (start_with-opened now new hash period reset_at user input config d m none f e)
              ∙ run),
      )
      | inr (q, e) ↦ absurd (
          replay-ne-started q config before opened d' c id config' usage (
            sym (start_with-opened now new hash period reset_at user input config d m (some q) f e)
            ∙ run))
    ]

-- A new request stays within the quota: where the user has a limit, what the month has used and
-- reserved with it is not more than the limit and the credits, and the usage that is returned is the
-- month's row.
pub start_fits :
    (now : ℕ) (new : StartIds) (hash period : String) (reset_at : ℕ) (user : String)
    (input : AiStart) (d d' : AiTables) (c : AiConversation) (id : String) (config : AiConfig)
    (usage : AiUsage)
    → start_ai_request now new hash period reset_at user input d
      ≡ (ok (started c id config usage), d')
    → (m : AiMonth) × (find_month user period d' ≡ some m)
      × (m.used ≡ usage.used)
      × (m.reserved ≡ usage.reserved)
      × ((n : ℕ) → usage.limit ≡ pos n → m.used + m.reserved ≤ n + usage.credit_available)
start_fits now new hash period reset_at user input d d' c id config usage h =
    let (config₀, k, m, f, a) =
      started-Added now new hash period reset_at user input d d' c id config usage h in
    let opened = open_month now user period d in
    let before = usage_of now user period reset_at config₀ m opened in
    let is : usage ≡ record before { reserved = before.reserved + a.reservation } =
      ap (λ r. elim r [ started _ _ _ u ↦ u | replayed _ _ _ u ↦ u ]) a.result in
    (
      record m { reserved = m.reserved + a.reservation; updated_at = now },
      ap (select_one (λ m. m.user_id == user && m.period == period)) a.months
          ∙ find_month-reserve now user period a.reservation opened m f,
      ap (λ u. u.used) (sym is),
      ap (λ u. u.reserved) (sym is),
      λ n limit. rw is (ground (arith, a.fits, ap (λ u. u.limit) (sym is) ∙ limit)),
    )

-- The new request is found again under the client's id.
find_replay-added :
    (user : String) (row : AiRequest) (d d' : AiTables)
    → row.user_id ≡ user
    → d'.requests ≡ d.requests ++ row ∷ []
    → (q : AiRequest) × (find_replay user row.client_request_id d' ≡ some q)
find_replay-added user row d d' mine same =
    let p : AiRequest → Bool =
      λ r. r.user_id == user && r.client_request_id == row.client_request_id in
    let there = ap (select_one p) same ∙ select_one-append p d.requests (row ∷ []) in
    elim (Option-cases (select_one p d.requests)) [
      | inl e ↦ (row, ground (arith, eq_iff row.user_id user, beq_refl row.client_request_id))
      | inr (q, e) ↦ (q, ground arith)
    ]

-- A client that repeats a request, in whatever month and with whatever text that is not blank, is
-- answered from what there is: a start with the client's id of a request that was started changes
-- nothing but that it opens the month's row, so it reserves nothing.
pub start_again :
    (now : ℕ) (new : StartIds) (hash period : String) (reset_at : ℕ) (user : String)
    (input : AiStart) (d d' : AiTables) (c : AiConversation) (id : String) (config : AiConfig)
    (usage : AiUsage) (later : ℕ) (new' : StartIds) (hash' period' : String) (reset' : ℕ)
    (input' : AiStart)
    → start_ai_request now new hash period reset_at user input d
      ≡ (ok (started c id config usage), d')
    → input'.client_request_id ≡ input.client_request_id
    → (trim_space input'.message == "") ≡ false
    → (start_ai_request later new' hash' period' reset' user input' d').1
      ≡ open_month later user period' d'
start_again now new hash period reset_at user input d d' c id config usage later new' hash' period'
      reset' input' h same said =
    let (config₀, k, m, f, a) =
      started-Added now new hash period reset_at user input d d' c id config usage h in
    let opened = open_month now user period d in
    let b =
      (start-config now new hash period reset_at user input d d' (started c id config usage) h).0 in
    let row =
      pending_request now new.request user a.conversation.id input.client_request_id a.config'
        a.reservation in
    let again = open_month later user period' d' in
    let requests : again.requests ≡ opened.requests ++ row ∷ [] =
      open_month-requests later user period' d' ∙ a.requests in
    let (q, found) = find_replay-added user row opened again refl requests in
    let found' : find_replay user input'.client_request_id again ≡ some q =
      ap (λ i. find_replay user i again) same ∙ found in
    let (m', f') = open_month-found later user period' d' in
    let k' : d'.config ≡ some config₀ = a.same_config ∙ open_month-config now user period d ∙ k in
    let b' : (trim_space input'.client_request_id == "" || trim_space input'.message == "")
        ≡ false =
      ap (λ i. trim_space i == "" || trim_space input'.message == "") same ∙ ground arith in
    let usage' = usage_of later user period' reset' config₀ m' again in
    let (r, answer) = replay-eq q config₀ usage' again in
    ap (λ t. t.1)
      (start-with later new' hash' period' reset' user input' d' config₀ b' k'
        ∙ ap (λ t. elim t.0 [ ok a ↦ (a, t.1) | err e ↦ (err e, d') ])
            (start_with-opened later new' hash' period' reset' user input' config₀ d' m' (some q) f'
                found'
              ∙ answer))
