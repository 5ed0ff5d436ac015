-- ===== src/Server/Bootstrap.antt =====
-- A fresh installation is claimed once.
use headnet.Base.{subst, ◌∙◌, ◌≡◌, refl, sym, ap, inl, inr, true, false, ◌==◌, Bool-cases, arith}
use headnet.Text.{Text}
use headnet.Schema.{User, Session}
use headnet.Storage.{Result, ok, err, World, M, statement, already_claimed}
use headnet.Storage.Keeps.{Keeps, Keeps-statement, Stable, keeps_rules}
use headnet.Storage.Commit.{Ensures-in_tx, Ensures-in_tx-result}
use headnet.Storage.Ensures.{
  Ensures, Ensures-bind, Ensures-if, Ensures-raise, Ensures-Keeps, IsStable, Holds,
}
use headnet.Storage.Metadata.{claim_bootstrap, Claimed, claims, loses}
use headnet.Api.{http_status}
use headnet.Auth.Users.{NewUser, create, insert_user}
use headnet.Auth.Sessions.{Issued, issue, insert_session, store_session}
use headnet.Server.{Server, Request, decoded}
use headnet.Server.Accounts.{
  BootstrapRequest, Draws, issue_for, is_claimed, is_correctable, bootstrapped, issued_or_not,
  claim_and_create, handle_bootstrap,
}

abbrev KeepsClaim : {A : Type 0} → M A → Type 0
KeepsClaim = Keeps Claimed

insert_user-KeepsClaim : (user : User) → KeepsClaim (statement (insert_user user))
unfolding insert_user
insert_user-KeepsClaim user = Keeps-statement _ (λ d h. ground arith)

insert_session-KeepsClaim : (session : Session) → KeepsClaim (statement (insert_session session))
unfolding insert_session
insert_session-KeepsClaim session = Keeps-statement _ (λ d h. ground arith)

module _ (s : Server) (r : Request) (draws : Draws) where
  issue-KeepsClaim : (user : User) → KeepsClaim (issue_for s r draws user)
  unfolding issue store_session
  issue-KeepsClaim user = search (keeps_rules, insert_session-KeepsClaim) depth 10

  module _ (stamp : Text) (input : BootstrapRequest) where
    create-KeepsClaim :
        (new : NewUser)
        → KeepsClaim (create s.libraries s.users new r.now draws.user_id draws.random)
    unfolding create
    create-KeepsClaim new = search (keeps_rules, insert_user-KeepsClaim) depth 12

    -- The transaction of a bootstrap that succeeds leaves the installation claimed.
    claim_and_create-claims :
        Ensures (IsStable Claimed) (claim_and_create s r draws stamp input) (λ _. Holds Claimed)
    unfolding claim_and_create
    claim_and_create-claims = Ensures-in_tx Claimed _ (
        Ensures-bind (λ _. Holds Claimed) (claim_bootstrap stamp r.now) _ (claims stamp r.now)
          (λ won.
            Ensures-if won _ _ (λ _. Ensures-Keeps Claimed _ (create-KeepsClaim _))
              (λ _. Ensures-raise already_claimed)))

    abbrev Never : Type 0
    Never = true ≡ false

    -- On a claimed installation it does not succeed.
    claim_and_create-loses :
        Ensures (Holds Claimed) (claim_and_create s r draws stamp input) (λ _ _. Never)
    unfolding claim_and_create
    claim_and_create-loses =
        Ensures-in_tx-result Claimed (λ _. Never) _
          (Ensures-bind (λ won _. won ≡ false) (claim_bootstrap stamp r.now) _ (loses stamp r.now)
            (λ won.
              Ensures-if won _ _ (λ yes. record { at = λ w no h. sym yes ∙ no })
                (λ _. Ensures-raise already_claimed)))

    bootstrapped-ok :
        (answer : Result User) (w : World)
        → ((bootstrapped s r draws answer w).0.status == 201) ≡ true
        → (user : User) × (answer ≡ ok user)
    unfolding http_status
    bootstrapped-ok (ok user) w h = (user, refl)
    bootstrapped-ok (err e) w h = elim (Bool-cases (is_claimed e)) [
      | inl taken ↦ (let never : false ≡ true = rw taken at h in cc)
      | inr other ↦ elim (Bool-cases (is_correctable e)) [
        | inl theirs ↦ (let never : false ≡ true = rw (other, theirs) at h in cc)
        | inr ours ↦ (let never : false ≡ true = rw (other, ours) at h in cc)
      ]
    ]

    issued-Claimed :
        (user : User) (answer : Result Issued) (w : World)
        → Holds Claimed w
        → Holds Claimed (issued_or_not s draws user answer w).1
    issued-Claimed user (ok issued) w h = h
    issued-Claimed user (err e) w h = h

    created-Claimed :
        (w : World)
        → IsStable Claimed w
        → (answer : Result User) (w₁ : World)
        → claim_and_create s r draws stamp input w ≡ (answer, w₁)
        → ((bootstrapped s r draws answer w₁).0.status == 201) ≡ true
        → Holds Claimed (bootstrapped s r draws answer w₁).1
    created-Claimed w st answer w₁ called h =
        let (user, succeeded) = bootstrapped-ok answer w₁ h in
        let claimed : Holds Claimed w₁ =
          claim_and_create-claims.at w {a = user} {w' = w₁} st
            (called ∙ ap (λ (x : Result User). (x, w₁)) succeeded) in
        subst (λ (x : Result User). Holds Claimed (bootstrapped s r draws x w₁).1) (sym succeeded)
          (issued-Claimed user (issue_for s r draws user w₁).0 (issue_for s r draws user w₁).1
            ((issue-KeepsClaim user).at w₁ claimed.0 claimed.1))

    handle_bootstrap-Claimed :
        (w : World)
        → IsStable Claimed w
        → ((handle_bootstrap s r draws stamp (decoded input) w).0.status == 201) ≡ true
        → Holds Claimed (handle_bootstrap s r draws stamp (decoded input) w).1
    unfolding handle_bootstrap
    handle_bootstrap-Claimed w st h =
        created-Claimed w st (claim_and_create s r draws stamp input w).0
          (claim_and_create s r draws stamp input w).1 refl h

    handle_bootstrap-loses :
        (w : World)
        → Holds Claimed w
        → ((handle_bootstrap s r draws stamp (decoded input) w).0.status == 201) ≡ false
    unfolding handle_bootstrap
    handle_bootstrap-loses w claimed =
        elim (Bool-cases ((handle_bootstrap s r draws stamp (decoded input) w).0.status == 201)) [
          | inl succeeds ↦
              let outcome = claim_and_create s r draws stamp input w in
              let (user, succeeded) = bootstrapped-ok outcome.0 outcome.1 succeeds in
              let never : true ≡ false =
                claim_and_create-loses.at w {a = user} {w' = outcome.1} claimed
                  (λ i. (succeeded i, outcome.1)) in
              succeeds ∙ never
          | inr fails ↦ fails
        ]

-- Once a bootstrap has been answered with success, no later one is: whatever is asked for, whatever
-- other connections do and whichever statements fail, as long as no other connection removes the
-- claim of the installation.
pub handle_bootstrap-once :
    (s : Server) (r r' : Request) (draws draws' : Draws) (stamp stamp' : Text)
    (input input' : BootstrapRequest) (w : World)
    → Stable Claimed w.events
    → ((handle_bootstrap s r draws stamp (decoded input) w).0.status == 201) ≡ true
    → ((handle_bootstrap s r' draws' stamp'
          (decoded input')
          (handle_bootstrap s r draws stamp (decoded input) w).1).0.status
        == 201)
      ≡ false
handle_bootstrap-once s r r' draws draws' stamp stamp' input input' w st h =
    handle_bootstrap-loses s r' draws' stamp' input' _
      (handle_bootstrap-Claimed s r draws stamp input w st h)
