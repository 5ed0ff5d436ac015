-- ===== src/Auth/Logout.antt =====
-- After a logout no token brings the session back.
use headnet.Base.{
  ℕ, ◌-◌, ltb, ◌∙◌, ◌≡◌, refl, ap, subst, Bool, true, false, List, [], ◌∷◌, All, arith, Bool-cases,
  inl, inr, sym,
}
use headnet.Text.{Text, eq}
use headnet.Platform.{Platform, hash_token}
use headnet.Schema.{Session, Database}
use headnet.Storage.{World, Error, Result, ok, err, statement, session_expired, session_not_found}
use headnet.Storage.Bind.{ok-ne-err}
use headnet.Storage.Keeps.{Stable}
use headnet.Storage.Ensures.{
  Ensures, Ensures-pure, Ensures-raise, Ensures-if, Ensures-bind, Ensures-establish, Ensures-under,
  IsStable, Holds,
}
use headnet.Storage.Table.{
  any_row, any_row-append, any_row-delete_rows, update_rows, delete_rows, find_row, find_row_sound,
  find_row-none_of,
}
use headnet.Auth.Sessions.{
  SessionStore, session_touch_interval, is_expired, insert_session, new_session, delete_by_id,
  touch, delete_by_token, delete_by_user, delete_past, read_session, admit, lookup, revoke,
  revoke_all_for_user,
}
use headnet.Auth.Validity.{or_no_session-ok}
use headnet.Auth.Requests.{SessionRequest, OnIssue, Preserves, Respects, serve, serve-Holds}

-- No session satisfies the test.
abbrev pub HasNone : (Session → Bool) → Database → Type 0
HasNone q d = any_row q d.sessions ≡ false

none-delete_rows :
    (q r : Session → Bool) (xs : List Session)
    → any_row q xs ≡ false
    → any_row q (delete_rows r xs) ≡ false
unfolding any_row delete_rows
none-delete_rows q r [] h = refl
none-delete_rows q r (x ∷ xs) h = ground (arith, none-delete_rows q r xs)

none-update_rows :
    (q r : Session → Bool) (f : Session → Session)
    → ((s : Session) → q (f s) ≡ q s)
    → (xs : List Session) → any_row q xs ≡ false
    → any_row q (update_rows r f xs) ≡ false
unfolding any_row update_rows
none-update_rows q r f same [] h = refl
none-update_rows q r f same (x ∷ xs) h = ground (arith, same x, none-update_rows q r f same xs)

insert-HasNone :
    (q : Session → Bool) (s : Session) → q s ≡ false → Preserves (HasNone q) (insert_session s)
unfolding insert_session any_row
insert-HasNone q s other d h = ground (arith, any_row-append q d.sessions (s ∷ []), other)

failed :
    (r : Result Session × World)
    → ((s : Session) (w : World) → r ≡ (ok s, w) → ⊥)
    → (e : Error) × (r.0 ≡ err e)
failed (ok s, w) never = absurd (never s w refl)
failed (err e, w) never = (e, refl)

-- What Lookup does with a session changes only when it was last used.
admit-same :
    (store : SessionStore) (now : ℕ) (s : Session) (q : Session → Bool)
    → ((t : ℕ) → q (record s { last_used_at = t }) ≡ q s)
    → q s ≡ false
    → Ensures (λ _. Unit {0}) (admit store now s) (λ x _. q x ≡ false)
unfolding admit
admit-same store now s q same other =
    Ensures-if (is_expired store s now) _ _
      (λ _.
        Ensures-bind (λ _ _. Unit {0}) (statement (delete_by_id s.id)) _
          (record { at = λ w a h. tt }) (λ _. Ensures-raise session_expired))
      (λ _.
        Ensures-if (ltb session_touch_interval (now - s.last_used_at)) _ _
          (λ _.
            Ensures-bind (λ _ _. Unit {0}) (statement (touch s.id now)) _
              (record { at = λ w a h. tt }) (λ _. Ensures-pure _ (λ w a. same now ∙ other)))
          (λ _. Ensures-pure _ (λ w a. other)))

module _ (p : Platform) (store : SessionStore) (token : Text) where
  abbrev is_token : Session → Bool
  is_token s = eq s.token_hash (hash_token p token)

  abbrev pub OtherToken : Text → Text → Type 0
  OtherToken user t = eq (hash_token p t) (hash_token p token) ≡ false

  token-Respects : Respects p store (HasNone is_token) OtherToken
  unfolding delete_by_id touch delete_by_token delete_by_user delete_past new_session
  token-Respects = record {
    inserts = λ user meta now id t csrf other. insert-HasNone is_token _ other;
    touches = λ id now d h. none-update_rows is_token _ _ (λ s. refl) d.sessions h;
    deletes_id = λ id d h. none-delete_rows is_token _ d.sessions h;
    deletes_token = λ hash d h. none-delete_rows is_token _ d.sessions h;
    deletes_user = λ user d h. none-delete_rows is_token _ d.sessions h;
    deletes_past = λ now d h. none-delete_rows is_token _ d.sessions h;
  }

  revoke-HasNone :
      eq token [] ≡ false
      → Ensures (IsStable (HasNone is_token)) (revoke p token) (λ _. Holds (HasNone is_token))
  unfolding revoke delete_by_token
  revoke-HasNone present = rw present (
      Ensures-establish (HasNone is_token) (λ _. HasNone is_token) _
        (λ d a d' e.
          subst (HasNone is_token) (ap (λ (r : Result (Unit {0}) × Database). r.1) e)
            (any_row-delete_rows is_token d.sessions)))

  lookup-none : (now : ℕ) → Ensures (Holds (HasNone is_token)) (lookup p store token now) (λ _ _. ⊥)
  unfolding lookup read_session
  lookup-none now =
      Ensures-if (eq token []) _ _ (λ _. Ensures-raise session_not_found)
        (λ _.
          Ensures-bind (λ _ _. ⊥) (statement _) _
            (Ensures-under (HasNone is_token) (λ _ _. ⊥) _
              (λ d s d' none_left e.
                let found =
                  or_no_session-ok (find_row is_token d.sessions)
                    (ap (λ (r : Result Session × Database). r.0) e) in
                cc (
                  find_row_sound is_token d.sessions found,
                  find_row-none_of is_token is_token d.sessions none_left found,
                )))
            (λ s. record { at = λ w impossible h. impossible }))

  blank-lookup :
      (now : ℕ) (w : World) {s : Session} {w' : World}
      → eq token [] ≡ true
      → lookup p store token now w ≡ (ok s, w')
      → ⊥
  unfolding lookup
  blank-lookup now w blank h =
      ok-ne-err (sym (ap (λ (r : Result Session × World). r.0) (rw blank at h)))

  -- Once Revoke of a token has returned, Lookup of the token only ever fails, whatever requests
  -- are served in between and whatever other connections do, as long as none of either issues a
  -- session for a token of the same hash.
  pub revoke-lookup :
      (now : ℕ) (rs : List SessionRequest) (w : World) {w₁ : World}
      → Stable
          (λ d. any_row (λ x. eq x.token_hash (hash_token p token)) d.sessions ≡ false)
          w.events
      → All (OnIssue OtherToken) rs
      → revoke p token w ≡ (ok tt, w₁)
      → (e : Error) × ((lookup p store token now (serve p store rs w₁)).0 ≡ err e)
  revoke-lookup now rs w {w₁} st fresh revoked =
      failed (lookup p store token now (serve p store rs w₁)) (λ s w₂ seen.
        elim (Bool-cases (eq token [])) [
          | inl blank ↦ blank-lookup now (serve p store rs w₁) blank seen
          | inr present ↦
              let gone = (revoke-HasNone present).at w st revoked in
              (lookup-none now).at (serve p store rs w₁)
                (serve-Holds token-Respects rs w₁ fresh gone) seen
        ])

-- A session of another user is all that a statement may leave.
module _ (p : Platform) (store : SessionStore) (user_id : Text) where
  abbrev of_user : Session → Bool
  of_user s = eq s.user_id user_id

  abbrev pub OtherUser : Text → Text → Type 0
  OtherUser user t = eq user user_id ≡ false

  user-Respects : Respects p store (HasNone of_user) OtherUser
  unfolding delete_by_id touch delete_by_token delete_by_user delete_past new_session
  user-Respects = record {
    inserts = λ user meta now id t csrf other. insert-HasNone of_user _ other;
    touches = λ id now d h. none-update_rows of_user _ _ (λ s. refl) d.sessions h;
    deletes_id = λ id d h. none-delete_rows of_user _ d.sessions h;
    deletes_token = λ hash d h. none-delete_rows of_user _ d.sessions h;
    deletes_user = λ user d h. none-delete_rows of_user _ d.sessions h;
    deletes_past = λ now d h. none-delete_rows of_user _ d.sessions h;
  }

  revoke_all-HasNone :
      Ensures
        (IsStable (HasNone of_user))
        (revoke_all_for_user user_id)
        (λ _. Holds (HasNone of_user))
  unfolding revoke_all_for_user delete_by_user
  revoke_all-HasNone =
      Ensures-establish (HasNone of_user) (λ _. HasNone of_user) _
        (λ d a d' e.
          subst (HasNone of_user) (ap (λ (r : Result ℕ × Database). r.1) e)
            (any_row-delete_rows of_user d.sessions))

  lookup-other_user :
      (token : Text) (now : ℕ)
      → Ensures (Holds (HasNone of_user)) (lookup p store token now) (λ s _. of_user s ≡ false)
  unfolding lookup read_session
  lookup-other_user token now =
      Ensures-if (eq token []) _ _ (λ _. Ensures-raise session_not_found)
        (λ _.
          Ensures-bind (λ s _. of_user s ≡ false) (statement _) _
            (Ensures-under (HasNone of_user) (λ s _. of_user s ≡ false) _
              (λ d s d' none_left e.
                let clause = λ (x : Session). eq x.token_hash (hash_token p token) in
                find_row-none_of clause of_user d.sessions none_left (
                  or_no_session-ok (find_row clause d.sessions)
                    (ap (λ (r : Result Session × Database). r.0) e))))
            (λ s. record {
              at = λ w other h. (admit-same store now s of_user (λ x. refl) other).at w tt h;
            }))

  -- Once RevokeAllForUser has returned, no token gives a session of the user, whatever requests are
  -- served in between and whatever other connections do, as long as none of either issues a
  -- session for the user.
  pub revoke_all_for_user-lookup :
      (n now : ℕ) (token : Text) (rs : List SessionRequest) (w : World) {w₁ w₂ : World}
      {s : Session}
      → Stable (λ d. any_row (λ x. eq x.user_id user_id) d.sessions ≡ false) w.events
      → All (OnIssue OtherUser) rs
      → revoke_all_for_user user_id w ≡ (ok n, w₁)
      → lookup p store token now (serve p store rs w₁) ≡ (ok s, w₂)
      → eq s.user_id user_id ≡ false
  revoke_all_for_user-lookup n now token rs w {w₁} st fresh revoked seen =
      let gone = revoke_all-HasNone.at w st revoked in
      (lookup-other_user token now).at (serve p store rs w₁)
        (serve-Holds user-Respects rs w₁ fresh gone) seen
