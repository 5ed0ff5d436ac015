-- ===== src/Auth/Validity.antt =====
-- What SessionStore.Lookup returns: a session of the token that was neither past its lifetime nor
-- idle for too long when it was read.
use headnet.Base.{
  ℕ, ◌-◌, ◌<◌, ◌≤◌, ◌≡◌, ◌⊎◌, inl, inr, ap, sym, subst, true, false, Option, none, some, [], arith,
  ltb, Bool-cases, Bool,
}
use headnet.Text.{Text, eq}
use headnet.Platform.{Platform, hash_token}
use headnet.Schema.{Session, Database}
use headnet.Storage.{World, Result, ok, err, statement, session_expired}
use headnet.Storage.Table.{find_row, find_row_sound}
use headnet.Storage.Bind.{ok-injective, ok-ne-err, statement-ok, bind-ok}
use headnet.Auth.Sessions.{
  SessionStore, is_expired, or_no_session, read_session, admit, lookup, touch, delete_by_id,
  session_touch_interval,
}

pub or_no_session-ok : (o : Option Session) {s : Session} → or_no_session o ≡ ok s → o ≡ some s
or_no_session-ok none e = cc
or_no_session-ok (some y) e = ap some (ok-injective e)

abbrev pub of_hash : Text → Session → Bool
of_hash hash s = eq s.token_hash hash

-- The row is within its lifetime, and it has been used within the idle timeout, where there is one.
pub record IsLive (store : SessionStore) (now : ℕ) (row : Session) : Type 0 where
  pub unexpired : now < row.expires_at
  pub active : (store.idle_timeout ≡ 0) ⊎ (now - row.last_used_at < store.idle_timeout)

-- The session returned is the row as it was read, or that row with its last use moved to now when
-- the last one is more than a minute ago.
abbrev pub IsRefreshed : ℕ → Session → Session → Type 0
IsRefreshed now row s =
    ((now - row.last_used_at ≤ session_touch_interval) × (s ≡ row))
    ⊎ ((session_touch_interval < now - row.last_used_at) × (s ≡ record row { last_used_at = now }))

-- What the SELECT of this call found, in the state of the database in which it ran.
abbrev pub IsAccepted : Platform → SessionStore → Text → ℕ → World → Session → Type 0
IsAccepted p store token now w s =
    (row : Session) × (w₁ : World) × (read_session (hash_token p token) w ≡ (ok row, w₁))
    × (find_row (of_hash (hash_token p token)) w₁.db.sessions ≡ some row)
    × (eq row.token_hash (hash_token p token) ≡ true)
    × IsLive store now row
    × IsRefreshed now row s

live :
    (store : SessionStore) (s : Session) (now : ℕ)
    → is_expired store s now ≡ false
    → IsLive store now s
unfolding is_expired
live store s now h = record {
  unexpired = ground arith;
  active = elim (Bool-cases (ltb 0 store.idle_timeout)) [
    | inl timed ↦ inr (ground arith)
    | inr untimed ↦ inl (ground arith)
  ];
}

-- A session that is admitted was live as it was read.
admit-IsLive :
    (store : SessionStore) (now : ℕ) (row : Session) (w : World) {s : Session} {w' : World}
    → admit store now row w ≡ (ok s, w')
    → IsLive store now row × IsRefreshed now row s
unfolding admit
admit-IsLive store now row w {s} {w'} h = elim (Bool-cases (is_expired store row now)) [
  | inl over ↦
      let (a, w₁, first, raised) =
        bind-ok (statement (delete_by_id row.id)) (λ u w₁. (err session_expired, w₁)) w
          (rw over at h) in
      ok-ne-err (sym (ap (λ (x : Result Session × World). x.0) raised))
  | inr fresh ↦ (
    live store row now fresh,
    elim (Bool-cases (ltb session_touch_interval (now - row.last_used_at))) [
      | inl stale ↦
          let (a, w₁, first, same) =
            bind-ok (statement (touch row.id now))
              (λ u w₁. (ok (record row { last_used_at = now }), w₁)) w (rw (fresh, stale) at h) in
          inr (ground arith, sym (ok-injective (ap (λ (x : Result Session × World). x.0) same)))
      | inr recent ↦
          let same : (ok row, w) ≡ (ok s, w') = rw (fresh, recent) at h in
          inl (ground arith, sym (ok-injective (ap (λ (x : Result Session × World). x.0) same)))
    ],
  )
]

module _ (p : Platform) (store : SessionStore) (token : Text) (now : ℕ) (w : World) where
  read_session-row :
      {row : Session} {w₁ : World}
      → read_session (hash_token p token) w ≡ (ok row, w₁)
      → find_row (of_hash (hash_token p token)) w₁.db.sessions ≡ some row
  unfolding read_session
  read_session-row {row} {w₁} h =
      let (d, ran) = statement-ok _ w h in
      subst (λ (d' : Database). find_row (of_hash (hash_token p token)) d'.sessions ≡ some row)
        (ap (λ (x : Result Session × Database). x.1) ran)
        (or_no_session-ok _ (ap (λ (x : Result Session × Database). x.0) ran))

  -- Whatever other connections do, a session that Lookup returns is the row of the token that its
  -- own SELECT found. As that row stood, before any touch of this call, its lifetime was not over,
  -- and its last use was within the idle timeout if there is one. The session is that row, with
  -- its last use moved to now exactly when the last one is more than a minute ago.
  pub lookup-IsAccepted :
      {s : Session} {w' : World}
      → lookup p store token now w ≡ (ok s, w')
      → IsAccepted p store token now w s
  unfolding lookup
  lookup-IsAccepted {s} {w'} h = elim (Bool-cases (eq token [])) [
    | inl blank ↦ ok-ne-err (sym (ap (λ (x : Result Session × World). x.0) (rw blank at h)))
    | inr present ↦
        let (row, w₁, first, rest) =
          bind-ok (read_session (hash_token p token)) (admit store now) w (rw present at h) in
        let (is_live, refreshed) = admit-IsLive store now row w₁ rest in
        let found = read_session-row first in
        (
          row,
          w₁,
          first,
          found,
          find_row_sound (of_hash (hash_token p token)) w₁.db.sessions found,
          is_live,
          refreshed,
        )
  ]
