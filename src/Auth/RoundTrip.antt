-- ===== src/Auth/RoundTrip.antt =====
-- A session that Issue creates is the one that Lookup of its token returns.
use headnet.Base.{
  ℕ, ◌-◌, ◌≡◌, refl, true, false, ◌||◌, some, List, [], ◌∷◌, ◌++◌, arith, ltb, if◌then◌else◌,
  Bool-cases, inl, inr,
}
use headnet.Text.{Text, eq, eq_refl}
use headnet.Platform.{Platform, hash_token}
use headnet.Schema.{Session, Database}
use headnet.Storage.{ok, statement}
use headnet.Storage.Bind.{quiet}
use headnet.Storage.Table.{find_row-append, any_row}
use headnet.Auth.Sessions.{
  SessionStore, Meta, new_session, insert_session, store_session, issue, is_expired,
  session_touch_interval, read_session, admit, lookup, touch,
}

no_hash :
    (id hash : Text) (xs : List Session)
    → any_row (λ x. eq x.id id || eq x.token_hash hash) xs ≡ false
    → any_row (λ x. eq x.token_hash hash) xs ≡ false
unfolding any_row
no_hash id hash [] h = refl
no_hash id hash (x ∷ xs) h = ground (arith, no_hash id hash xs)

module _ (p : Platform) (store : SessionStore) (user_id : Text) (meta : Meta) (now : ℕ)
    (id token csrf_token : Text) (d : Database) where
  abbrev created : Session
  created = new_session p store user_id meta now id token csrf_token

  abbrev with_session : Database
  with_session = record d { sessions = d.sessions ++ created ∷ [] }

  issue-quiet :
      eq user_id [] ≡ false
      → any_row (λ u. eq u.id user_id) d.users ≡ true
      → any_row (λ x. eq x.id id || eq x.token_hash (hash_token p token)) d.sessions ≡ false
      → issue p store user_id meta now id (some token) (some csrf_token) (quiet d) ≡ (
        ok (record { session = created; token = token; csrf_token = csrf_token }),
        quiet with_session,
      )
  unfolding issue store_session statement insert_session new_session
  issue-quiet named known unused = rw (named, unused, known)

  admit-quiet :
      (later : ℕ) (d' : Database) (s : Session)
      → is_expired store s later ≡ false
      → (admit store later s (quiet d')).0
        ≡ ok (record s {
          last_used_at =
              if ltb session_touch_interval (later - s.last_used_at) then later else s.last_used_at;
        })
  unfolding admit statement touch
  admit-quiet later d' s live =
      rw live (elim (Bool-cases (ltb session_touch_interval (later - s.last_used_at))) [
        | inl stale ↦ rw stale
        | inr recent ↦ rw recent
      ])

  lookup-quiet :
      (later : ℕ)
      → eq token [] ≡ false
      → any_row (λ x. eq x.token_hash (hash_token p token)) d.sessions ≡ false
      → lookup p store token later (quiet with_session)
        ≡ admit store later created (quiet with_session)
  unfolding lookup read_session statement new_session
  lookup-quiet later present unused = rw (
    present,
    find_row-append (λ x. eq x.token_hash (hash_token p token)) d.sessions created unused
        (eq_refl (hash_token p token)),
  )

  -- With no other connection in the way and no failure: for a user that exists, with an identifier
  -- and a token that no session has, Issue succeeds, and Lookup of the token returns that session
  -- until it expires. Only its last use moves, and only once it is more than the touch interval
  -- old.
  pub issue-lookup :
      (later : ℕ)
      → eq user_id [] ≡ false
      → eq token [] ≡ false
      → any_row (λ u. eq u.id user_id) d.users ≡ true
      → any_row (λ x. eq x.id id || eq x.token_hash (hash_token p token)) d.sessions ≡ false
      → is_expired store (new_session p store user_id meta now id token csrf_token) later ≡ false
      → (lookup p store token later
          (issue p store user_id meta now id (some token) (some csrf_token) (quiet d)).1).0
        ≡ ok (record (new_session p store user_id meta now id token csrf_token) {
          last_used_at = if ltb session_touch_interval (later - now) then later else now;
        })
  unfolding new_session
  issue-lookup later named present known unused live =
      rw
        (
          issue-quiet named known unused,
          lookup-quiet later present (no_hash id (hash_token p token) d.sessions unused),
        )
        (admit-quiet later with_session created live)
