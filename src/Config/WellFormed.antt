-- ===== src/Config/WellFormed.antt =====
-- What a configuration that passes Validate guarantees.
use headnet.Base.{
  ◌≡◌, refl, ◌⊎◌, inl, inr, Bool, true, false, ◌&&◌, ◌||◌, not, Option, none, some, List, [], ◌∷◌,
  ◌++◌, arith, Bool-cases, if◌then◌else◌,
}
use headnet.Base.Int.{ℤ, pos, int_leb, int_leb_trans, int_leb_total}
use headnet.Text.{Text, codes, eq}
use headnet.Platform.{Platform}
use headnet.Config.Problems.{
  Problem, Parsers, base_url_unset, base_url_scheme, base_url_no_host, base_url_insecure,
}
use headnet.Config.{
  Config, ServerConfig, DatabaseConfig, AuthConfig, RateLimitConfig, when, at_most_zero, exceeds,
  check_url, validate_environment, validate_server, validate_database, validate_auth,
  validate_rate_limit, validate, eq_none, password_floor,
}

nil-append : (xs ys : List Problem) → xs ++ ys ≡ [] → (xs ≡ []) × (ys ≡ [])
nil-append [] ys h = (refl, h)
nil-append (x ∷ xs) ys h = cc

when-nil : (b : Bool) (p : Problem) → when b p ≡ [] → b ≡ false
when-nil false p h = refl
when-nil true p h = cc

-- x > 0
abbrev pub IsPositive : ℤ → Type 0
IsPositive x = int_leb x (pos 0) ≡ false

-- The URL that clients reach the server by: in production it is not plain HTTP, unless that was
-- asked for.
abbrev pub IsEncrypted : Parsers → Text → ServerConfig → Type 0
IsEncrypted parsers env s =
    (scheme : Text) × (host : Text) × (parsers.parse_url s.base_url ≡ some (scheme, host))
    × (((eq env (codes "production") && not s.allow_insecure_http) ≡ false)
        ⊎ (eq scheme (codes "https") ≡ true))

-- A configuration that is safe to start a server with.
pub record IsWellFormed (parsers : Parsers) (c : Config) : Type 0 where
  pub known_environment :
      (eq c.environment (codes "development") || eq c.environment (codes "production")) ≡ true
  pub encrypted : IsEncrypted parsers c.environment c.server
  pub read_bounded : IsPositive c.server.read_timeout
  pub write_bounded : IsPositive c.server.write_timeout
  pub body_bounded : IsPositive c.server.max_body_bytes
  pub connections : IsPositive c.database.max_open_conns
  pub idle_connections : int_leb c.database.max_idle_conns c.database.max_open_conns ≡ true
  pub sessions_end : IsPositive c.auth.session_lifetime
  pub idle_within : int_leb c.auth.session_idle_timeout c.auth.session_lifetime ≡ true
  pub passwords : int_leb (pos password_floor) c.auth.min_password_length ≡ true
  pub limited :
      (c.rate_limit.enabled ≡ false)
      ⊎ (IsPositive c.rate_limit.auth_requests_per_minute
          × (int_leb c.rate_limit.auth_requests_per_minute c.rate_limit.requests_per_minute ≡ true))

environment-known :
    (env : Text)
    → validate_environment env ≡ []
    → (eq env (codes "development") || eq env (codes "production")) ≡ true
unfolding validate_environment
environment-known env h = ground arith

check_url-encrypted :
    (env : Text) (insecure : Bool) (o : Option (Text × Text))
    → check_url env insecure o ≡ []
    → (scheme : Text) × (host : Text) × (o ≡ some (scheme, host))
      × (((eq env (codes "production") && not insecure) ≡ false)
          ⊎ (eq scheme (codes "https") ≡ true))
check_url-encrypted env insecure none h = cc
check_url-encrypted env insecure (some (scheme, host)) h =
    (scheme, host, refl, safe (eq scheme (codes "http")) (eq scheme (codes "https")) (eq host []) h)
  where
    safe :
        (http https blank : Bool)
        → (if not http && not https
            then base_url_scheme ∷ []
            else if blank
            then base_url_no_host ∷ []
            else when (eq env (codes "production") && http && not insecure) base_url_insecure)
          ≡ []
        → ((eq env (codes "production") && not insecure) ≡ false) ⊎ (https ≡ true)
    safe http true blank h = inr refl
    safe false false blank h = cc
    safe true false true h = cc
    safe true false false h = inl (
        ground (
          arith,
          when-nil (eq env (codes "production") && true && not insecure) base_url_insecure h,
        ))

module _ (parsers : Parsers) (env : Text) (s : ServerConfig) where
  server-safe :
      validate_server parsers env s ≡ []
      → IsEncrypted parsers env s
        × IsPositive s.read_timeout
        × IsPositive s.write_timeout
        × IsPositive s.max_body_bytes
  unfolding validate_server
  server-safe h =
      let (h₁, body) = nil-append _ _ h in
      let (h₂, shutdown) = nil-append _ _ h₁ in
      let (h₃, idle) = nil-append _ _ h₂ in
      let (h₄, write) = nil-append _ _ h₃ in
      let (h₅, read) = nil-append _ _ h₄ in
      let (listen, url) = nil-append _ _ h₅ in
      (base url, when-nil _ _ read, when-nil _ _ write, when-nil _ _ body)
    where
      base :
          (if eq s.base_url []
              then base_url_unset ∷ []
              else check_url env s.allow_insecure_http (parsers.parse_url s.base_url))
            ≡ []
          → IsEncrypted parsers env s
      base e = elim (Bool-cases (eq s.base_url [])) [
        | inl blank ↦ cc (rw blank at e)
        | inr set ↦
            check_url-encrypted env s.allow_insecure_http (parsers.parse_url s.base_url)
              (rw set at e)
      ]

not_exceeds : (a b : ℤ) → exceeds a b ≡ false → int_leb a b ≡ true
not_exceeds a b h = ground arith

within :
    (a b : ℤ) → IsPositive b → (not (at_most_zero b) && exceeds a b) ≡ false → int_leb a b ≡ true
within a b positive h = ground arith

database-safe :
    (d : DatabaseConfig)
    → validate_database d ≡ []
    → IsPositive d.max_open_conns × (int_leb d.max_idle_conns d.max_open_conns ≡ true)
unfolding validate_database
database-safe d h =
    let (h₁, lifetime) = nil-append _ _ h in
    let (h₂, idle) = nil-append _ _ h₁ in
    let (h₃, negative) = nil-append _ _ h₂ in
    let (driver, open_conns) = nil-append _ _ h₃ in
    let some_open = when-nil _ _ open_conns in
    (some_open, within d.max_idle_conns d.max_open_conns some_open (when-nil _ _ idle))

idle-le :
    (idle life : ℤ)
    → IsPositive life
    → (not (at_most_zero idle) && not (at_most_zero life) && exceeds idle life) ≡ false
    → int_leb idle life ≡ true
idle-le idle life positive h = elim (Bool-cases (at_most_zero idle)) [
  | inl none_set ↦ int_leb_trans idle (pos 0) life none_set (int_leb_total life (pos 0) positive)
  | inr set ↦ ground arith
]

auth-safe :
    (a : AuthConfig)
    → validate_auth a ≡ []
    → IsPositive a.session_lifetime
      × (int_leb a.session_idle_timeout a.session_lifetime ≡ true)
      × (int_leb (pos password_floor) a.min_password_length ≡ true)
unfolding validate_auth
auth-safe a h = elim (Bool-cases (eq_none a.providers)) [
  | inl nobody ↦ cc (rw nobody at h)
  | inr somebody ↦
      let (h₁, providers) = nil-append _ _ (rw somebody at h) in
      let (h₂, password) = nil-append _ _ h₁ in
      let (h₃, idle) = nil-append _ _ h₂ in
      let (lifetime, negative) = nil-append _ _ h₃ in
      let positive = when-nil _ _ lifetime in
      (
        positive,
        idle-le a.session_idle_timeout a.session_lifetime positive (when-nil _ _ idle),
        not_exceeds (pos password_floor) a.min_password_length (when-nil _ _ password),
      )
]

rate_limit-safe :
    (r : RateLimitConfig)
    → validate_rate_limit r ≡ []
    → (r.enabled ≡ false)
      ⊎ (IsPositive r.auth_requests_per_minute
          × (int_leb r.auth_requests_per_minute r.requests_per_minute ≡ true))
unfolding validate_rate_limit
rate_limit-safe r h = elim (Bool-cases r.enabled) [
  | inr off ↦ inl off
  | inl on ↦
      let (h₁, exceed) = nil-append _ _ (rw on at h) in
      let (h₂, burst) = nil-append _ _ h₁ in
      let (h₃, requests) = nil-append _ _ h₂ in
      inr (
        when-nil _ _ requests,
        not_exceeds r.auth_requests_per_minute r.requests_per_minute (when-nil _ _ exceed),
      )
]

-- A configuration in which Validate finds no problem is safe to start with: its environment is
-- known, the URL for clients parses and is not plain HTTP in production unless that was asked
-- for, requests and their bodies are bounded, idle connections and idle sessions stay within their
-- limits, passwords have at least twelve characters, and the limit of sign-in attempts, where there
-- is one, is positive and no looser than the general one.
pub validate-IsWellFormed :
    (p : Platform) (parsers : Parsers) (c : Config)
    → validate p parsers c ≡ []
    → IsWellFormed parsers c
unfolding validate
validate-IsWellFormed p parsers c h =
    let (h₁, rate) = nil-append _ _ h in
    let (h₂, log) = nil-append _ _ h₁ in
    let (h₃, auth) = nil-append _ _ h₂ in
    let (h₄, network) = nil-append _ _ h₃ in
    let (h₅, database) = nil-append _ _ h₄ in
    let (environment, server) = nil-append _ _ h₅ in
    let (encrypted, read, write, body) = server-safe parsers c.environment c.server server in
    let (open_conns, idle_conns) = database-safe c.database database in
    let (life, idle, password) = auth-safe c.auth auth in
    record {
      known_environment = environment-known c.environment environment;
      encrypted = encrypted;
      read_bounded = read;
      write_bounded = write;
      body_bounded = body;
      connections = open_conns;
      idle_connections = idle_conns;
      sessions_end = life;
      idle_within = idle;
      passwords = password;
      limited = rate_limit-safe c.rate_limit rate;
    }
