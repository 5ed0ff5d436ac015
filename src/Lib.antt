-- ===== src/Lib.antt =====
-- Headnet's control plane, as far as it is modelled: what its database may ever hold, what the
-- operations on it return, and what a server and a client agree to speak.
--
-- Parts, and where they are modelled.
--   internal/storage     Storage: a computation `M A` takes a world, which is the database and what
--                        the environment does before each statement, to a result and a world.
--                        `in_tx` is DB.InTx. Storage.Metadata and Storage.Instance are metadata.go,
--                        Storage.Migrations has Migrate and LoadMigrations of migrate.go.
--                        Schema has the rows and the tables.
--   internal/network     Network: `allocate` is Allocator.Allocate, `allocate_from` with `attempts`
--                        is allocateFrom and its loop, `free_addresses` is freeAddresses,
--                        `taken_in` is takenIn, `release` is Release, `last_addr` is lastAddr.
--   internal/devices     Devices.SetupKeys is setupkey.go, Devices.Inventory is device.go and
--                        Devices.Tokens is token.go, one definition per method. Devices.Requests
--                        puts the operations that write together as requests and serves them.
--                        Devices.Listing is List and ListSetupKeys.
--   internal/auth        Auth.Sessions is session.go: `issue`, `lookup`, `revoke`,
--                        `revoke_all_for_user` and `delete_expired` of SessionStore, `verify_csrf`.
--                        Auth.Passwords is password.go: `hash_password` and `verify_password`.
--                        Auth.Users is user.go, one definition per method of UserStore, and
--                        Auth.Accounts puts those that write together as requests.
--   internal/config      Config: `validate` is Config.Validate with the checks of each section,
--                        `ip4_pool` and `ip6_pool` are what the allocator is built from.
--   internal/logging     Config: `knows_level` and `knows_format` are ParseLevel and ParseFormat.
--   internal/wireguard   WireGuard: `generate_key`, `clamp`, `parse_private_key` and
--                        `private_key_base64` of key.go.
--   packages/api         Api: the error codes of errors.go; Api.Health is types.go.
--   packages/config      Settings: `load`, `apply_environment` and `redact` are Load, ApplyEnv and
--                        Redact, in Settings.Loading, Settings.Overlay and Settings.Redaction.
--   internal/server,     Server: the request, the response and the parts of a server. Server.Access
--   internal/httpapi     is middleware.go, Server.Accounts is auth.go, Server.Devices is devices.go and
--                        device_auth.go, Server.SetupKeys the setup keys of devices.go: one
--                        definition per handler, from a world to a response and a world.
--                        Server.Probes is routes.go: the probes, the version and the negotiation.
--                        Server.Listing has the two handlers that list. Server.Middleware and
--                        Server.Recorder are middleware.go, with `build_handler` of server.go.
--   internal/httpapi     RateLimit is ratelimit.go: `new_limiter`, `allow`, `sweep` and `size` are
--                        newLimiter, Allow, sweepLocked and Size.
--   internal/cliutil     Commands is command.go: `resolve`, Commands.Running `run` and Commands.Help
--                        `write_help` are resolve, Run and writeHelp.
--   packages/protocol    Protocol: `negotiate` is Negotiate, `intersect` is Set.Intersect, `new_set` is
--                        NewSet, `parse_capabilities` is ParseCapabilities and `sorted_names` is
--                        Strings.
--   packages/shared      Shared: `new_id`, `split_id` and `has_prefix` are NewID, SplitID and
--                        HasPrefix of id.go.
--   net/netip, strings   Netip and Text: what the packages above use of the standard library.
--
-- An enrolment (`enroll`) reads a setup key and then runs one transaction: it spends the key,
-- allocates addresses, inserts the device and its credential. A revocation releases the addresses,
-- marks the device and deletes its credential. `authenticate` and `heartbeat` look a credential up.
-- A guarded handler runs behind `authenticated`: the session of the cookie, then the CSRF token, then
-- the role. A sign-in verifies the password, may hash it again, issues a session and stamps the
-- account; a bootstrap claims the installation and creates the administrator in one transaction.
--
-- How the code corresponds.
--   A table is a list of rows; an INSERT appends a row, or fails on a constraint of its table. An
--   UPDATE or DELETE applies to the rows of its WHERE clause and returns how many they were.
--   Between any two statements, also within a transaction, other connections may change the
--   database, and every statement may fail: both are the events of the world, which a theorem
--   takes as they come. A transaction that fails undoes this connection's changes and keeps those
--   of the others.
--   Instants are nanoseconds. Strings are lists of code points. The hash function, the base64
--   decoders and the case table are fields of Platform. Identifiers, tokens and the choices of a
--   retry, which the source draws at random, are arguments. Argon2, base64, fmt.Sscanf and the
--   parser of addresses are fields of Libraries.
--   A handler gets the body of its request decoded, or the reply that refused it. A reply says the
--   text of an error of a store by naming the error.
--   A float64 is an element of a type that a limiter is given with its arithmetic; the map of
--   buckets is a list of keys with their buckets. A stream that a command writes to is the text it
--   got, and the package flag is an argument.
--   A configuration is what the package reflect shows of it, a tree of values with the tags of the
--   fields. The readings of the clock and what a build says of itself are arguments of a probe.
--   A layer of the middleware is a function from a handler to a handler; a handler answers or
--   panics, given the request, the headers so far and the limiter with the state of the routes.
--   A column of addresses holds an address or text that does not parse.
--
-- Bounds and fuel.
--   The scan of a pool takes as many steps as the pool has addresses, which reaches its end. The
--   loop of an allocation takes the 32 attempts of the source. A number is printed with 20 digits at
--   most, which is enough for a machine word. A duration of hours wraps around at 64 bits.
--
-- Not modelled: panics but those of a route before its answer is begun, the drivers and their SQL,
-- contexts and their cancellation, JSON, the route table, the loading of the server's
-- configuration, log records, key stores and the programs around them. The maximum and the uses of
-- a setup key are natural numbers, since the program writes no negative ones.
pub mod Api
pub mod Auth
pub mod Base
pub mod Commands
pub mod Config
pub mod Devices
pub mod Netip
pub mod Network
pub mod Platform
pub mod Protocol
pub mod RateLimit
pub mod Schema
pub mod Server
pub mod Settings
pub mod Shared
pub mod Storage
pub mod Text
pub mod WireGuard
