-- ===== src/Lib.antt =====
-- nitrokit: a verification library for the Go web-server kit (package nitrokit).
--
-- The kit is a set of pieces; a handler chain composes them by wrapping one handler in another. Each
-- piece is modelled by the file of its name, and the folder beside that file holds what is proved of
-- it and its tests:
--   FailLimit.antt    faillimit.go   the limiter of failures: Blocked, Fail, Pass
--   RateLimit.antt    ratelimit.go   the token bucket: NewLimiter, Allow, sweep
--   ClientIp.antt     clientip.go    the client's address: ParseTrustedProxies,
--                                    TrustPrivateProxies, ClientIP
--   Cache.antt        cache.go       the three policies, and ETagMatch
--   Json.antt         json.go        WriteJSON, WriteJSONIndent, JSONError, ReadJSON
--   Form.antt         form.go        ReadForm
--   Middleware.antt   middleware.go  SecureHeaders, HSTS; Middleware/Recorder.antt: AccessLog
--   Render.antt       render.go      Render, RenderPartial; Render/Parse.antt: ParseTemplates
--   SigV4.antt        sigv4.go       awsEscape, canonicalQuery, canonicalURI; SigV4/Sign.antt: signV4
--   Assets.antt       assets.go      Assets: NewAssets, URL, ServeHTTP; Assets/Dir.antt: DirAssets;
--                                    Assets/Interleaving.antt: its hash under concurrent calls
--   Dns.antt          dns.go         the Route 53 solver: NewRoute53, SetTXT, CleanupTXT, change,
--                                    waitInSync, call
--   Tls.antt          tls.go         the checks of RunTLS, and how it sorts the hosts;
--                                    Tls/Managers.antt: the rest of RunTLS
--   WriteBudget.antt  writebudget.go the write deadline that writes renew
--   Env.antt          env.go         EnvOr, EnvInt, EnvFloat, EnvBool, EnvDuration
--   Health.antt       health.go      Healthz, HealthProbe
--   Lifecycle.antt    lifecycle.go   NewServer, Run, and runAll as a step relation
--   DnsCert.antt      dnscert.go     the manager of a wildcard certificate: its names and its answer
--                                    to a handshake; Store.antt beside it: its files; Obtain.antt:
--                                    the ACME order and renewLoop; Propagation.antt: with the
--                                    solver of Dns.antt
-- What they share:
--   Result.antt    results with an error, and code on a world that lies outside the program, with
--                  do blocks; Result/Triple.antt: what holds before and after such code;
--                  Result/Forward.antt: code that does not turn a clock back
--   Prelude.antt   the library's names, signed integers over the native numbers, lists
--   Dict.antt      Go maps as association lists; Eq is the interface of a key type
--   Text.antt      Go strings as lists of bytes, and the functions of the package strings that are
--                  called; spaces and letter case are those of ASCII
--   Clock.antt     time.Time as nanoseconds from the zero Time, time.Duration as a signed number
--                  of nanoseconds, Time.Sub with its saturation at 64 bits, Time.Add
--   Netip.antt     addresses and prefixes of net/netip, and their parsers
--   HostPort.antt  net.SplitHostPort
--   Http.antt      header fields, the response that a ResponseWriter builds, and http.Error
--
-- RunTLS is where pieces meet: its hosts decide which managers of DnsCert.antt there are, each
-- manager places its records through a solver such as that of Dns.antt, whose requests SigV4.antt
-- signs, and the servers are run by Lifecycle.antt.
--
-- A method under a mutex is one step, a function on the state; each reading of a clock is an
-- argument, and so is the order in which Go ranges over a map. A panic is `none`. A JSON codec, the
-- parsers of forms, numbers and durations, the file system, templates, SHA-256, HMAC, XML, PEM and
-- keys, the certificate authority, and HTTP clients are arguments: code outside the package of which
-- only what the kit does with the results is stated. The float64 tokens of the rate limiter are
-- scaled integers without rounding.
--
-- Code that calls services or files acts on a world of a type that is left open: the interfaces of
-- DnsCert.antt are the calls, each a function from a world to an answer and the next world. Contexts
-- and their timeouts show in the answers. The goroutines of runAll are interleaved by a step relation,
-- one step for each thing that a goroutine does alone. So are the calls of DirAssets.hash, whose mutex
-- is released while the file is read, with the replacing of files.
--
-- Most loops of the source are a recursion on the list that they read. The loop over the PEM blocks of
-- a file runs on fuel, one round for each byte and one more, which is enough since a block is not
-- empty; renewLoop, which does not end by itself, runs for any number of rounds, and waitInSync for
-- a number of polls, enough if it exceeds the number of waits that the context allows.
--
-- Not modelled: autocert and everything else outside the package, the sources of these arguments.
mod Prelude
pub mod Result
pub mod Dict
pub mod Text
pub mod Clock
pub mod Netip
pub mod HostPort
pub mod Http
pub mod FailLimit
pub mod RateLimit
pub mod ClientIp
pub mod Cache
pub mod Json
pub mod Form
pub mod Middleware
pub mod Render
pub mod SigV4
pub mod Tls
pub mod WriteBudget
pub mod Env
pub mod Health
pub mod Lifecycle
pub mod Dns
pub mod Assets
pub mod DnsCert
