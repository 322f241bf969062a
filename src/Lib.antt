-- ===== src/Lib.antt =====
-- A model of the core logic of gooners, a repository of MCP servers in Go: a gateway that proxies the
-- tools, prompts and resources of many upstream MCP servers, an SSH server with sessions, transfers and
-- spooled command output, the policies that guard their side effects, and the authentication of clients.
--
-- How the parts interact. A new configuration is compared with the running one, and the upstreams that
-- it changes are detached, which frees their names, before their successors are attached. An upstream's features enter the gateway through BuildTools and
-- NamespaceName, which filter and prefix them, and are registered in a feature registry; a listing with
-- names that collide is reported. A client's request is routed by host and path to a server, passes
-- the authentication, which tells the operator's secret from the tokens of a local OAuth facade, and
-- the scope middleware, and is sent to the upstream while a counter of calls in flight holds the
-- upstream open. Outgoing HTTP goes through a policy. A transfer over SSH is a job that any caller may
-- abort, and a command's output goes to a buffer that moves to a file when it grows.
--
-- What stands where:
--   Auth               mcpauth/config.go: Validate
--   Auth/Oauth         mcpauth/oauth.go: the endpoints of the OAuth facade, with the codes and tokens
--   Auth/Middleware    mcpauth/auth.go: Middleware
--   Base/*             shared helpers: tests into Bool, lists, byte strings, association lists
--   Gateway/Router     internal/gateway/router/router.go: New, Add, Lookup, lookupNode, isBoundary
--   Gateway/Registry   internal/gateway/feature_registry.go: ensureUpstream, diff, apply; and
--                      registerUpstreamPrompts of internal/gateway/gateway.go in Registry/Sync
--   Gateway/Names      internal/gateway/ns.go: NamespaceName, DetectCollisions
--   Gateway/Identical  internal/gateway/ns.go: collisionSet, which lets identical definitions through
--   Gateway/Tools      internal/gateway/upstream.go: BuildTools, allowed, TrimDescription
--   Gateway/Scopes     internal/gateway/scope.go, discovery.go, auth.go: scopeMiddleware,
--                      lazyMiddleware, resolveToolOwner, visibleTools, handleDescribeTools
--   Gateway/Search     internal/gateway/discovery.go: searchScore, handleSearchTools
--   Gateway/Features   internal/gateway/gateway.go: registerUpstreamPrompts, registerUpstreamResources,
--                      registerUpstreamResourceTemplates
--   Gateway/Secrets    internal/gateway/secret.go: NewSecretResolver, Resolve, Interpolate,
--                      extractSecretRefs
--   Gateway/Config     internal/gateway/config.go: Validate, whose checks with parameters are in
--                      Config/Checks
--   Gateway/ToolSync   internal/gateway/gateway.go: registerUpstreamTools
--   Gateway/Reload     internal/gateway/reload.go, gateway.go: planUpstreams, restartRequired,
--                      detachUpstream, attachUpstream, removeRoute, setRouteServer, ServerForRequest
--   Gateway/Drain      internal/gateway/drain.go, upstream.go: enter, leave, drain, and the critical
--                      sections of Close and connectOnce as steps of a relation
--   Grafana            internal/tools/grafana/panels.go, rows.go: placePanel
--   Grafana/Sessions   internal/tools/grafana/session.go, rows.go, panels.go: Update, and the handlers
--                      that move rows and panels and delete rows
--   Session/Job        internal/session/job.go: TransferJob
--   Session/Banner     internal/session/pool_handlers.go: truncateBanner, detectPlatform
--   Session/Pool       internal/session/pool_handlers.go: the handlers that change the pool's state
--   Session/Spool      internal/session/spooling_buffer.go: SpoolingBuffer
--   Effect/Policy      internal/effect/http_policy.go, http.go: HTTPPolicy and its three checks
--
-- How the code corresponds. A method with a pointer receiver is a function from the old state to the
-- new one and the results. Go maps are association lists, and where the code ranges over a map the
-- model takes the list's order, which is arbitrary. Strings are lists of bytes, and
-- strings.ToLower is modelled on ASCII. A mutex is not modelled where a method holds it throughout;
-- where a method gives it up, as Close and drain do, each critical section is a step of its own
-- and a run is any interleaving of steps. In Session/Job abortCause and finish are one step each,
-- although they cancel the context outside the lock, and finish reads the cause before it. Numbers of
-- calls in flight are integers without a bound; sizes of buffers are natural numbers without
-- wrap-around; the places of panels are uint32 and wrap.
--
-- Fuel. The loops of TrimDescription and truncateBanner have the byte limit as their fuel, which is
-- enough because each rune takes at least one byte of the limit. The loops over the references in a text
-- have its length as their fuel, and each step of them takes a byte. All other loops are structural.
--
-- Parameters. What an upstream lists, reflect.DeepEqual, net.SplitHostPort, net.ParseIP, url.Parse,
-- url.ParseQuery, SHA-256 and base64, time.ParseDuration, regexp.Compile, path.Match, random tokens
-- and the clock, auth.RequireBearerToken, the environment and the files that secrets are read from,
-- the equality of features, and the handler behind a middleware are arguments of the definitions. How
-- calls on a disk end is an argument of the buffer's Write.
--
-- Not modelled: I/O with upstreams and over SSH, timers, the supervisor that reconnects, decoding the
-- configuration, the reloader, the pool's channels, the tools of the single servers, and generated
-- code. The server's refusal of a URI or a URI template that does not parse, which is a panic of the
-- SDK, is outside the model of registering.
pub mod Auth
pub mod Base
pub mod Effect
pub mod Gateway
pub mod Grafana
pub mod Session
