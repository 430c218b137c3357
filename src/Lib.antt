-- ===== src/Lib.antt =====
-- remnawave-subpage-proxy is a reverse proxy before the subscription page of a Remnawave panel. It
-- recognises the paths that name a subscription, refuses the paths that scanners try, rewrites the
-- headers of a subscription's response from templates, and replays the last good response while the
-- upstream fails.
--
-- How the parts work together. internal/config reads the environment and the file. The proxy
-- (internal/proxy) first asks the blocker, then reads the route and looks for a rule on the User-Agent,
-- which may answer at once. It forwards the request with the address that internal/realip works out. On
-- the way back it hands the response's header to the engine of internal/rewrite, which collects a
-- candidate for each header that a rule names or that holds a placeholder, asks the panel where a
-- placeholder needs it, and writes what internal/tmpl renders with the values that internal/subinfo
-- resolves. Then internal/hosts shuffles the servers in the body, or writes the dead servers of a notice.
-- A good response goes to internal/subcache, which answers while the upstream fails.
--
-- Files and the code they model:
--   Prelude           shared names, lemmas and arithmetic; Go's strings as lists of bytes
--                     (Prelude/Text), int64 (Prelude/Int) and maps (Prelude/Assoc).
--   Config/Patterns   internal/config/patterns.go: `CompileBlock`, `CompileHosts`.
--   Config/UserAgents internal/config/useragents.go: `CompileUserAgents`.
--   Config/File       internal/config/file.go: the types, `defaultFile`, `isEmpty`, `validVarName`.
--   Config/Validate   internal/config/file.go: `validate`.
--   Config/Env        internal/config/env.go.
--   Config/Settings   internal/config/config.go: the types, and the checks of `Load`.
--   Config/Files      internal/config/file.go: `splitUnknownFields`, `loadFile`.
--   Config/Load       internal/config/config.go: `Load`, `parseURL`.
--   Proxy/Route       internal/proxy/route.go: `ParseRoute` and what it calls.
--   Proxy/Block       internal/proxy/block.go: `NewBlocker`, `Blocked`, `extension`.
--   Proxy/Outside     what internal/proxy takes of other packages: a parameter.
--   Proxy/Body        internal/proxy/body.go. A body is what its reads return.
--   Proxy/UserAgent   internal/proxy/useragent.go.
--   Proxy/Stages      internal/proxy/proxy.go, cache.go, shuffle.go: `ModifyResponse`, `handleError` and
--                     the stages that they call.
--   Proxy/Serve       internal/proxy/proxy.go, headercase.go: `ServeHTTP`, the hook `Rewrite`,
--                     `lowercaseKeys`.
--   Hosts/Shuffle     internal/hosts/shuffle.go: the groups, `permutation`, `reorderNames`.
--   Hosts/Links       internal/hosts/links.go.
--   Hosts/Json        internal/hosts/jsonobj.go; encoding/json is a parameter.
--   Hosts/Documents   internal/hosts/xray.go, singbox.go.
--   Hosts/Clash       internal/hosts/clash.go; yaml.v3 is a parameter.
--   Hosts/Apply       internal/hosts/shuffle.go: `Sniff`, `Apply`.
--   Hosts/Unchanged   bodies that are reported as unchanged.
--   Hosts/Placeholder internal/hosts/placeholder.go.
--   Tmpl              internal/tmpl/tmpl.go: `Contains`, `Names`, `Render`, `Truncate`. The regular
--                     expression of a placeholder is the scanner `match_front`.
--   Panel/Info        internal/panel/client.go: `User`, `Info` and the numbers in them.
--   Panel/Client      internal/panel/client.go: `New`, `SubscriptionInfo`, `Ping`.
--   Panel/Cache       internal/panel/cache.go, each section under the lock as a function.
--   Panel/Cache/Flight   internal/panel/cache.go: `SubscriptionInfo` as a step relation over the requests.
--   Subinfo/UserInfo  internal/subinfo/userinfo.go.
--   Subinfo/Catalog   internal/subinfo/vars.go: the table of names.
--   Subinfo/Vars      internal/subinfo/vars.go: the resolver. `Resolver.now` is `Platform.now`.
--   Subinfo/Floats    what the resolver takes of Go's floats and of its package time: a parameter.
--   B64               internal/b64/b64.go; encoding/base64 is a parameter.
--   Rewrite/Codec     internal/rewrite/codec.go.
--   Rewrite/Header    net/http's Header, as far as the engine uses it.
--   Rewrite/Engine    internal/rewrite/engine.go up to `collect`.
--   Rewrite/Engine/Loop  internal/rewrite/engine.go: `Apply`, `Render` and what they call.
--   Subcache          internal/subcache/subcache.go.
--   RealIp            internal/realip/realip.go; the packages net and net/netip are a parameter.
--   Start             cmd/subpage-proxy/main.go: `newHandler`, `newFetcher`, the probes of the health.
--   Tests             concrete inputs, runs of the definitions and the theorems applied to them.
-- Beside a model stands a folder with what is proved of it.
--
-- State and errors. A method that changes its receiver returns the new state. A second result `ok` or a
-- nil pointer is an Option. A Go map is an association list without repeated keys; where the code ranges
-- over one, the order of the visits is an argument. The clock of the cache is an argument.
--
-- Bounds and fuel. An int64 is an integer in its range; the sums in `Used` and `readUpTo` and the
-- products in `parseSize` and `duration` can leave the range, and their wrap-around is written out.
-- `parse_members` runs on the number of bytes that the decoder has left, since a member takes bytes.
-- The second loop of `evictLocked` runs on fuel: each round takes an entry away, and the number of
-- entries is given. The byte count of the cache is a number that is never subtracted below zero in a
-- valid cache. The loop of `unitIndex` runs on a bound by the number of units.
--
-- Parameters. Regular expressions are tests on texts; Unicode beyond ASCII, floats, times, IP addresses,
-- base64, JSON, YAML, URLs, the environment, the file system, the random swaps of a shuffle and the
-- panel's answer are records or functions that the definitions take. What net/http/httputil does between
-- the two hooks is left to it: the header that goes out and the response that comes back are arguments.
--
-- Not modelled: the listening and the shutdown of the servers, logging, the YAML decoding of
-- enumerations, the transport and the connection itself, and the capacity of buffers, such as the one
-- that `readUpTo` takes from the content length.
pub mod Prelude
pub mod Config
pub mod Tmpl
pub mod Panel
pub mod Subinfo
pub mod B64
pub mod Rewrite
pub mod Subcache
mod Tests
pub mod Proxy
pub mod RealIp
pub mod Hosts
pub mod Start
