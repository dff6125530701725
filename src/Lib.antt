-- ===== src/Lib.antt =====
-- egress-router: a model of its Go programs, and what holds of them.
--
-- subscription-manager/main.go keeps a list of subscriptions in a state file, fetches their feeds,
-- turns the node URIs in them into outbounds, adds these to a base config, lets sing-box check the
-- result and publishes it; an HTTP service on the loopback interface adds subscriptions, refreshes
-- and shows the health. catalog-client holds a frozen copy of its URI parser (internal/nodeuri)
-- and a client that builds a candidate config from a catalog (internal/shadow).
--
-- Files, and the code that each is about (subscription-manager/main.go where no other is named):
-- - Common: shared types and lemmas: bytes and the functions of `strings` and `strconv` that the
--   code calls, JSON values, results with an error.
-- - Base64: `decodeBase64` over the encodings of encoding/base64; Base64/RoundTrip: an encoder
--   for the round trip.
-- - Url: net/url as it is used: the percent escapes, the query.
-- - Node: `queryBool`, `tlsFrom`, `transportFrom`, `parseURI`. Node/Defs, Options, Credentials
--   and Parse hold the definitions; Kept, Accepted, WellFormed, SameNode and Reality the proofs.
-- - Nodeuri: catalog-client/internal/nodeuri/parse.go.
-- - Feed: `decodeBody`.
-- - System: the files and the web as explicit state. A World has a plan that decides at every
--   system call whether it succeeds, so a theorem about all worlds covers every failure.
--   System/Frame, Temporary and Recover say which files a piece of code leaves alone,
--   System/Later what no call changes.
-- - Manager/Names: `unsafeName`, `nodeName`, `fragment` and the tags; Manager/Defs: the types
--   and the parameters; Manager/Fetch: `secureRedirect`, `fetch`; Manager/Gather: the pure parts
--   of `buildState`; Manager/Files: `readState`, `writeJSONAtomic`; Manager/Build:
--   `validateConfig`, `buildState`; Manager/Update: `update`, with the health that its deferred
--   function records; Manager/Settings: `env`, `newManager`; Manager/Handler: `reply`,
--   `handler`.
-- - Manager/Loop: `run` and `main`, as a step relation.
-- - Manager/Contract: what `update` promises to a reader of the two files.
-- - Manager/Requests, Gathered, Tags, Running, Served, Ready, Providers, Writing, Publish,
--   Committed, Recovery, Untouched, Base, Feeds, Fed, Refresh, Transaction, Service, Replies,
--   Posted: the proofs.
-- - Paths: path/filepath as the programs use it; Paths/Ancestors and Termination the proofs.
-- - Shadow: catalog-client/internal/shadow/shadow.go and
--   catalog-client/cmd/catalog-shadow/main.go. Shadow/Defs: the types and the parameters;
--   Access: `Token`, `Dial`; Snapshot: `validSnapshot`; Place, Alias and Output: `CheckOutput`;
--   Candidate: the config that `Run` makes; Run: `Validate` and `Run`; Command: `run` of
--   main.go; Given, Chosen, Sources, Tags, Unharmed, Moments, Published, Cleanup, Building,
--   Complete and Executed the proofs.
-- - Tests: the model on concrete inputs.
--
-- State and operations. A function with effects takes a World and returns a World with its result;
-- an error is a value. The handler and `update` take a Service, which is a World with the health;
-- the mutex `mu` makes an update one step. Loops are recursion on their list. The service as a
-- whole is a Loop: the goroutine of a refresh, the channel refreshDone and the timer are counters
-- and flags of it, and a Step is a request, a move of a goroutine or of the runtime, or one round
-- of the `select`. A request may come at any time. There is fuel in two places. `follow`, the
-- redirects of one fetch, has ten rounds, which are enough, since `secureRedirect` refuses an
-- eleventh request. `ancestors`, the loop of `CheckOutput` over the directories, has a round for
-- each byte of the path, which are enough, since each directory is shorter than the last.
--
-- Parameters (Manager.Defs.Platform and ParseUrl): url.Parse, the JSON codecs and the verdict of
-- sing-box. Nothing is assumed of them but in Manager/Contract, where the codec of the state reads
-- back what it writes. A redirect carries the resolved location. For catalog-client
-- (Shadow.Defs.Platform, Shadow.Command.Outside) they are also the answers of the catalog,
-- SHA-256, net.SplitHostPort, net.ParseIP, grpc.NewClient, flags.Parse, which says what the
-- arguments set, and os.Getwd, whose path is assumed to be rooted. The clock, the links and
-- directories and the identity of files, which os.SameFile compares, are part of a World.
--
-- Not modelled: the shutdown of the HTTP server and the text of its log lines; `main` of
-- catalog-shadow, which logs and exits; changes of directories, and crashes between two system
-- calls; aliases of a path (a file is identified by the text of its path, and only `CheckOutput`
-- reads the numbers that os.SameFile compares); the generated catalog-client/internal/gen; the
-- scripts.
pub mod Common
pub mod Base64
pub mod Url
pub mod Node
pub mod Feed
pub mod Nodeuri
pub mod Paths
pub mod System
pub mod Manager
pub mod Shadow
pub mod Tests
