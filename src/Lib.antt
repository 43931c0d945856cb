-- ===== src/Lib.antt =====
-- git-simulator: repositories whose branch heads lag behind their webhooks.
--
-- The program keeps simulated git repositories in memory. A push makes a commit that becomes
-- visible at once or after a delay; webhooks for it are posted to a target at times that the
-- caller chooses. So a test can make a webhook arrive before git clients see its commit.
--
-- The parts and their files:
-- - Core: pkg/core. LocalDir is localdir.go over a tree that stands for what fs.WalkDir finds.
--   Errors are the values of errors.go and of fmt.Errorf, and Result and Exec the code that
--   returns them. Content is content.go, Provider the interface of provider.go. Clock is the
--   ManualClock of clock.go, used by one goroutine at a time; Clock/Threads has the same
--   methods as steps of goroutines on the clock's channel, each step one receive or send.
-- - Store: pkg/store. Git is the part of go-git that the store calls, a parameter with laws
--   (GitLaws) that Toy satisfies. Objects is how git clients read the stored objects back, more
--   laws of go-git (ObjectLaws), Commit/Total has those of its encoding (EncodeLaws), and
--   Commit/Addressed says that objects have the hash of their encoding. Refs is refs.go, Commit
--   is commit.go, Repo with its child modules is repo.go, and Registry is store.go, where
--   pointers are indices into a heap. Each method takes the readings of the clock that it
--   makes, one for each call of clock.Now in the source, and the content provider as a
--   function.
-- - Emitter: pkg/emitter. World is all that it meets: the clock, the context and the HTTP
--   target, as functions of the history of events. Send is sendWithRetry of emitter.go, Batch
--   is sendBatch of schedule.go.
-- - Scenario: pkg/scenario, over a record Env of what Repo, FireFunc, the wall clock and the
--   context do to a state. Order is resolveOrder, PushN, Mixed and Race are the files of these
--   names.
-- - Gitserver: pkg/gitserver. Paths is the parsing of request paths in resolve.go and
--   server.go, Serve is resolveRepo and ServeHTTP up to the pack protocol, and Pack is
--   uploadpack.go and ServeHTTP with it, over the sessions of go-git's server (PackServer) as a
--   parameter; Pack/Answers has what is documented of them (Works).
-- - Gitsim: pkg/gitsim. Options and Config are options.go, SimRepo and Simulator are the types
--   of these names in gitsim.go, where a *SimRepo is an index into the handles, and a handle
--   shares its repository with the store. RaceWindow joins SimRepo to the scenario Race.
--   ControlApi is the handlers of http_api.go, from a decoded request to a status and a value,
--   and Mux is the routing of Handler and mountControlAPI.
-- - Providers: pkg/provider. Registry is registry.go, Bytes the UUIDs and hexadecimal digits,
--   Library what the packages use of other libraries (JSON, HMAC, base64 and the formatting of
--   times are parameters; the payload types are records of the fields that the source sets).
--   Github, Gitlab, Bitbucket, BitbucketServer, Gogs and AzureDevOps are the packages of these
--   names, and Vendors puts them side by side.
-- - Command: cmd/gitsim/main.go up to the HTTP server.
-- - Base: integers, text, maps, sorting and lists that the others share.
--
-- How the model is made: a map is an association list with the source's answer for a missing
-- key. A lock is held for a whole method, so a method is one step; only ManualClock, which has
-- no lock, is modelled with interleavings. Times and durations are integers without a bound,
-- except where the source multiplies (milliseconds to a Duration, and the doubled wait of a
-- retry), where they wrap around at 64 bits. Go's `int` counters have no bound. A run-time
-- panic ends a call like an error, and has an error value of its own.
--
-- Loops are structural recursion. Fuel is used in three places: buildTree recurses on fuel,
-- which is one more than the characters of all paths, and each directory is entered with
-- shorter paths (Store/Commit/Fuel); the swaps of resolveOrder get n rounds, and each round
-- narrows the gap; the digits of a number n get n + 1 rounds.
--
-- Headers have the canonical spelling of their keys that http.Header.Set gives them. A control
-- request comes with its body decoded, or with the error of decoding it. The emitter and the
-- receivers of webhooks do not call the simulator; the invariant of the simulator is proved for
-- any wait that keeps it.
--
-- Not modelled: the JSON of requests and answers; the types of pkg/core/types.go, which nothing
-- uses; the parsing of the flags and the HTTP server itself (cmd/gitsim); RealClock and the
-- sleep between two polls of ManualClock, which only call package time. go-git, package time,
-- package net/http and package net/url are parameters.
mod Base
pub mod Core
pub mod Store
pub mod Emitter
pub mod Scenario
pub mod Gitserver
pub mod Providers
pub mod Gitsim
pub mod Command
