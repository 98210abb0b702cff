-- ===== src/Lib.antt =====
-- gopls-mcp-manager shares one gopls for each git worktree among the sessions of many clients. A session
-- is a router (bridge.go): it reads a client's requests, finds the worktree that each names (routing.go,
-- paths.go), hands it to that worktree's lane (lane.go), which sends it to the gopls, and answers each
-- request once (requests.go). The servers stand in a registry, one file for the managers of all
-- processes (registry.go, manager.go); a sweep removes those that are dead, unwanted or over the budget
-- of open files (probe.go, maintenance.go, pending.go). internal/transport bounds the streams, and
-- internal/config gives the limits. Each gopls is told which directories to watch (watchroots.go); http.go serves
-- clients over HTTP through one session, and main.go reads the command line.
--
-- Config.antt and Config/ model internal/config/limits.go: `Limits`, `WithDefaults`, `FromEnv`.
--
-- Requests.antt and Requests/ model the tracker. State has the data of bridge.go, requests.go, lane.go and
-- pending.go. Admission has `admit`, `bindWorktree`, `placeDelivery`; Credits `beginOperation`,
-- `endOperationLocked`, `ownerLocked`, `release`; Terminal the paths that answer a call (`finish`, `retry`,
-- `failDelivery`, `failInFlight`, `cancelCall`, `startExecution`'s timer, `clearRequests`); Output the
-- channels and the writer; Ingress `newRouter`, `prepare`, `admitted` and a round of `readIngress`. Session
-- composes them: a step is a call of one operation, which the source runs under the router's lock, and the
-- goroutines' steps come in any order, with what their callers see to as a condition of the step. Books has
-- the accounts and what keeps them, Replies the count of the answers.
--
-- Tokens has the token of an operation, through all steps.
--
-- Lanes.antt and Lanes/ model lane.go. Send has `send` with `upstream`, `dialBounded`, `handshake`, `lockWrites`,
-- `giveUp` and `cache`: a move of its goroutine makes one call of the tracker at most, a handshake is one
-- move, and what the system answers a move is a `World`. Refinement sets the moves beside the other
-- goroutines' steps; Progress, Custody and Outcome are about how `send` ends. Cancellations has
-- `sendCancellation`; that no operation of its connection begins while it holds the gate is a condition of
-- the steps in between.
--
-- Watch.antt and Watch/ model watchroots.go. Names and Filters have the names, `pathIncludeFunc` and
-- `newDirFilter`, on paths as lists of segments, with the regular expressions as lists of pieces; Planner
-- has `planWatch` and its walks on the tree that `os.ReadDir` shows; Snapshots has `rememberWatch`,
-- `watchChanged`, `partialChanged` and `forgetWatch`. Matching, Pruning, Coverage, Walks, Plan, Cleanness,
-- Roots, Sound, Recorded and Generations prove of them. `moduleIgnoreFilters` parses files with a library: its rules are among
-- the rules given.
--
-- Rewrite.antt and Rewrite/ model internal/protocol/rewrite.go on the values that its texts stand for. Front.antt
-- and Front/ model http.go (Calls: `httpBackend.call`, the replies, the handler's slots) and the grammar of
-- the arguments of main.go (Arguments).
--
-- Registry.antt and Registry/ model the servers. State and Store have registry.go (`record`, `readMap`,
-- `writeMap`, `withMap`, `withSelectedRecords`), with `signalTerminating` of process.go; Ports and Claim have
-- manager.go (`allocatePort`, `claimPort`, `forget`); Ensure `ensureRecord`, `prepareAdmission` and
-- `forgetCondemned`; Probe `recordAlive` of probe.go and the judgement of `sweepMaintenance`; Budget
-- `overBudget`; Uses `flushUses` and `parseOpenFiles`; Pending `busyWorktrees` of pending.go. Sweep,
-- Allocation, Judgement, Eviction and Admission prove of them.
--
-- Routing.antt and Routing/ model which worktree a call goes to: Memo has paths.go and the memo's half of
-- routing.go, Target `targetContext` and what it calls, Resolved `routeResolved`. Transport.antt and Transport/ model
-- internal/transport/sse.go: Budget has the byte budget and `readFrame`, Events `parseSSEFrame`; Bounded has `messageReader`
-- of internal/transport/stdio.go. Examples/ has each theorem at a concrete input.
--
-- Ids, connections, tokens and contexts are numbers, `none` for nil or an id that is not valid. A Go map is an
-- association list with one entry for a key. What the operating system, git, the network and the SDK answer
-- is a parameter, and so is the JSON of parameters; system calls do not fail, where no error is named. The
-- clock is a field or an argument. An aged use count, a float64 that is not negative, is known by its bit
-- pattern, which has the order of the numbers. Int is Go's int where a value may be negative, and does not
-- wrap: the values are lengths, limits, ports and times. After a session's context is done, nothing reads
-- the output channel, and a message that waits for it is given up.
--
-- Loops are recursion on the list or the tree they range over; `allocatePort`'s takes as fuel the number of ports,
-- which is the bound of the source's own loop. `send` runs as moves, of which there is no bound in the
-- model but the number of its attempts.
--
-- Not modelled: starting and stopping processes, the file lock, the loops that take a lane's deliveries and
-- controls, the adoption of a client's roots request and the text of the answer (bridge.go), the text level of JSON, the rest
-- of stdio framing, the routing goroutine of http.go and its reading of bodies, and the reports (status.go).
mod Prelude
pub mod Config
pub mod Requests
pub mod Lanes
pub mod Registry
pub mod Watch
pub mod Rewrite
pub mod Front
pub mod Routing
pub mod Transport
pub mod Examples
