-- ===== src/Lib.antt =====
-- Fireactions runs GitHub Actions runners in Firecracker virtual machines. This library models the
-- server, which keeps pools of machines at a size, and the agent inside each machine, and proves what
-- they do.
--
-- The parts and how they interact. A pool (server/pool.go) has a loop, Run, which a timer or a trigger
-- wakes; each round calls Scale, which compares the wanted number of machines with the size of the
-- machine map, corrected by two counters of goroutines in flight, and launches goroutines that each
-- create or delete a machine. Creating one (createMachine) pulls the image through the image manager
-- (server/image.go), takes a containerd lease and a CID, registers a runner at GitHub, starts the
-- machine with metadata, and leaves a cleanup goroutine behind that waits for the machine's exit. The
-- gRPC server (server/rpc.go, server/server.go, server/convert.go) lists, scales, pauses and resumes
-- pools, lists machines with what their agents answer, and hands on the agents' logs. The agent
-- (agent/agent.go, agent/rpc.go) reads its configuration from the metadata (agent/mmds/client.go,
-- cmd/fireactions/agent.go), runs the GitHub runner as a process (agent/runner/runner.go), and serves
-- its state and the tail of a log file (agent/tail/tail.go).
--
-- The files:
--   Prelude        shared names; Prelude/Tests (Boolean tests), Lists, Strings (Go strings as lists of
--                  bytes), Map (association lists for Go maps), Int (int and atomic.Int32), Decimal, Paths
--                  (filepath.Join), Fallible (a value or an error), Actions (a state monad with errors, and rules for it), Sort
--   Config         server/config.go and PoolConfig of server/pool.go: the records, and loading them
--   Pool           server/pool.go and server/machine.go: NewPool, the accessors, SetReplicas, Pause,
--                  Resume, scaleUp, scaleDown and Scale. Pool/Events has the goroutines and Run as
--                  events, and the pools that can be reached by any interleaving of them, each round of
--                  Run being one event; Pool/Loop has Run and Scale at every access to shared state,
--                  with anything between; Pool/Stop has Stop, a statement at a time, beside the events of
--                  Pool/Events; Pool/Spec what createMachine
--                  asks of Firecracker and GitHub
--   Metrics        server/metrics.go: a pool's series, and what sets them in server/pool.go and
--                  server/rpc.go; Metrics/Status has the handlers that set the status step by step, and
--                  Metrics/Service the two series of the whole server
--   Host           what createMachine has around it: containerd, Firecracker, GitHub, the file system
--   Create         createMachine, createSnapshot, deleteGitHubRunner and the end of the cleanup
--                  goroutine of server/pool.go
--   Image          server/image.go
--   Server         server/rpc.go, server/server.go (the searches) and server/convert.go
--   Scanner        bufio.Scanner with ScanLines, as far as the agent uses it
--   Tail           agent/tail/tail.go: what a tail sends; Tail/Goroutine has its goroutine cut at the
--                  statements that may wait
--   Runner         agent/runner/runner.go
--   Agent          agent/agent.go, agent/rpc.go and agent/config.go
--   Mmds           agent/mmds/client.go and cmd/fireactions/agent.go
--   Journey        Create, Mmds, Agent and Runner together: a runner's configuration on its way from GitHub
--                  to the command line
--   Deepcopy       helper/deepcopy/deepcopy.go
--   Startup        New and Run of server/server.go
--   Printer        helper/printer/printer.go; Printer/Written has what is written, errors included
--   StringId       helper/stringid/stringid.go
--   Github         helper/github/client.go
--   Logger         helper/logger/logger.go
--   Commands       the commands of cmd/fireactions: pools.go, and in Commands/Listing (with
--                  printables.go), Logs, Login and Serve those that print tables, logs.go, login.go, and
--                  server.go with validate.go; Commands/Tree and Commands/Root have the tree of
--                  commands of cmd.go, and Commands/Dispatch and Ready what cobra may run of it
-- The children of each hold proofs, named for what they are about, and its Tests the examples. Some hold
-- a part of the model: Server/Gather (ListMachines), Server/Proxy (GetMachineLogs), Server/Images,
-- Create/Cleanup (the end of the cleanup goroutine), Tail/Reopen (reopenFile and setErr) and Agent/Serving
-- (Run of agent.go). A function of the source keeps its name in snake case: scaleUp is scale_up.
--
-- How the code is modelled. A method that changes its receiver takes the old record and gives the new
-- one. The counters of type atomic.Int32 are bit patterns below 2 ^ 32 that wrap around as Go's do;
-- `int` is unbounded where the code only adds and subtracts int32 values and sizes in it. The
-- goroutines that a pool launches are cut into steps at their accesses to shared state, but for the map's new
-- entry and the launch of its cleanup goroutine, which are one step; the pool's record counts the
-- goroutines by the step that they stand before, which stands for the stacks of the running program.
-- Concurrency is then the choice of the next event. For the loop Run there are two models. In Pool/Events
-- a round, with its call of Scale, is one event: what is said of the pools that are reached by events
-- (Reach, Work, StopRun, Recorded) is said of the schedules in which nothing falls into a round. In
-- Pool/Loop each read of Run and Scale and each launch is a step, and what is said of Runs is
-- said of every schedule. The handlers of the API are one event each, but for Metrics/Status. Messages
-- that concurrent goroutines of a handler send arrive in the order of a parameter. Time is left out: a timer is an event that may come at any moment.
--
-- Code that is not in the repository is a parameter: containerd, Firecracker, GitHub and the file
-- system are the fields of `Host.Host` and `Image.Containerd`, over a world that their calls may
-- change; the operating system of the agent is `Runner.Os`, its HTTP client and JSON decoder
-- `Mmds.Http`, and what a machine's agent answers to the server `Server.Guest`.
--
-- Loops are structural: over the goroutines to launch, the machines, the lines of a file, the events
-- that come. Only the printing of a number runs on fuel, which is the number itself, and a number has
-- no more digits than that. A scanner's buffer has the size that the code gives it, 65536 bytes for the
-- pipes and 1 MiB for the log file, and the model says what happens to a line that fills it.
--
-- Not modelled: help texts and what else cobra does with the tree of commands, what tablewriter draws of a
-- table, what the libraries for YAML, validation and GitHub do, listeners and connections, the values of
-- timings, logging, time limits and retries, white space beyond ASCII in strings.TrimSpace, and the sharing
-- of image pulls among concurrent callers (golang.org/x/sync).
pub mod Prelude
pub mod Config
pub mod Pool
pub mod Metrics
pub mod Server
pub mod Image
pub mod Host
pub mod Create
pub mod Scanner
pub mod Tail
pub mod Runner
pub mod Agent
pub mod Mmds
pub mod Commands
pub mod Deepcopy
pub mod Startup
pub mod Printer
pub mod StringId
pub mod Github
pub mod Logger
pub mod Journey
