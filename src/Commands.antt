-- ===== src/Commands.antt =====
-- cmd/fireactions/pools.go: the commands that change a pool, each one call of the server and a line that
-- is printed. Left out: making the client, and the flags, whose values are arguments.
pub mod Scale
pub mod Reaches
pub mod Listing
pub mod Tables
pub mod Logs
pub mod Login
pub mod Serve
pub mod Tree
pub mod Root
pub mod Ready
pub mod Dispatch
pub mod TreeTests
pub mod Tests
pub mod ClientTests
use fireactions.Prelude.{Text, ◌≡◌, Result, ok, err, ℤ, signed32, to_int32}
use fireactions.Server.{Server, Status, scale_pool, pause_pool, resume_pool}

-- What a command prints.
pub data Printed : Type 0 where
  pool_resumed pool_paused : Text → Printed
  replicas_set : Text → ℤ → Printed

-- An error of the call is returned with the pool's name.
abbrev pub report : Printed → Result Status (Unit {0}) × Server → Result Status Printed × Server
report p (ok u, s) = (ok p, s)
report p (err e, s) = (err e, s)

unfoldable pub run_pools_resume_cmd : Text → Server → Result Status Printed × Server
unfolding resume_pool
run_pools_resume_cmd name s = report (pool_resumed name) (resume_pool name s)

unfoldable pub run_pools_pause_cmd : Text → Server → Result Status Printed × Server
unfolding pause_pool
run_pools_pause_cmd name s = report (pool_paused name) (pause_pool name s)

-- The request carries int32(replicas), and ScalePool's int(req.Replicas) is the number that this is.
unfoldable pub run_pools_scale_cmd : Text → ℤ → Server → Result Status Printed × Server
unfolding scale_pool signed32 to_int32
run_pools_scale_cmd name replicas s =
    report (replicas_set name replicas) (scale_pool name (signed32 (to_int32 replicas)) s)
