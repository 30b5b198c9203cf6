-- ===== src/Server/Pools.antt =====
-- server/rpc.go: the handlers that name a pool, against what GetPool and ListPools then show.
use fireactions.Prelude.{
  Text, ◌≡◌, refl, inl, inr, true, none, some, ok, err, ℤ, pos, negsuc, ◌≤ℤ◌, arith, lookup,
  lookup-insert, text_eq, text_eq_iff, text_eq_refl, signed32-to_int32, if◌then◌else◌, Option-cases,
}
use fireactions.Pool.{Pool, set_replicas, pause, resume}
use fireactions.Server.{
  Server, not_found_status, no_pool, active, paused, find_pool, get_pool, scale_pool, pause_pool,
  resume_pool, convert_pool_to_proto, with_pool,
}

-- A handler's effect on the map: the pool under one name is replaced, and nothing else.
abbrev pub Changes : Text → (Pool → Pool) → Server → Server → Type 0
Changes name f s t =
    (other : Text)
    → lookup other t.pools ≡ (
        if text_eq name other
        then elim (lookup other s.pools) [ none ↦ none | some p ↦ some (f p) ]
        else lookup other s.pools)

with_pool-Changes :
    (name : Text) (f : Pool → Pool) (s : Server) → Changes name f s (with_pool name s f).1
unfolding find_pool
with_pool-Changes name f s other = elim (Option-cases (lookup name s.pools)) [
  | inl e ↦ ground (arith, text_eq_iff name other)
  | inr (p, e) ↦ ground (arith, text_eq_iff name other, lookup-insert name other (f p) s.pools)
]

-- ScalePool, for a pool that is there and a number that fits in an int32: it succeeds, GetPool then
-- shows the number as desired and as replicas and all else of that pool as before, the pool's loop is
-- triggered, and no other pool changes.
pub scale_pool-get_pool :
    (name : Text) (n : ℤ) (s : Server) (p : Pool)
    → lookup name s.pools ≡ some p
    → n ≤ℤ pos 2147483647
    → negsuc 2147483647 ≤ℤ n
    → ((scale_pool name n s).0 ≡ ok tt)
      × (get_pool name (scale_pool name n s).1
          ≡ ok (record (convert_pool_to_proto p) { replicas = n; desired_replicas = n }))
      × Changes name (set_replicas n) s (scale_pool name n s).1
      × ((set_replicas n p).scale_trigger ≡ true)
unfolding scale_pool get_pool convert_pool_to_proto
scale_pool-get_pool name n s p e hi lo = (
  ground arith,
  ground (
    arith,
    lookup-insert name name (set_replicas n p) s.pools,
    text_eq_refl name,
    signed32-to_int32 n hi lo,
  ),
  with_pool-Changes name (set_replicas n) s,
  refl,
)

-- PausePool and ResumePool, for a pool that is there: they succeed, GetPool then shows the pool as
-- paused, or as active, whatever it was, with all else as before, and no other pool changes.
pub pause-resume-get_pool :
    (name : Text) (s : Server) (p : Pool)
    → lookup name s.pools ≡ some p
    → (((pause_pool name s).0 ≡ ok tt)
        × (get_pool name (pause_pool name s).1
            ≡ ok (record (convert_pool_to_proto p) { state = paused }))
        × Changes name pause s (pause_pool name s).1)
      × (((resume_pool name s).0 ≡ ok tt)
          × (get_pool name (resume_pool name s).1
              ≡ ok (record (convert_pool_to_proto p) { state = active }))
          × Changes name resume s (resume_pool name s).1)
unfolding pause_pool resume_pool get_pool convert_pool_to_proto
pause-resume-get_pool name s p e = (
  (
    ground arith,
    ground (arith, lookup-insert name name (pause p) s.pools, text_eq_refl name),
    with_pool-Changes name pause s,
  ),
  (
    ground arith,
    ground (arith, lookup-insert name name (resume p) s.pools, text_eq_refl name),
    with_pool-Changes name resume s,
  ),
)

-- A name that no pool has is answered by NotFound by each of the handlers that take a pool's name, and
-- the server stays as it is.
pub unknown_pool :
    (name : Text) (n : ℤ) (s : Server)
    → lookup name s.pools ≡ none
    → (get_pool name s ≡ err (not_found_status (no_pool name)))
      × (scale_pool name n s ≡ (err (not_found_status (no_pool name)), s))
      × (pause_pool name s ≡ (err (not_found_status (no_pool name)), s))
      × (resume_pool name s ≡ (err (not_found_status (no_pool name)), s))
unfolding get_pool scale_pool pause_pool resume_pool find_pool
unknown_pool name n s e = (ground arith, ground arith, ground arith, ground arith)
