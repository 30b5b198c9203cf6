-- ===== src/Pool/Counters.antt =====
-- server/pool.go: pendingCreates and pendingDeletes against the goroutines in flight, over every
-- sequence of events.
use fireactions.Prelude.{
  Text, ℕ, zero, suc, ◌+◌, ◌≡◌, inl, inr, true, false, List, [], ◌∷◌, some, ok, ℤ, pos, negsuc,
  ◌-ℤ◌, arith, length, wrap32, text_eq, ltb, if◌then◌else◌, Bool-cases, Option-cases,
}
use fireactions.Config.{PoolConfig}
use fireactions.Pool.{
  Pool, new_pool, scale_up, scale_down, spawn_deleters, spawn_creator, spawn_deleter, scale_by,
  scale, effective_size, get_current_size, get_replicas,
}
use fireactions.Pool.Events.{
  take_out, Event, Wake, round, wake_up, exec, Reach, here, next, deleter_returns, rounds, trigger,
  timer, stop_signal, ctx_done,
}

-- The goroutines of scaleUp, and of scaleDown, that have not yet made their deferred decrement.
abbrev pub in_creation : Pool → ℕ
in_creation p = p.creators_spawned + p.creators_creating + p.creators_returning

abbrev pub in_deletion : Pool → ℕ
in_deletion p = p.deleters_spawned + p.deleters_deleting + length p.stopping

pub record CountersAgree (p : Pool) : Type 0 where
  pub creates : p.pending_creates ≡ wrap32 (in_creation p)
  pub deletes : p.pending_deletes ≡ wrap32 (in_deletion p)

pub length-take_out :
    (n : Text) (xs : List Text) {ys : List Text}
    → take_out n xs ≡ some ys
    → length xs ≡ suc (length ys)
unfolding take_out
length-take_out n [] h = cc
length-take_out n (x ∷ xs) {ys} h = elim (Bool-cases (text_eq x n)) [
  | inl e ↦ ground arith
  | inr e ↦ elim (Option-cases (take_out n xs)) [
    | inl none_left ↦ ground arith
    | inr (zs, t) ↦ ground (arith, length-take_out n xs {ys = zs} t)
  ]
]

scale_up-CountersAgree : (n : ℕ) (p : Pool) → CountersAgree p → CountersAgree (scale_up n p)
unfolding scale_up
scale_up-CountersAgree zero p c = c
scale_up-CountersAgree (suc n) p c =
    scale_up-CountersAgree n (spawn_creator p) (unfold spawn_creator in ground arith)

spawn_deleters-CountersAgree :
    (n : ℕ) (p : Pool) → CountersAgree p → CountersAgree (spawn_deleters n p)
unfolding spawn_deleters
spawn_deleters-CountersAgree zero p c = c
spawn_deleters-CountersAgree (suc n) p c =
    spawn_deleters-CountersAgree n (spawn_deleter p) (unfold spawn_deleter in ground arith)

scale_by-CountersAgree : (d : ℤ) (p : Pool) → CountersAgree p → CountersAgree (scale_by d p)
unfolding scale_by scale_down
scale_by-CountersAgree (pos zero) p c = c
scale_by-CountersAgree (pos (suc n)) p c = scale_up-CountersAgree (suc n) p c
scale_by-CountersAgree (negsuc n) p c =
    let cur = get_current_size p in
    spawn_deleters-CountersAgree (if ltb cur (suc n) then cur else suc n) p c

pub scale-CountersAgree :
    (d : ℤ) (p : Pool) {q : Pool} → scale d p ≡ ok q → CountersAgree p → CountersAgree q
unfolding scale
scale-CountersAgree d p h c = ground (arith, scale_by-CountersAgree (d -ℤ effective_size p) p c)

round-CountersAgree : (p : Pool) → CountersAgree p → CountersAgree (round p)
unfolding round scale
round-CountersAgree p c =
    ground (arith, scale_by-CountersAgree (get_replicas p -ℤ effective_size p) p c)

wake_up-CountersAgree :
    (w : Wake) (p : Pool) {q : Pool} → wake_up w p ≡ some q → CountersAgree p → CountersAgree q
unfolding wake_up
wake_up-CountersAgree trigger p h c =
    ground (arith, round-CountersAgree (record p { scale_trigger = false }))
wake_up-CountersAgree timer p h c = ground (arith, round-CountersAgree p c)
wake_up-CountersAgree stop_signal p h c = ground arith
wake_up-CountersAgree ctx_done p h c = ground arith

pub exec-CountersAgree :
    (e : Event) (p : Pool) {q : Pool} → exec e p ≡ some q → CountersAgree p → CountersAgree q
unfolding exec
exec-CountersAgree (rounds w) p {q} h c = ground (arith, wake_up-CountersAgree w p {q = q})
exec-CountersAgree (deleter_returns name) p h c = elim (Option-cases (take_out name p.stopping)) [
  | inl e ↦ ground arith
  | inr (ys, e) ↦ ground (arith, length-take_out name p.stopping {ys = ys} e)
]
exec-CountersAgree _ p h c = ground arith

-- After any interleaving of the rounds of Run, each at one moment, the goroutines and the API calls,
-- pendingCreates is the
-- number of goroutines that scaleUp has launched and that have not returned, and pendingDeletes that
-- of scaleDown's, both modulo 2 ^ 32.
pub Reach-CountersAgree :
    (c : PoolConfig) (s p : Pool) → new_pool c true ≡ ok s → Reach s p → CountersAgree p
unfolding new_pool
Reach-CountersAgree c s p new here = ground arith
Reach-CountersAgree c s p new (next e r step) =
    exec-CountersAgree e _ step (Reach-CountersAgree c s _ new r)
