-- ===== src/Pool/Watched.antt =====
-- server/pool.go: the map of machines against the cleanup goroutines of createMachine.
use fireactions.Prelude.{
  Text, ◌≡◌, refl, ◌≢◌, ◌⊎◌, inl, inr, true, false, List, [], ◌∷◌, none, some, ok, ◌-ℤ◌, arith,
  lookup, Distinct, lookup-insert, lookup-delete, insert-Distinct, delete-Distinct, text_eq,
  text_eq_iff, Bool-cases, Option-cases, sym, subst,
}
use fireactions.Config.{PoolConfig}
use fireactions.Pool.{Pool, Machine, new_pool, scale, get_replicas, effective_size}
use fireactions.Pool.Events.{
  take_out, Event, Wake, round, wake_up, run_round, exec, Reach, here, next, creator_stores,
  deleter_picks, cleanup_removes, rounds, trigger, timer, stop_signal, ctx_done,
}
use fireactions.Pool.Target.{scale_by_machines}

pub take_out-cons :
    (k n : Text) (xs : List Text)
    → (text_eq n k ≡ true) ⊎ (take_out k xs ≢ none)
    → take_out k (n ∷ xs) ≢ none
unfolding take_out
take_out-cons k n xs h = ground arith

-- Taking a name out leaves the others.
take_out-take_out :
    (k n : Text) (xs ys : List Text)
    → text_eq n k ≡ false
    → take_out n xs ≡ some ys
    → take_out k xs ≢ none
    → take_out k ys ≢ none
unfolding take_out
take_out-take_out k n [] ys d h g = absurd (g refl)
take_out-take_out k n (x ∷ xs) ys d h g = elim (Bool-cases (text_eq x n)) [
  | inl e ↦ ground (arith, text_eq_iff x n, text_eq_iff n k, text_eq_iff x k)
  | inr e ↦ elim (Option-cases (take_out n xs)) [
    | inl t ↦ ground arith
    | inr (zs, t) ↦ ground (arith, take_out-take_out k n xs zs d t, text_eq_iff x k)
  ]
]

-- One machine for a name, and for each machine a cleanup goroutine that waits for it.
pub record Owned (p : Pool) : Type 0 where
  pub distinct : Distinct p.machines
  pub watched : (k : Text) → lookup k p.machines ≢ none → take_out k p.cleanups ≢ none

keep-Owned : (p q : Pool) → q.machines ≡ p.machines → q.cleanups ≡ p.cleanups → Owned p → Owned q
keep-Owned p q e f o = record {
  distinct = subst Distinct (sym e) o.distinct;
  watched = λ k. rw (e, f) (o.watched k);
}

creator_store-Owned :
    (name : Text) (m : Machine) (p : Pool) {q : Pool}
    → exec (creator_stores name m) p ≡ some q
    → Owned p
    → Owned q
unfolding exec
creator_store-Owned name m p {q} h o = record {
  distinct = ground (arith, insert-Distinct name m p.machines o.distinct);
  watched = λ k.
      ground
        (arith, o.watched k, lookup-insert name k m p.machines, take_out-cons k name p.cleanups);
}

deleter_pick-Owned :
    (name : Text) (p : Pool) {q : Pool} → exec (deleter_picks name) p ≡ some q → Owned p → Owned q
unfolding exec
deleter_pick-Owned name p {q} h o = record {
  distinct = ground (arith, delete-Distinct name p.machines o.distinct);
  watched = λ k. ground (arith, o.watched k, lookup-delete name k p.machines o.distinct);
}

cleanup_remove-Owned :
    (name : Text) (p : Pool) {q : Pool} → exec (cleanup_removes name) p ≡ some q → Owned p → Owned q
unfolding exec
cleanup_remove-Owned name p {q} h o = elim (Option-cases (take_out name p.cleanups)) [
  | inl e ↦ absurd (ground arith)
  | inr (ys, e) ↦ record {
    distinct = ground (arith, delete-Distinct name p.machines o.distinct);
    watched = λ k. ground (
      arith,
      o.watched k,
      lookup-delete name k p.machines o.distinct,
      take_out-take_out k name p.cleanups ys,
    );
  }
]

same_in_round : (p : Pool) → ((round p).machines ≡ p.machines) × ((round p).cleanups ≡ p.cleanups)
unfolding round scale
same_in_round p = ground (arith, scale_by_machines (get_replicas p -ℤ effective_size p) p)

run_round-Owned : (w : Wake) (p : Pool) {q : Pool} → run_round w p ≡ some q → Owned p → Owned q
unfolding run_round wake_up
run_round-Owned trigger p {q} h o =
    keep-Owned p q (ground (arith, same_in_round (record p { scale_trigger = false })))
      (ground (arith, same_in_round (record p { scale_trigger = false }))) o
run_round-Owned timer p {q} h o =
    keep-Owned p q (ground (arith, same_in_round p)) (ground (arith, same_in_round p)) o
run_round-Owned stop_signal p {q} h o = keep-Owned p q (ground arith) (ground arith) o
run_round-Owned ctx_done p {q} h o = keep-Owned p q (ground arith) (ground arith) o

exec-Owned : (e : Event) (p : Pool) {q : Pool} → exec e p ≡ some q → Owned p → Owned q
unfolding exec
exec-Owned (rounds w) p h o = run_round-Owned w p h o
exec-Owned (creator_stores name m) p h o = creator_store-Owned name m p h o
exec-Owned (deleter_picks name) p h o = deleter_pick-Owned name p h o
exec-Owned (cleanup_removes name) p h o = cleanup_remove-Owned name p h o
exec-Owned _ p {q} h o = keep-Owned p q (ground arith) (ground arith) o

owned : (c : PoolConfig) (s p : Pool) → new_pool c true ≡ ok s → Reach s p → Owned p
unfolding new_pool lookup
owned c s p new here = record { distinct = ground arith; watched = λ k. ground arith }
owned c s p new (next e r step) = exec-Owned e _ step (owned c s _ new r)

-- In every pool that any interleaving of the events reaches, a name has at most one machine in the map, and each
-- machine in the map has a cleanup goroutine that waits for it and can take it out.
pub Reach-Owned :
    (c : PoolConfig) (s p : Pool)
    → new_pool c true ≡ ok s
    → Reach s p
    → Owned p × ((k : Text) → lookup k p.machines ≢ none → exec (cleanup_removes k) p ≢ none)
unfolding exec
Reach-Owned c s p new r =
    let o = owned c s p new r in (o, λ k stored. ground (arith, o.watched k stored))
