-- ===== src/Pool/Loop/Whole.antt =====
-- server/pool.go: a round of Run that nothing falls into.
use fireactions.Prelude.{
  ℕ, zero, suc, ◌≡◌, refl, ap, ◌∙◌, false, ok, err, ℤ, pos, negsuc, ◌+ℤ◌, ◌-ℤ◌, signed32, arith,
  true, if_both, subst, if◌then◌else◌, ltb,
}
use fireactions.Pool.{
  Pool, scale, scale_by, scale_up, scale_down, spawn_deleters, spawn_creator, spawn_deleter,
  get_replicas, get_current_size, effective_size,
}
use fireactions.Pool.Events.{round}
use fireactions.Pool.Loop.{
  Place, Loop, waiting, woken, observing, observed, scaling, sizing, sized, counted, launching_up,
  launching_down, at, decided, go, Alone, rests, steps,
}

-- Scale, whose error is only logged.
abbrev scaled : ℤ → Pool → Pool
scaled d p = elim (scale d p) [ ok q ↦ q | err e ↦ p ]

abbrev launched : ℤ → ℕ → Pool → Pool
launched (pos zero) cur p = p
launched (pos (suc n)) cur p = scale_up (suc n) p
launched (negsuc n) cur p = scale_down (suc n) cur p

-- The pool at the end of the round.
unfoldable finish : Place → Pool → Pool
finish waiting p = p
finish woken p = round p
finish observing p = if p.is_active then scaled (get_replicas p) p else p
finish (observed d) p = if p.is_active then scaled d p else p
finish (scaling d) p = scaled d p
finish (sizing d) p = scale_by (d -ℤ effective_size p) p
finish (sized d n) p =
    launched (d -ℤ (pos n +ℤ signed32 p.pending_creates -ℤ signed32 p.pending_deletes)) n p
finish (counted d n c) p = launched (d -ℤ (pos n +ℤ signed32 c -ℤ signed32 p.pending_deletes)) n p
finish (launching_up n) p = scale_up n p
finish (launching_down n) p = spawn_deleters n p

finish-decided : (z : ℤ) (n : ℕ) (p : Pool) → finish (decided z n) p ≡ launched z n p
unfolding finish scale_down
finish-decided (pos zero) n p = refl
finish-decided (pos (suc k)) n p = refl
finish-decided (negsuc k) n p = refl

launched-scale_by : (z : ℤ) (p : Pool) → launched z (get_current_size p) p ≡ scale_by z p
unfolding scale_by
launched-scale_by (pos zero) p = refl
launched-scale_by (pos (suc k)) p = refl
launched-scale_by (negsuc k) p = refl

-- A step changes nothing of that.
finish-go : (k : Place) (p : Pool) → finish (go k p).place (go k p).pool ≡ finish k p
unfolding finish go round scale effective_size scale_up spawn_deleters
finish-go waiting p = refl
finish-go woken p = ground arith
finish-go observing p = ground arith
finish-go (observed d) p = ground arith
finish-go (scaling d) p = ground arith
finish-go (sizing d) p = launched-scale_by (d -ℤ effective_size p) p
finish-go (sized d n) p = refl
finish-go (counted d n c) p =
    finish-decided (d -ℤ (pos n +ℤ signed32 c -ℤ signed32 p.pending_deletes)) n p
finish-go (launching_up zero) p = refl
finish-go (launching_up (suc n)) p = refl
finish-go (launching_down zero) p = refl
finish-go (launching_down (suc n)) p = refl

-- Alone from there, Run comes back to its select with that pool.
abbrev Ends : Loop → Type 0
Ends l = Alone l (at waiting (finish l.place l.pool))

step-Ends : (k : Place) (p : Pool) → Ends (go k p) → Ends (at k p)
step-Ends k p h = steps (subst (λ u. Alone (go k p) (at waiting u)) (finish-go k p) h)

waiting-Ends : (p : Pool) → Ends (at waiting p)
unfolding finish
waiting-Ends p = rests

launching_up-Ends : (n : ℕ) (p : Pool) → Ends (at (launching_up n) p)
unfolding go
launching_up-Ends zero p = step-Ends (launching_up zero) p (waiting-Ends p)
launching_up-Ends (suc n) p =
    step-Ends (launching_up (suc n)) p (launching_up-Ends n (spawn_creator p))

launching_down-Ends : (n : ℕ) (p : Pool) → Ends (at (launching_down n) p)
unfolding go
launching_down-Ends zero p = step-Ends (launching_down zero) p (waiting-Ends p)
launching_down-Ends (suc n) p =
    step-Ends (launching_down (suc n)) p (launching_down-Ends n (spawn_deleter p))

decided-Ends : (z : ℤ) (n : ℕ) (p : Pool) → Ends (at (decided z n) p)
decided-Ends (pos zero) n p = waiting-Ends p
decided-Ends (pos (suc k)) n p = launching_up-Ends (suc k) p
decided-Ends (negsuc k) n p = launching_down-Ends (if ltb n (suc k) then n else suc k) p

sizing-Ends : (d : ℤ) (p : Pool) → Ends (at (sizing d) p)
unfolding go
sizing-Ends d p =
    let n = get_current_size p in
    let c = p.pending_creates in
    step-Ends (sizing d) p (
      step-Ends (sized d n) p (
        step-Ends (counted d n c) p
          (decided-Ends (d -ℤ (pos n +ℤ signed32 c -ℤ signed32 p.pending_deletes)) n p)))

scaling-Ends : (d : ℤ) (p : Pool) → Ends (at (scaling d) p)
unfolding go
scaling-Ends d p =
    step-Ends (scaling d) p (if_both Ends p.cancelled (waiting-Ends p) (sizing-Ends d p))

observing-Ends : (p : Pool) → Ends (at observing p)
unfolding go
observing-Ends p =
    let d = get_replicas p in
    step-Ends observing p
      (step-Ends (observed d) p (if_both Ends p.is_active (scaling-Ends d p) (waiting-Ends p)))

woken-Ends : (p : Pool) → Ends (at woken p)
unfolding go
woken-Ends p = step-Ends woken p (
    if_both Ends p.cancelled (waiting-Ends (record p { exited = true })) (
      if_both Ends p.stop_ch (waiting-Ends (record p { exited = true; stop_ch = false }))
        (observing-Ends p)))

Alone-finish : {l t : Loop} → Alone l t → t ≡ at waiting (finish l.place l.pool)
unfolding finish
Alone-finish rests = refl
Alone-finish (steps {k} {p} h) = Alone-finish h ∙ ap (at waiting) (finish-go k p)

pub round-Alone :
    (p : Pool)
    → Alone (at woken p) (at waiting (round p))
      × ((t : Loop) → Alone (at woken p) t → t ≡ at waiting (round p))
      × ((d : ℤ) (t : Loop)
          → Alone (at (scaling d) p) t
          → t ≡ at waiting (elim (scale d p) [ ok q ↦ q | err e ↦ p ]))
unfolding finish
round-Alone p = (woken-Ends p, (λ t h. Alone-finish h), λ d t h. Alone-finish h)
