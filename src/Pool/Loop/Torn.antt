-- ===== src/Pool/Loop/Torn.antt =====
-- server/pool.go: Scale reads the size and the two counters one after the other, and the lock that it
-- holds is not one that the goroutines of scaleUp take.
use fireactions.Prelude.{
  Text, ℕ, suc, ◌≡◌, refl, ap, ◌∙◌, subst, ◌+◌, ◌<◌, false, List, [], ◌∷◌, none, some, ok, ℤ, pos,
  ◌+ℤ◌, ◌-ℤ◌, +ℤ_parts, -ℤ_parts, eq_of_parts, signed32, dec32, arith, lookup, insert, length,
}
use fireactions.Pool.{Pool, Machine, scale, scale_by, effective_size, get_current_size}
use fireactions.Pool.Events.{
  exec, store_machine, creator_store, creator_return, creator_stores, creator_returns,
}
use fireactions.Pool.Loop.{
  Place, Loop, scaling, sizing, sized, counted, launching_up, at, go, decided, Runs, here, goes,
  happens,
}

length-insert :
    (k : Text) (m : Machine) (ms : List (Text × Machine))
    → lookup k ms ≡ none
    → length (insert k m ms) ≡ suc (length ms)
unfolding lookup insert
length-insert k m [] h = refl
length-insert k m ((j, n) ∷ ms) h = ground (arith, length-insert k m ms)

-- The pool after a goroutine of scaleUp has stored its machine and returned.
abbrev pub after : Text → Machine → ℕ → Pool → Pool
after name m k p = record (store_machine name m p) {
  creators_creating = k;
  pending_creates = dec32 p.pending_creates;
}

stored_event :
    (name : Text) (m : Machine) (k : ℕ) (p : Pool)
    → p.creators_creating ≡ suc k
    → exec (creator_stores name m) p
      ≡ some (record (store_machine name m p) {
        creators_creating = k;
        creators_returning = suc p.creators_returning;
      })
unfolding exec creator_store
stored_event name m k p h = rw (h, creator_store) ground arith

returned_event :
    (name : Text) (m : Machine) (k : ℕ) (p : Pool)
    → exec creator_returns (record (store_machine name m p) {
      creators_creating = k;
      creators_returning = suc p.creators_returning;
    })
      ≡ some (after name m k p)
unfolding exec creator_return store_machine
returned_event name m k p = refl

no_more : (n c e d : ℕ) → d + e ≡ n + c → pos d -ℤ (pos n +ℤ pos c -ℤ pos e) ≡ pos 0
no_more n c e d h =
    let a = +ℤ_parts (pos n) (pos c) in
    let b = -ℤ_parts (pos n +ℤ pos c) (pos e) in
    let z = -ℤ_parts (pos d) (pos n +ℤ pos c -ℤ pos e) in eq_of_parts _ _ (omega arith)

one_more : (n c e d : ℕ) → d + e ≡ n + suc c → pos d -ℤ (pos n +ℤ pos c -ℤ pos e) ≡ pos 1
one_more n c e d h =
    let a = +ℤ_parts (pos n) (pos c) in
    let b = -ℤ_parts (pos n +ℤ pos c) (pos e) in
    let z = -ℤ_parts (pos d) (pos n +ℤ pos c -ℤ pos e) in eq_of_parts _ _ (omega arith)

small : (n : ℕ) → n < 2147483648 → signed32 n ≡ pos n
unfolding signed32
small n h = ground arith

moved : {s t : Loop} {k : Place} {p : Pool} → Runs s (at k p) → go k p ≡ t → Runs s t
moved {s} r e = subst (Runs s) e (goes r)

-- A pool that has what it wants: with the creations and deletions under way it will come to d machines,
-- and one of the creations is in createMachine.
pub record Satisfied (d c e k : ℕ) (p : Pool) : Type 0 where
  pub live : p.cancelled ≡ false
  pub creating : p.creators_creating ≡ suc k
  pub creates : p.pending_creates ≡ suc c
  pub deletes : p.pending_deletes ≡ e
  pub creates_fit : suc c < 2147483648
  pub deletes_fit : e < 2147483648
  pub wanted : d + e ≡ length p.machines + suc c

scale-live :
    (d : ℤ) (p : Pool) → p.cancelled ≡ false → scale d p ≡ ok (scale_by (d -ℤ effective_size p) p)
unfolding scale
scale-live d p h = ground arith

whole_call : (d c e k : ℕ) (p : Pool) → Satisfied d c e k p → scale (pos d) p ≡ ok p
unfolding scale_by effective_size get_current_size
whole_call d c e k p s =
    let z : pos d -ℤ effective_size p ≡ pos 0 =
      ap (λ x. pos d -ℤ (pos (length p.machines) +ℤ x -ℤ signed32 p.pending_deletes))
        (ap signed32 s.creates ∙ small (suc c) s.creates_fit)
      ∙ ap (λ x. pos d -ℤ (pos (length p.machines) +ℤ pos (suc c) -ℤ x))
          (ap signed32 s.deletes ∙ small e s.deletes_fit)
      ∙ no_more (length p.machines) (suc c) e d s.wanted in
    scale-live (pos d) p s.live ∙ ap (λ x. ok (scale_by x p)) z

module _ (d c e k : ℕ) (p : Pool) (name : Text) (m : Machine) where
  abbrev size : ℕ
  size = get_current_size p

  abbrev q : Pool
  q = after name m k p

  read_late :
      Satisfied d c e k p → go (counted (pos d) size q.pending_creates) q ≡ at (launching_up 1) q
  unfolding go get_current_size store_machine
  read_late s =
      let left : signed32 (dec32 p.pending_creates) ≡ pos c =
        ap signed32 (ap dec32 s.creates ∙ (omega arith)) ∙ small c (omega (arith, s.creates_fit)) in
      ap (λ z. at (decided z size) q)
        (ap (λ x. pos d -ℤ (pos size +ℤ x -ℤ signed32 p.pending_deletes)) left
          ∙ ap (λ x. pos d -ℤ (pos size +ℤ pos c -ℤ x))
              (ap signed32 s.deletes ∙ small e s.deletes_fit)
          ∙ one_more size c e d s.wanted)

  looked : Satisfied d c e k p → go (scaling (pos d)) p ≡ at (sizing (pos d)) p
  unfolding go
  looked s = rw (s.live, go) refl

  torn_run : Satisfied d c e k p → Runs (at (scaling (pos d)) p) (at (launching_up 1) q)
  unfolding go get_current_size
  torn_run s =
      let r1 = moved here (looked s) in
      let r2 : Runs _ (at (sized (pos d) size) p) = goes r1 in
      let r3 = happens (creator_stores name m) refl r2 (stored_event name m k p s.creating) in
      let r4 = happens creator_returns refl r3 (returned_event name m k p) in
      let r5 : Runs _ (at (counted (pos d) size q.pending_creates) q) = goes r4 in
      moved r5 (read_late s)

  -- The bug: a pool that will have the d machines that it wants, and on which a call of Scale that nothing
  -- falls into changes nothing. Where a goroutine of scaleUp stores its machine, under a name that is new, and
  -- returns between Scale's reading of the size and of pendingCreates, Scale counts it nowhere and goes
  -- on to launch a creation: with the machines there and the creations and deletions under way the pool
  -- will then have one machine more.
  pub scale-Torn :
      Satisfied d c e k p
      → lookup name p.machines ≡ none
      → (scale (pos d) p ≡ ok p)
        × Runs (at (scaling (pos d)) p) (at (launching_up 1) q)
        × (length q.machines + q.pending_creates + 1 ≡ d + q.pending_deletes + 1)
  unfolding store_machine
  scale-Torn s fresh = (
    whole_call d c e k p s,
    torn_run s,
    omega (
      arith,
      length-insert name m p.machines fresh,
      s.creates,
      s.deletes,
      s.wanted,
      s.creates_fit,
    ),
  )
