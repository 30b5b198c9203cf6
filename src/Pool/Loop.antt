-- ===== src/Pool/Loop.antt =====
-- server/pool.go: Run and Scale cut at every access to shared state, with anything between the cuts. The
-- event `rounds` of Pool/Events is what a round does that nothing falls into.
pub mod Whole
pub mod Stopped
pub mod Agree
pub mod Torn
pub mod Tests
use fireactions.Prelude.{
  ℕ, zero, suc, ◌≡◌, Bool, true, false, Option, none, some, ℤ, pos, negsuc, ◌+ℤ◌, ◌-ℤ◌, signed32,
  ltb, if◌then◌else◌,
}
use fireactions.Pool.{Pool, get_replicas, get_current_size, spawn_creator, spawn_deleter}
use fireactions.Pool.Events.{Event, rounds, exec, Wake, trigger, timer, stop_signal, ctx_done}

-- Where Run stands: in its select (or, for a pool that has exited, behind the loop); after it; after the
-- second look at ctx and stopCh; with the desired number read; and in Scale, before its look at ctx, after
-- it, with the size read, with pendingCreates read, too, and in one of the two loops that launch.
pub data Place : Type 0 where
  waiting woken observing : Place
  observed scaling sizing : ℤ → Place
  sized : ℤ → ℕ → Place
  counted : ℤ → ℕ → ℕ → Place
  launching_up launching_down : ℕ → Place

pub record Loop : Type 0 where
  pub place : Place
  pub pool : Pool

abbrev pub at : Place → Pool → Loop
at k p = record { place = k; pool = p }

-- The branches on delta, with curSize as it was read: what is left to be launched.
abbrev pub decided : ℤ → ℕ → Place
decided (pos zero) cur_size = waiting
decided (pos (suc n)) cur_size = launching_up (suc n)
decided (negsuc n) cur_size = launching_down (if ltb cur_size (suc n) then cur_size else suc n)

-- Run's next step. In its select it waits.
unfoldable pub go : Place → Pool → Loop
unfolding get_replicas get_current_size spawn_creator spawn_deleter signed32 ◌+ℤ◌ ◌-ℤ◌
go waiting p = at waiting p
go woken p =
    if p.cancelled
    then at waiting (record p { exited = true })
    else if p.stop_ch
    then at waiting (record p { exited = true; stop_ch = false })
    else at observing p
go observing p = at (observed (get_replicas p)) p
go (observed d) p = if p.is_active then at (scaling d) p else at waiting p
go (scaling d) p = if p.cancelled then at waiting p else at (sizing d) p
go (sizing d) p = at (sized d (get_current_size p)) p
go (sized d n) p = at (counted d n p.pending_creates) p
go (counted d n creates) p =
    at (decided (d -ℤ (pos n +ℤ signed32 creates -ℤ signed32 p.pending_deletes)) n) p
go (launching_up zero) p = at waiting p
go (launching_up (suc n)) p = at (launching_up n) (spawn_creator p)
go (launching_down zero) p = at waiting p
go (launching_down (suc n)) p = at (launching_down n) (spawn_deleter p)

-- What the select receives.
unfoldable pub wake : Wake → Pool → Option Loop
wake trigger p =
    if p.scale_trigger then some (at woken (record p { scale_trigger = false })) else none
wake timer p = some (at woken p)
wake stop_signal p =
    if p.stop_ch then some (at waiting (record p { exited = true; stop_ch = false })) else none
wake ctx_done p = if p.cancelled then some (at waiting (record p { exited = true })) else none

-- Everything but Run.
abbrev pub is_other : Event → Bool
is_other (rounds w) = false
is_other _ = true

-- Whatever interleaving of the steps of Run with everything else leads from `s` to.
pub data Runs (s : Loop) : Loop → Type 0 where
  here : Runs s s
  wakes :
      {p : Pool} {t : Loop} (w : Wake)
      → Runs s (at waiting p)
      → p.exited ≡ false
      → wake w p ≡ some t
      → Runs s t
  goes : {k : Place} {p : Pool} → Runs s (at k p) → Runs s (go k p)
  happens :
      {k : Place} {p q : Pool} (e : Event)
      → is_other e ≡ true
      → Runs s (at k p)
      → exec e p ≡ some q
      → Runs s (at k q)

-- Steps of Run alone, up to its select.
pub data Alone : Loop → Loop → Type 0 where
  rests : {p : Pool} → Alone (at waiting p) (at waiting p)
  steps : {k : Place} {p : Pool} {t : Loop} → Alone (go k p) t → Alone (at k p) t
