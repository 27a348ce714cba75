-- ===== src/Router/Boot.antt =====
-- internal/apiserver/http_router.go: the calls of Boot and Register that run at once, statement by
-- statement, over the flag `isBooted` and the lock `routeMu` that they share.
pub mod Lock
use easytask.Base.{
  ℕ, zero, suc, ◌+◌, ◌≡◌, Bool, true, false, List, [], ◌∷◌, Option, none, some, if◌then◌else◌,
}

pub record Shared : Type 0 where
  pub is_booted : Bool
  pub is_locked : Bool

-- Where a call stands: the statement it runs next, or how it has returned. A route is taken to pass
-- the tests of Register that need no lock.
pub data Call : Type 0 where
  boot_check : Call
  boot_lock : Call
  boot_recheck : Call
  boot_store : Call
  boot_unlock : Call
  boot_serving : Call
  boot_refused : Call
  boot_refused_again : Call
  boot_returned : Call
  register_check : Call
  register_lock : Call
  register_recheck : Call
  register_locked : Call
  register_unlock_refused : Call
  register_unlock : Call
  register_refused : Call
  register_returned : Call

-- One statement of a call, none where it waits for the lock or has returned.
unfoldable pub call_step : Shared → Call → Option (Shared × Call)
call_step s boot_check = some (s, if s.is_booted then boot_refused else boot_lock)
call_step s boot_lock =
    if s.is_locked then none else some (record s { is_locked = true }, boot_recheck)
call_step s boot_recheck = some (s, if s.is_booted then boot_refused_again else boot_store)
call_step s boot_store = some (record s { is_booted = true }, boot_unlock)
call_step s boot_unlock = some (record s { is_locked = false }, boot_serving)
call_step s boot_serving = some (record s { is_booted = false }, boot_returned)
call_step s register_check = some (s, if s.is_booted then register_refused else register_lock)
call_step s register_lock =
    if s.is_locked then none else some (record s { is_locked = true }, register_recheck)
call_step s register_recheck =
    some (s, if s.is_booted then register_unlock_refused else register_locked)
call_step s register_unlock_refused = some (record s { is_locked = false }, register_refused)
call_step s register_locked = some (s, register_unlock)
call_step s register_unlock = some (record s { is_locked = false }, register_returned)
call_step s boot_refused = none
call_step s boot_refused_again = none
call_step s boot_returned = none
call_step s register_refused = none
call_step s register_returned = none

-- A step of one of the calls that run at once.
pub data Step : Shared → List Call → Shared → List Call → Type 0 where
  here :
      {s t : Shared} {c d : Call} (cs : List Call)
      → call_step s c ≡ some (t, d)
      → Step s (c ∷ cs) t (d ∷ cs)
  there :
      {s t : Shared} {cs ds : List Call} (c : Call) → Step s cs t ds → Step s (c ∷ cs) t (c ∷ ds)

-- A call starts at the check of its first line.
abbrev pub is_start : Call → Bool
is_start boot_check = true
is_start register_check = true
is_start _ = false

-- What a router reaches: it starts without calls, a call may come in at any time, and one of them
-- takes a step.
pub data Reached : Shared → List Call → Type 0 where
  new_router : Reached (record { is_booted = false; is_locked = false }) []
  called :
      {s : Shared} {cs : List Call} (c : Call)
      → is_start c ≡ true
      → Reached s cs
      → Reached s (c ∷ cs)
  stepped : {s t : Shared} {cs ds : List Call} → Step s cs t ds → Reached s cs → Reached t ds
