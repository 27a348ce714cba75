-- ===== src/Tests/Booting.antt =====
-- Two calls of Boot at once: the second passes its first check before the first stores the flag, and
-- is refused under the lock, which stays taken.
use easytask.Base.{none, List, ◌≡◌, refl, true, [], ◌∷◌}
use mathlib.Core.List.{Memᴰ}
use easytask.Router.Boot.{
  Shared, Call, boot_check, boot_lock, boot_serving, boot_refused_again, register_lock, call_step,
  here, there, Reached, new_router, called, stepped,
}
use easytask.Router.Boot.Lock.{holders, flag, Reached-holders, Reached-stuck}

abbrev leaked : Shared
leaked = record { is_booted = true; is_locked = true }

abbrev two_boots : List Call
two_boots = boot_refused_again ∷ boot_serving ∷ []

two_boots-Reached : Reached leaked two_boots
unfolding call_step
two_boots-Reached =
    let calls = called boot_check refl (called boot_check refl new_router) in
    let both =
      stepped (there boot_lock (here [] refl)) (stepped (here (boot_check ∷ []) refl) calls) in
    let first_in = stepped (there boot_lock (here [] refl)) both in
    let first_stores = stepped (there boot_lock (here [] refl)) first_in in
    let first_flag = stepped (there boot_lock (here [] refl)) first_stores in
    let first_serves = stepped (there boot_lock (here [] refl)) first_flag in
    stepped (here (boot_serving ∷ []) refl) (stepped (here (boot_serving ∷ []) refl) first_serves)

Reached-holders_example : holders two_boots ≡ flag leaked.is_locked
Reached-holders_example = Reached-holders two_boots-Reached

Reached-stuck_example :
    (call_step leaked boot_lock ≡ none) × (call_step leaked register_lock ≡ none)
Reached-stuck_example = Reached-stuck two_boots-Reached (Memᴰ.head refl)
