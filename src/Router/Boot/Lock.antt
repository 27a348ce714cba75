-- ===== src/Router/Boot/Lock.antt =====
-- Who holds the lock of the router.
use easytask.Base.{
  leb, sym, ℕ, ◌+◌, ◌≡◌, refl, Bool, true, false, List, [], ◌∷◌, Option, none, some, arith, subst,
}
use mathlib.Core.List.{Memᴰ}
use easytask.Router.Boot.{
  Shared, Call, boot_check, boot_lock, boot_recheck, boot_store, boot_unlock, boot_serving,
  boot_refused, boot_refused_again, boot_returned, register_check, register_lock, register_locked,
  register_recheck, register_unlock_refused, register_unlock, register_refused, register_returned,
  call_step, Step, here, there, is_start, Reached, new_router, called, stepped,
}

-- 1 for a call between Lock and Unlock, and for a Boot that returned between them.
abbrev pub holds : Call → ℕ
holds boot_recheck = 1
holds boot_store = 1
holds boot_unlock = 1
holds boot_refused_again = 1
holds register_recheck = 1
holds register_unlock_refused = 1
holds register_locked = 1
holds register_unlock = 1
holds _ = 0

abbrev pub holders : List Call → ℕ
holders [] = 0
holders (c ∷ cs) = holds c + holders cs

abbrev pub flag : Bool → ℕ
flag true = 1
flag false = 0

-- The lock is held exactly if one call holds it, where `others` of the other calls do.
abbrev Kept : ℕ → Option (Shared × Call) → Type 0
Kept others none = Unit
Kept others (some (t, d)) = holds d + others ≡ flag t.is_locked

call_step-Kept :
    (b l : Bool) (c : Call) (others : ℕ)
    → holds c + others ≡ flag l
    → Kept others (call_step (record { is_booted = b; is_locked = l }) c)
unfolding call_step
call_step-Kept true l boot_check others h = h
call_step-Kept false l boot_check others h = h
call_step-Kept b true boot_lock others h = tt
call_step-Kept b false boot_lock others h = omega (arith, h)
call_step-Kept true l boot_recheck others h = h
call_step-Kept false l boot_recheck others h = h
call_step-Kept b l boot_store others h = h
call_step-Kept b true boot_unlock others h = omega (arith, h)
call_step-Kept b false boot_unlock others h = omega (arith, h)
call_step-Kept b l boot_serving others h = h
call_step-Kept true l register_check others h = h
call_step-Kept false l register_check others h = h
call_step-Kept b true register_lock others h = tt
call_step-Kept b false register_lock others h = omega (arith, h)
call_step-Kept true l register_recheck others h = h
call_step-Kept false l register_recheck others h = h
call_step-Kept b true register_unlock_refused others h = omega (arith, h)
call_step-Kept b false register_unlock_refused others h = omega (arith, h)
call_step-Kept b l register_locked others h = h
call_step-Kept b true register_unlock others h = omega (arith, h)
call_step-Kept b false register_unlock others h = omega (arith, h)
call_step-Kept b l boot_refused others h = tt
call_step-Kept b l boot_refused_again others h = tt
call_step-Kept b l boot_returned others h = tt
call_step-Kept b l register_refused others h = tt
call_step-Kept b l register_returned others h = tt

Step-holders :
    {s t : Shared} {cs ds : List Call} (others : ℕ)
    → Step s cs t ds
    → holders cs + others ≡ flag s.is_locked
    → holders ds + others ≡ flag t.is_locked
Step-holders others (here {s} {t} {c} {d} cs e) h =
    let kept =
      subst (Kept (holders cs + others)) e
        (call_step-Kept s.is_booted s.is_locked c (holders cs + others) (omega (arith, h))) in
    omega (arith, kept)
Step-holders others (there {s} {t} {cs} {ds} c st) h =
    let rest = Step-holders (holds c + others) st (omega (arith, h)) in omega (arith, rest)

is_start-holds : (c : Call) → is_start c ≡ true → holds c ≡ 0
is_start-holds boot_check e = refl
is_start-holds register_check e = refl
is_start-holds _ e = cc

-- Whatever calls of Boot and Register run at once, the number of those that are between Lock and
-- Unlock, plus that of the Boots that have returned there, is 1 if the lock is taken and 0 if not.
pub Reached-holders : {s : Shared} {cs : List Call} → Reached s cs → holders cs ≡ flag s.is_locked
Reached-holders new_router = refl
Reached-holders (called c e r) = omega (arith, is_start-holds c e, Reached-holders r)
Reached-holders (stepped {s} {t} {cs} {ds} st r) =
    let kept = Step-holders 0 st (omega (arith, Reached-holders r)) in omega (arith, kept)

leb_sum : (m n : ℕ) → leb m (m + n) ≡ true
leb_sum m n = ground arith

leb_later : (k m n : ℕ) → leb k n ≡ true → leb k (m + n) ≡ true
leb_later k m n h = ground arith

Memᴰ-holders : {c : Call} (cs : List Call) → Memᴰ c cs → leb (holds c) (holders cs) ≡ true
Memᴰ-holders [] m = elim m [ ]
Memᴰ-holders {c} (d ∷ cs) (Memᴰ.head e) = rw e (leb_sum (holds d) (holders cs))
Memᴰ-holders {c} (d ∷ cs) (Memᴰ.tail m) =
    leb_later (holds c) (holds d) (holders cs) (Memᴰ-holders cs m)

flag-true : (b : Bool) → leb 1 (flag b) ≡ true → b ≡ true
flag-true true h = refl
flag-true false h = cc

-- While a Boot that was refused under the lock is among the calls, neither a Boot nor a Register that
-- waits for the lock can take a step.
pub Reached-stuck :
    {s : Shared} {cs : List Call}
    → Reached s cs
    → Memᴰ boot_refused_again cs
    → (call_step s boot_lock ≡ none) × (call_step s register_lock ≡ none)
unfolding call_step
Reached-stuck {s} {cs} r m =
    let held = flag-true s.is_locked (rw (sym (Reached-holders r)) (Memᴰ-holders cs m)) in
    (rw held refl, rw held refl)
