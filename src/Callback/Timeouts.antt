-- ===== src/Callback/Timeouts.antt =====
-- How long a callback may take, and the path it is sent to.
use easytask.Base.{
  ℕ, ◌≡◌, ◌≢◌, ◌<◌, ◌≤◌, ◌*◌, ◌^◌, refl, ap, ◌∙◌, ◌⊎◌, inl, inr, Bool, true, false, [], ◌∷◌, ◌==◌,
  Bool-cases, Text, arith, pos, ltb, ltb_ℤ, wrap64_of_IsInt64, is_empty, trim_left, trim_space,
  if◌then◌else◌,
}
use easytask.Task.{Task, TaskCallbackSrvRoute}
use easytask.Callback.{nanoseconds, timeout_sec, client_timeout, clean_path}

-- A task without a longest run time is called with no client timeout at all, whatever timeout the
-- route of its service was registered with.
pub client_timeout-timeout_sec_zero :
    (route : TaskCallbackSrvRoute) (t : Task)
    → t.max_run_time_sec ≡ pos 0
    → client_timeout (timeout_sec route t) ≡ pos 0
unfolding client_timeout timeout_sec
client_timeout-timeout_sec_zero route t e = ground (arith, e)

nanoseconds-pos : (n : ℕ) → n < 2 ^ 33 → nanoseconds (pos n) ≡ pos (n * 1_000_000_000)
nanoseconds-pos n h = wrap64_of_IsInt64 (pos (n * 1_000_000_000)) (omega arith, omega arith)

positive : (n : ℕ) → 0 < n → ltb_ℤ (pos 0) (pos n) ≡ true
positive n h = ground arith

client_timeout-pos : (n : ℕ) → 0 < n → n < 2 ^ 33 → client_timeout (pos n) ≡ pos (n * 1_000_000_000)
unfolding client_timeout
client_timeout-pos n h b = rw (positive n h) (nanoseconds-pos n b)

timeout_sec-eq :
    (route : TaskCallbackSrvRoute) (t : Task) (m n : ℕ)
    → t.max_run_time_sec ≡ pos m
    → route.callback_timeout_sec ≡ pos n
    → timeout_sec route t ≡ (if ltb m n then pos m else pos n)
unfolding timeout_sec
timeout_sec-eq route t m n em en = rw (em, en) (ground arith)

-- With a positive longest run time and a positive route timeout, both below 2^33 seconds, the client
-- gives up after the smaller of the two, in nanoseconds.
client_timeout-timeout_sec_smaller :
    (route : TaskCallbackSrvRoute) (t : Task) (m n : ℕ)
    → t.max_run_time_sec ≡ pos m
    → route.callback_timeout_sec ≡ pos n
    → 0 < m
    → 0 < n
    → m < 2 ^ 33
    → n < 2 ^ 33
    → (s : ℕ) × (client_timeout (timeout_sec route t) ≡ pos (s * 1_000_000_000))
      × (s ≤ m)
      × (s ≤ n)
      × ((s ≡ m) ⊎ (s ≡ n))
client_timeout-timeout_sec_smaller route t m n em en pm pn bm bn = elim (Bool-cases (ltb m n)) [
  | inl less ↦ (
    m,
    ap client_timeout (timeout_sec-eq route t m n em en ∙ rw less) ∙ client_timeout-pos m pm bm,
    omega arith,
    ground arith,
    inl refl,
  )
  | inr more ↦ (
    n,
    ap client_timeout (timeout_sec-eq route t m n em en ∙ rw more) ∙ client_timeout-pos n pn bn,
    ground arith,
    omega arith,
    inr refl,
  )
]

-- Stripping slashes leaves no slash in front.
trim_left-head :
    (p : ℕ → Bool) (s : Text)
    → (trim_left p s ≡ []) ⊎ ((c : ℕ) × (rest : Text) × (trim_left p s ≡ c ∷ rest) × (p c ≡ false))
unfolding trim_left
trim_left-head p [] = inl refl
trim_left-head p (c ∷ s) = elim (Bool-cases (p c)) [
  | inl hit ↦ rw hit (trim_left-head p s)
  | inr miss ↦ rw miss (inr (c, s, refl, miss))
]

-- The path of a callback's URL is empty or starts with one slash, never with two.
clean_path-IsRooted :
    (path : Text)
    → (clean_path path ≡ [])
      ⊎ ((rest : Text) × (clean_path path ≡ b'/' ∷ rest)
          × ((rest ≡ []) ⊎ ((c : ℕ) × (tail : Text) × (rest ≡ c ∷ tail) × (c ≢ b'/'))))
unfolding clean_path
clean_path-IsRooted path = elim (Bool-cases (is_empty (trim_space path))) [
  | inl blank ↦ rw blank (inl refl)
  | inr some ↦ rw some (
      inr (
        _,
        refl,
        elim (trim_left-head (λ c. c == b'/') (trim_space path)) [
          | inl bare ↦ inl bare
          | inr (c, tail, e, other) ↦ inr (c, tail, e, (λ same. ground (arith, same, other)))
        ],
      ))
]
