-- ===== src/Mysql/Ids/RoundTrip.antt =====
-- Reading an id back from its decimal text.
use mathlib.Core.List.{cons-ne-nil}
use native.Mathlib.Nat.{pow-suc}
use easytask.Base.{
  ℕ, zero, suc, ◌+◌, ◌/◌, ◌%◌, ◌^◌, ◌≤◌, ◌<◌, ◌≡◌, refl, ap, ◌∙◌, ◌≢◌, [], ◌∷◌, none, arith, Text,
  ltb, Bool-cases, inl, inr,
}
use easytask.Mysql.Ids.{
  max_uint64, push_digits, sprint_uint, parse_digits, parse_uint, to_task_entity_id,
  to_task_model_id,
}

-- Reading the last digit of `n` behind the digits before it.
parse_digits_last :
    (n : ℕ) (s : Text)
    → n ≤ max_uint64
    → parse_digits ((b'0' + n % 10) ∷ s) (n / 10) ≡ parse_digits s n
unfolding parse_digits
parse_digits_last n s h = ground arith

-- Enough rounds print all digits, and the digits read back as the number.
parse_digits-push_digits :
    (rounds n : ℕ) (s : Text)
    → n ≤ max_uint64
    → n < 10 ^ rounds
    → parse_digits (push_digits rounds n s) 0 ≡ parse_digits s n
unfolding push_digits
parse_digits-push_digits zero n s h fits = ap (parse_digits s) (omega arith)
parse_digits-push_digits (suc rounds) n s h fits = elim (Bool-cases (ltb n 10)) [
  | inl small ↦ rw small (ap (parse_digits (_ ∷ s)) (ground arith) ∙ parse_digits_last n s h)
  | inr big ↦ rw big (
      parse_digits-push_digits rounds (n / 10) ((b'0' + n % 10) ∷ s) (omega arith)
        (omega (arith, pow-suc 10 rounds))
      ∙ parse_digits_last n s h)
]

push_digits-ne-nil : (rounds n c : ℕ) (s : Text) → push_digits rounds n (c ∷ s) ≢ []
unfolding push_digits
push_digits-ne-nil zero n c s = cons-ne-nil c s
push_digits-ne-nil (suc rounds) n c s = ground (
  arith,
  push_digits-ne-nil rounds (n / 10) (b'0' + n % 10) (c ∷ s),
  cons-ne-nil (b'0' + n % 10) (c ∷ s),
)

sprint_uint-ne-nil : (n : ℕ) → sprint_uint n ≢ []
unfolding sprint_uint
sprint_uint-ne-nil n =
    ground
      (arith, push_digits-ne-nil 19 (n / 10) (b'0' + n % 10) [], cons-ne-nil (b'0' + n % 10) [])

pub to_task_entity_id-ne-nil : (key : ℕ) → to_task_entity_id key ≢ []
unfolding to_task_entity_id
to_task_entity_id-ne-nil key = sprint_uint-ne-nil key

parse_uint_of_ne-nil : (s : Text) → s ≢ [] → parse_uint s ≡ parse_digits s 0
unfolding parse_uint
parse_uint_of_ne-nil [] h = absurd (h refl)
parse_uint_of_ne-nil (c ∷ s) h = refl

-- A key is read back from its text: the twenty rounds of the print are enough, and the parser's
-- range tests pass.
pub to_task_model_id-to_task_entity_id :
    (key : ℕ) → key ≤ max_uint64 → to_task_model_id (to_task_entity_id key) ≡ (key, none)
unfolding to_task_model_id to_task_entity_id
to_task_model_id-to_task_entity_id key h =
    parse_uint_of_ne-nil _ (sprint_uint-ne-nil key)
    ∙ parse_digits-push_digits 20 key [] h (omega arith)
