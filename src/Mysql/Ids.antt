-- ===== src/Mysql/Ids.antt =====
-- The ids of data_model.go: a uint64 key in the tables, its decimal text in the entities.
pub mod RoundTrip
use easytask.Base.{
  ℕ, zero, suc, ◌+◌, ◌-◌, ◌*◌, ◌/◌, ◌%◌, ◌^◌, ◌||◌, List, [], ◌∷◌, Option, none, some, Text, Error,
  num_syntax, num_range, ltb, leb, if◌then◌else◌, Result, ok, err,
}

abbrev pub max_uint64 : ℕ
max_uint64 = 2 ^ 64 - 1

-- fmt.Sprintf("%d", n): the decimal digits, last digit first in the loop. A uint64 has at most
-- twenty.
unfoldable pub push_digits : ℕ → ℕ → Text → Text
push_digits zero n out = out
push_digits (suc rounds) n out =
    let shown = (b'0' + n % 10) ∷ out in
    let longer = push_digits rounds (n / 10) shown in if ltb n 10 then shown else longer

unfoldable pub sprint_uint : ℕ → Text
unfolding push_digits
sprint_uint n = push_digits 20 n []

-- The value and the error of strconv.ParseUint(s, 10, 64), which returns 0 on a syntax error and the
-- largest uint64 where the value is out of range.
unfoldable pub parse_digits : Text → ℕ → ℕ × Option Error
parse_digits [] n = (n, none)
parse_digits (c ∷ s) n =
    let d = c - b'0' in
    if ltb c b'0' || ltb b'9' c
    then (0, some num_syntax)
    else if leb (max_uint64 / 10 + 1) n
    then (max_uint64, some num_range)
    else if ltb ((n * 10 + d) % 2 ^ 64) (n * 10)
    then (max_uint64, some num_range)
    else parse_digits s ((n * 10 + d) % 2 ^ 64)

unfoldable pub parse_uint : Text → ℕ × Option Error
unfolding parse_digits
parse_uint [] = (0, some num_syntax)
parse_uint (c ∷ s) = parse_digits (c ∷ s) 0

-- The named conversions of data_model.go.
unfoldable pub to_task_entity_id : ℕ → Text
unfolding sprint_uint
to_task_entity_id model_id = sprint_uint model_id

unfoldable pub to_task_model_id : Text → ℕ × Option Error
unfolding parse_uint
to_task_model_id entity_id = parse_uint entity_id

unfoldable pub to_task_callback_srv_entity_id : ℕ → Text
unfolding sprint_uint
to_task_callback_srv_entity_id model_id = sprint_uint model_id

unfoldable pub to_tack_callback_srv_route_model_id : Text → ℕ × Option Error
unfolding parse_uint
to_tack_callback_srv_route_model_id entity_id = parse_uint entity_id

unfoldable pub to_callback_srv_route_entity_id : ℕ → Text
unfolding sprint_uint
to_callback_srv_route_entity_id model_id = sprint_uint model_id

unfoldable pub to_callback_srv_route_model_id : Text → ℕ × Option Error
unfolding parse_uint
to_callback_srv_route_model_id entity_id = parse_uint entity_id

-- The callers' `if err != nil { return err }`.
abbrev pub checked : ℕ × Option Error → Result ℕ
checked (n, none) = ok n
checked (n, some e) = err e
