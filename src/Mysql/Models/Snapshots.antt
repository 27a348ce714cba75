-- ===== src/Mysql/Models/Snapshots.antt =====
-- The snapshots of a log row as columns: Value and Scan in
-- internal/task/impl/repo/mysql/data_model.go.
use easytask.Base.{◌≡◌, refl, inl, inr, Text, panic, Result, ok, err, Result-cases, ok-injective}
use easytask.Mysql.Column.{TaskLogCallbackReqSnapshot, TaskLogCallbackRespSnapshot}

-- What a driver hands over.
data DriverValue : Type 0 where
  null : DriverValue
  bytes : Text → DriverValue
  string : Text → DriverValue

-- A type assertion that fails is a panic.
abbrev as_bytes : DriverValue → Result Text
as_bytes (bytes s) = ok s
as_bytes _ = err panic

abbrev as_string : DriverValue → Result Text
as_string (string s) = ok s
as_string _ = err panic

abbrev and_then : {A B : Type 0} → Result A → (A → Result B) → Result B
and_then (ok a) f = f a
and_then (err e) f = err e

-- `marshal` and `unmarshal` are encoding/json.
module _ (marshal : TaskLogCallbackReqSnapshot → Result Text)
    (unmarshal : Text → Result TaskLogCallbackReqSnapshot) where
  req_value : TaskLogCallbackReqSnapshot → Result DriverValue
  req_value s = and_then (marshal s) (λ j. ok (bytes j))

  req_scan : DriverValue → Result TaskLogCallbackReqSnapshot
  req_scan src = and_then (as_bytes src) unmarshal

  -- A snapshot of a request is read back from the value it is written as.
  req_scan-req_value :
      (s : TaskLogCallbackReqSnapshot) (v : DriverValue)
      → ((j : Text) → marshal s ≡ ok j → unmarshal j ≡ ok s)
      → req_value s ≡ ok v
      → req_scan v ≡ ok s
  unfolding req_value req_scan
  req_scan-req_value s v json h = elim (Result-cases (marshal s)) [
    | inr (e, bad) ↦ cc (rw bad at h)
    | inl (j, good) ↦
        (let same : bytes j ≡ v = ok-injective (rw good at h) in rw (← same) (json j good))
  ]

module _ (marshal : TaskLogCallbackRespSnapshot → Result Text)
    (unmarshal : Text → Result TaskLogCallbackRespSnapshot) where
  resp_value : TaskLogCallbackRespSnapshot → Result DriverValue
  resp_value s = and_then (marshal s) (λ j. ok (string j))

  resp_scan : DriverValue → Result TaskLogCallbackRespSnapshot
  resp_scan src = and_then (as_string src) unmarshal

  -- A snapshot of a response can be read only from a text: a driver that hands the column over as
  -- bytes makes the scan panic.
  resp_scan-bytes : (s : Text) → resp_scan (bytes s) ≡ err panic
  unfolding resp_scan
  resp_scan-bytes s = refl
