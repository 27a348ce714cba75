-- ===== src/Mysql/Conn.antt =====
-- internal/task/impl/repo/mysql/repo_conn.go and logger.go: the connection that a repository keeps,
-- and what gorm's statements are logged as.
use easytask.Base.{
  ◌≡◌, refl, Bool, true, false, ◌&&◌, not, Option, none, some, if◌then◌else◌, ℤ, pos, negsuc, ltb_ℤ,
  ◌==ℤ◌, Text, Error, record_not_found, panic, Result, ok, err,
}

record RepoConnector (Conn : Type 0) : Type 0 where
  conn_dsn : Text
  conn : Option Conn

-- gorm.Open: a handle, that it may return beside an error, and the error.
record Opener (W Conn : Type 0) : Type 0 where
  open_conn : Text → W → Option Conn × Option Error × W

module _ {W Conn : Type 0} (gorm : Opener W Conn) where
  -- The lock lets one call at a time get past the first test, whose answer the second repeats. The
  -- handle is kept before the error is looked at.
  get_conn : RepoConnector Conn → W → Result (Option Conn) × RepoConnector Conn × W
  get_conn c w = elim c.conn [
    | some conn ↦ (ok (some conn), c, w)
    | none ↦
        (let opened = gorm.open_conn c.conn_dsn w in
          (
            elim opened.1 [ some e ↦ err e | none ↦ ok opened.0 ],
            record c { conn = opened.0 },
            opened.2,
          ))
  ]

  -- An error is a panic.
  must_get_conn : RepoConnector Conn → W → Result (Option Conn) × RepoConnector Conn × W
  unfolding get_conn
  must_get_conn c w =
      let got = get_conn c w in (elim got.0 [ err e ↦ err panic | ok conn ↦ ok conn ], got.1, got.2)

  -- After an Open that returned an error with a handle, the handle is taken for a connection: the next
  -- call returns it without an error and without opening anything.
  get_conn-broken :
      (c : RepoConnector Conn) (w v : W) (conn : Conn) (e : Error)
      → c.conn ≡ none
      → gorm.open_conn c.conn_dsn w ≡ (some conn, some e, v)
      → (get_conn c w ≡ (err e, record c { conn = some conn }, v))
        × (get_conn (record c { conn = some conn }) v
            ≡ (ok (some conn), record c { conn = some conn }, v))
  unfolding get_conn
  get_conn-broken c w v conn e empty opened = rw (get_conn, empty, opened) (refl, refl)

data Severity : Type 0 where
  information warning failure : Severity

-- A line of `Trace`: its severity, whether it is marked as slow, and the rows, if known.
record TraceLine : Type 0 where
  severity : Severity
  is_slow : Bool
  rows : Option ℤ

abbrev known_rows : ℤ → Option ℤ
known_rows n = if n ==ℤ negsuc 0 then none else some n

-- errors.Is(err, gorm.ErrRecordNotFound)
abbrev is_failure : Option Error → Bool
is_failure none = false
is_failure (some record_not_found) = false
is_failure (some _) = true

trace : ℤ → ℤ → Option Error → ℤ → TraceLine
trace slow_threshold elapsed e rows =
    if is_failure e
    then record { severity = failure; is_slow = false; rows = known_rows rows }
    else if ltb_ℤ slow_threshold elapsed && not (slow_threshold ==ℤ pos 0)
    then record { severity = warning; is_slow = true; rows = known_rows rows }
    else record { severity = information; is_slow = false; rows = known_rows rows }

-- A row that is not found is not logged as a failure, however long the statement took.
trace-not_found :
    (slow_threshold elapsed rows : ℤ)
    → trace slow_threshold elapsed (some record_not_found) rows
      ≡ trace slow_threshold elapsed none rows
unfolding trace
trace-not_found slow_threshold elapsed rows = refl
