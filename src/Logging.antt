-- ===== src/Logging.antt =====
-- internal/util/logger/logger.go: the seven loggers of the program, behind a flag that says whether
-- they are made.
use easytask.Base.{
  ℕ, ◌+◌, ◌≡◌, refl, leb, ◌==◌, Bool, true, false, ◌&&◌, List, [], ◌∷◌, ◌++◌, map, Option, none,
  some, if◌then◌else◌, ℤ, Text, codes, text_eq, trim_right, panic, Result, ok, err, Io, ◌>>=◌, pure,
  attempt,
}

data LogLevel : Type 0 where
  debug info warn error panicking fatal : LogLevel

record Logger : Type 0 where
  base_dir : Text
  max_file_size : ℤ
  -- none where SetLogLevel was not called
  level : Option LogLevel

record Conf : Type 0 where
  log_dir : Text
  file_size : ℤ
  level : Text

-- strings.ToLower, as far as its result is ASCII: the letters, the dotted I and the Kelvin sign.
lower : ℕ → ℕ
lower c =
    if leb b'A' c && leb c b'Z'
    then c + 32
    else if c == 0x130
    then b'i'
    else if c == 0x212A
    then b'k'
    else c

level_of : Text → Option LogLevel
unfolding lower text_eq
level_of level =
    let s = map lower level in
    if text_eq s (codes "debug")
    then some debug
    else if text_eq s (codes "info")
    then some info
    else if text_eq s (codes "warn")
    then some warn
    else if text_eq s (codes "error")
    then some error
    else if text_eq s (codes "panic")
    then some panicking
    else if text_eq s (codes "fatal")
    then some fatal
    else none

new_logger : Text → ℤ → Text → Logger
unfolding level_of
new_logger base_dir max_file_size level = record {
  base_dir = base_dir;
  max_file_size = max_file_size;
  level = level_of level;
}

record Loggers : Type 0 where
  sys : Logger
  session : Logger
  elect : Logger
  repo : Logger
  task : Logger
  registry : Logger
  callback : Logger

-- The variables of the package: `hasInit`, and the loggers, nil before.
record Package : Type 0 where
  has_init : Bool
  loggers : Option Loggers

abbrev logger_at : Conf → Text → Logger
logger_at conf name =
    new_logger (trim_right (λ c. c == b'/') conf.log_dir ++ name) conf.file_size conf.level

-- A call of Init as the lock lets it run: the second test of the flag has the answer of the first.
init : Conf → Package → Package
unfolding new_logger trim_right
init conf p = if p.has_init then p else record {
  has_init = true;
  loggers = some (record {
    sys = logger_at conf (codes "/sys");
    session = logger_at conf (codes "/session");
    elect = logger_at conf (codes "/elect");
    repo = logger_at conf (codes "/repo");
    task = logger_at conf (codes "/task");
    registry = logger_at conf (codes "/registry");
    callback = logger_at conf (codes "/callback");
  });
}

-- The shape of the functions `MustGet...Logger`: a panic before Init.
must_get : (Loggers → Logger) → Package → Result (Option Logger)
must_get pick p =
    if p.has_init then ok (elim p.loggers [ none ↦ none | some l ↦ some (pick l) ]) else err panic

abbrev must_get_registry_logger : Package → Result (Option Logger)
must_get_registry_logger = must_get (λ l. l.registry)

abbrev must_get_task_logger : Package → Result (Option Logger)
must_get_task_logger = must_get (λ l. l.task)

abbrev must_get_elect_logger : Package → Result (Option Logger)
must_get_elect_logger = must_get (λ l. l.elect)

abbrev must_get_repo_logger : Package → Result (Option Logger)
must_get_repo_logger = must_get (λ l. l.repo)

abbrev must_get_sys_logger : Package → Result (Option Logger)
must_get_sys_logger = must_get (λ l. l.sys)

abbrev must_get_sess_logger : Package → Result (Option Logger)
must_get_sess_logger = must_get (λ l. l.session)

abbrev must_get_callback_logger : Package → Result (Option Logger)
must_get_callback_logger = must_get (λ l. l.callback)

-- The list `loggers`, in its order, and Flush, whose goroutines are taken in this order: each logger
-- is flushed, whatever the others return, and an error is printed.
abbrev all_loggers : Option Loggers → List Logger
all_loggers none = []
all_loggers (some l) = l.sys ∷ l.session ∷ l.elect ∷ l.repo ∷ l.task ∷ l.registry ∷ l.callback ∷ []

module _ {W : Type 0} (flush_logger : Logger → Io W (Unit {0})) where
  flush_all : List Logger → Io W (Unit {0})
  flush_all [] = pure tt
  flush_all (l ∷ ls) = do _ ← attempt (flush_logger l); flush_all ls

  flush : Package → Io W (Unit {0})
  unfolding flush_all
  flush p = flush_all (all_loggers p.loggers)

  -- The process waits for all and sees no error.
  flush-ok : (p : Package) (w : W) → (flush p w).0 ≡ ok tt
  unfolding flush
  flush-ok p w = flush_all-ok (all_loggers p.loggers) w
    where
      flush_all-ok : (ls : List Logger) (w : W) → (flush_all ls w).0 ≡ ok tt
      flush_all-ok [] w = refl
      flush_all-ok (l ∷ ls) w = flush_all-ok ls (flush_logger l w).1

-- Before Init a logger is a panic. After it there is one, and a later Init changes nothing.
must_get-init :
    (pick : Loggers → Logger) (conf later : Conf) (p : Package)
    → p.has_init ≡ false
    → (must_get pick p ≡ err panic)
      × ((l : Logger) × (must_get pick (init conf p) ≡ ok (some l)))
      × (init later (init conf p) ≡ init conf p)
unfolding must_get init
must_get-init pick conf later p h = rw h (refl, (_, refl), refl)

level_of_warn : level_of (codes "Warn") ≡ some warn
unfolding level_of
level_of_warn = refl
