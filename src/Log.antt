-- ===== src/Log.antt =====
-- log.h, log_lvl.h and log.cpp: the log. The time, as `strftime` writes it, the number of the process
-- and the text that `vsnprintf` makes are arguments. A file has a name, without a byte 0.
pub mod Examples
pub mod Names
use libtnet.Base.{
  ℕ, zero, suc, ◌+◌, ◌-◌, Bool, true, false, not, ◌||◌, List, [], ◌∷◌, ◌++◌, ltb, leb, ◌==◌,
  if◌then◌else◌, drop, take,
}
use libtnet.Base.Bytes.{Bytes, codes, same}
use libtnet.Base.Decimal.{show}
use libtnet.StringUtil.{upper}

-- `LogLevel`: `TRACE`, `DEBUG`, `INFO`, `WARN`, `ERROR` and `FATAL` are 0 to 5.
abbrev pub trace : ℕ
trace = 0

-- `LevelMsg`
abbrev pub level_names : List Bytes
level_names =
    codes "TRACE" ∷ codes "DEBUG" ∷ codes "INFO" ∷ codes "WARN" ∷ codes "ERROR" ∷ codes "FATAL" ∷ []

-- `LevelMsg[level]`, of a level that there is
pub level_msg : ℕ → List Bytes → Bytes
level_msg level [] = []
level_msg zero (name ∷ names) = name
level_msg (suc level) (name ∷ names) = level_msg level names

abbrev pub max_log_msg : ℕ
max_log_msg = 1024

-- `m_fd`
pub data Sink : Type 0 where
  to_stdout : Sink
  to_file : Bytes → Sink

pub data Asked : Type 0 where
  closed : Sink → Asked
  opened : Bytes → Asked
  printed : Sink → Bytes → Asked

pub record Log : Type 0 where
  pub fd : Sink
  pub level : ℕ
  pub log : List Asked

pub make : Log
make = record { fd = to_stdout; level = trace; log = [] }

pub make_file : Bytes → Log
make_file name = record { fd = to_file name; level = trace; log = opened name ∷ [] }

abbrev pub ask : Asked → Log → Log
ask a l = record l { log = l.log ++ a ∷ [] }

abbrev pub is_stdout : Sink → Bool
is_stdout to_stdout = true
is_stdout (to_file name) = false

pub destroy : Log → Log
destroy l = if not (is_stdout l.fd) then ask (closed l.fd) l else l

pub redirect : Bytes → Log → Log
redirect name l =
    if not (is_stdout l.fd)
    then record (ask (opened name) (ask (closed l.fd) l)) { fd = to_file name }
    else l

pub set_level : ℕ → Log → Log
set_level level l = record l { level = level }

-- The loop of `getLevel`, over the names from a level on.
pub find_level : Bytes → ℕ → List Bytes → ℕ
find_level str level [] = trace
find_level str level (name ∷ names) =
    let later = find_level str (level + 1) names in if same str name then level else later

pub get_level : Bytes → ℕ
unfolding find_level
get_level str = find_level (upper str) trace level_names

abbrev pub is_separator : ℕ → Bool
is_separator c = c == b'\\' || c == b'/'

abbrev pub at_separator : Bytes → Bool
at_separator [] = false
at_separator (c ∷ s) = is_separator c

-- The loop over the name of a file: its length, and the last place of a separator behind the first
-- byte, or 0.
pub scan : Bytes → ℕ → ℕ → ℕ × ℕ
scan [] pos fpos = (pos, fpos)
scan (c ∷ file) pos fpos = scan file (pos + 1) (if at_separator file then pos + 1 else fpos)

pub base_name : Bytes → Bytes
unfolding scan
base_name file =
    let (pos, fpos) = scan file 0 0 in if ltb fpos pos then drop (fpos + 1) file else file

pub line_of : Bytes → ℕ → Bytes → Bytes → ℕ → Bytes → Bytes → Bytes
unfolding base_name
line_of date pid level file line function msg =
    date
    ++ (codes " "
        ++ (level
            ++ (codes " ["
                ++ (show pid
                    ++ (codes "] "
                        ++ (base_name file
                            ++ (codes ":"
                                ++ (show line
                                    ++ (codes "["
                                        ++ (function ++ (codes "] " ++ (msg ++ 10 ∷ []))))))))))))

-- `trace` to `fatal`, by the level.
pub write : Bytes → ℕ → ℕ → Bytes → Bytes → ℕ → Bytes → Log → Log
unfolding line_of level_msg
write date pid level file function line text l =
    let msg = take (max_log_msg - 1) text in
    if leb l.level level
    then ask (printed l.fd (line_of date pid (level_msg level level_names) file line function msg))
        l
    else l
