-- ===== src/Log.antt =====
-- storage-core/include/log.hpp. The sink is the list of the lines on stderr, oldest first, and the
-- time of a call is an argument.
use iot_devices_ledger_audit.Prelude.{
  ℕ, ◌+◌, ◌≤◌, ◌≡◌, ◌&&◌, ◌||◌, ◌⊎◌, inl, inr, List, [], ◌∷◌, ◌++◌, map, ltb, leb, if◌then◌else◌,
  arith, Bool-cases,
}
use iot_devices_ledger_audit.Prelude.Bytes.{Bytes, bytes, str_eq}
use iot_devices_ledger_audit.Block.{now_rfc3339}

pub data Level : Type 0 where
  error warn info debug : Level

-- `static_cast<int>(level)`
unfoldable pub to_int : Level → ℕ
to_int error = 0
to_int warn = 1
to_int info = 2
to_int debug = 3

unfoldable pub name : Level → Bytes
name error = bytes "ERROR"
name warn = bytes "WARN"
name info = bytes "INFO"
name debug = bytes "DEBUG"

-- `std::tolower` in the C locale.
unfoldable pub to_lower : ℕ → ℕ
to_lower c = if leb b'A' c && leb c b'Z' then c + 32 else c

level_of : Bytes → Level
level_of s =
    if str_eq s (bytes "error")
    then error
    else if str_eq s (bytes "warn") || str_eq s (bytes "warning")
    then warn
    else if str_eq s (bytes "debug") || str_eq s (bytes "trace")
    then debug
    else info

unfoldable pub level_from : Bytes → Level
unfolding level_of to_lower
level_from s = level_of (map to_lower s)

unfoldable pub log_line : ℕ → Level → Bytes → Bytes
log_line now level message =
    now_rfc3339 now ++ (b' ' ∷ (name level ++ (b' ' ∷ (message ++ (10 ∷ [])))))

-- `log(level, message)` under a threshold.
unfoldable pub log : Level → ℕ → Level → Bytes → List Bytes → List Bytes
unfolding to_int
log threshold now level message sink =
    if ltb (to_int threshold) (to_int level) then sink else sink ++ log_line now level message ∷ []

-- The threshold of the process, `detail::threshold()`, and what was printed so far.
pub record Logger : Type 0 where
  pub threshold : Level
  pub lines : List Bytes

abbrev pub default_logger : Logger
default_logger = record { threshold = info; lines = [] }

unfoldable pub init : Level → Logger → Logger
init threshold l = record l { threshold = threshold }

unfoldable pub print : ℕ → Level → Bytes → Logger → Logger
print now level message l = record l { lines = log l.threshold now level message l.lines }

unfoldable pub print_error : ℕ → Bytes → Logger → Logger
print_error now message l = print now error message l

unfoldable pub print_info : ℕ → Bytes → Logger → Logger
print_info now message l = print now info message l

-- Letter case does not matter: a text that differs from a level's printed name in case only is
-- read as that level.
level_from-name :
    (l : Level) (s : Bytes) → map to_lower s ≡ map to_lower (name l) → level_from s ≡ l
unfolding level_from name bytes str_eq
level_from-name error s h = rw h
level_from-name warn s h = rw h
level_from-name info s h = rw h
level_from-name debug s h = rw h

-- A message that is printed is printed under every threshold that shows more, and the line is the same.
log_mono :
    (t u l : Level) (now : ℕ) (m : Bytes) (sink : List Bytes)
    → to_int t ≤ to_int u
    → (log t now l m sink ≡ sink) ⊎ (log t now l m sink ≡ log u now l m sink)
unfolding log
log_mono t u l now m sink h = elim (Bool-cases (ltb (to_int t) (to_int l))) [
  | inl hidden ↦ inl (rw hidden)
  | inr shown ↦ inr (ground arith)
]
