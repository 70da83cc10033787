-- ===== src/Utilities/Logger/Cycle.antt =====
-- Which files check_life_cycle removes, by the clocks of the two libraries.
use cpp_toolkit.Prelude.{
  ℕ, ◌+◌, ◌-◌, ◌*◌, ◌/◌, ◌^◌, ◌<◌, ◌≤◌, ◌≡◌, refl, arith, Bool, false, ◌&&◌, List, [], ◌∷◌, codes,
  ◌==◌, bytes_eq, All, if◌then◌else◌, lt→ltb, le→ltb,
}
use cpp_toolkit.Utilities.Logger.Queue.{Entry, hour, is_old, remove_old}

-- A regular file with the extension of a log.
abbrev pub is_log : Entry → Bool
is_log entry = entry.regular && (entry.extension == codes ".log")

-- The entries that are no logs.
pub others : List Entry → List Entry
others [] = []
others (entry ∷ entries) = if is_log entry then others entries else entry ∷ others entries

old_log :
    (ahead now period : ℕ) (entry : Entry)
    → period < 2 ^ 16
    → 65536 * (24 * hour) ≤ ahead
    → entry.written ≤ now
    → is_old ahead now period entry ≡ is_log entry
old_log ahead now period entry h a w =
    rw (lt→ltb period ((now + ahead - entry.written) / hour / 24) (omega arith)) (ground arith)

-- Where the epoch of the clock of std::filesystem comes 65536 days or more after that of the system's clock,
-- no log that was written until now stays, however short a time ago, and everything else stays.
pub every_log_goes :
    (ahead now period : ℕ) (entries : List Entry)
    → period < 2 ^ 16
    → 65536 * (24 * hour) ≤ ahead
    → All (λ entry. entry.written ≤ now) entries
    → remove_old ahead now period entries ≡ others entries
unfolding remove_old others
every_log_goes ahead now period [] h a ws = refl
every_log_goes ahead now period (entry ∷ entries) h a (w, ws) =
    rw (old_log ahead now period entry h a w, every_log_goes ahead now period entries h a ws) refl

young_log :
    (now period : ℕ) (entry : Entry)
    → now < entry.written + (period + 1) * (24 * hour)
    → is_old 0 now period entry ≡ false
young_log now period entry h =
    rw (le→ltb period ((now + 0 - entry.written) / hour / 24) (omega arith)) (ground arith)

-- Where the two epochs are one, a log of at most period days stays.
pub remove_old_young :
    (now period : ℕ) (entries : List Entry)
    → All (λ entry. now < entry.written + (period + 1) * (24 * hour)) entries
    → remove_old 0 now period entries ≡ entries
unfolding remove_old
remove_old_young now period [] ws = refl
remove_old_young now period (entry ∷ entries) (w, ws) =
    rw (young_log now period entry w, remove_old_young now period entries ws) refl
