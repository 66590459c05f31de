-- ===== src/Service.antt =====
-- The log that a process shows to the user (lib/service.py).
pub mod Oldest
use lvpn.Prelude.{
  ℕ, zero, suc, String, Bool, true, false, List, [], ◌∷◌, ◌++◌, length, ltb, if◌then◌else◌,
}

-- `log[:n]`
pub take_first : {A : Type 0} → ℕ → List A → List A
take_first zero xs = []
take_first (suc n) [] = []
take_first (suc n) (x ∷ xs) = x ∷ take_first n xs

-- `Service.log_gui`, for an entry with its time and its process; the list is kept in `ctrl["log"]`.
pub log_gui : String → List String → List String
unfolding take_first
log_gui entry log =
    let appended = log ++ entry ∷ [] in
    if ltb 30 (length appended) then take_first 30 appended else appended

-- The calls of `log_gui` one after the other.
unfoldable pub log_all : List String → List String → List String
unfolding log_gui
log_all [] log = log
log_all (entry ∷ entries) log = log_all entries (log_gui entry log)
