-- ===== src/Logger.antt =====
-- src/common/logger.hpp and src/common/logger.cpp: `Logger`, which makes its spdlog logger at the
-- first call. Whether spdlog makes one, or throws, is an argument of each call; lines on the
-- console are left out.
pub mod Calls
use tcp_1553_bus_analyzer.Prelude.{
  ℕ, Bool, true, false, List, [], ◌∷◌, ◌++◌, Option, none, some, if◌then◌else◌,
}
use tcp_1553_bus_analyzer.Text.{Text, codes}
use tcp_1553_bus_analyzer.Common.Paths.{Link, executable_directory}

pub data Level : Type 0 where
  info error warn critical debug : Level

pub record Line : Type 0 where
  pub level : Level
  pub message : Text

-- `path` is that of the static logger, none for a null pointer, and `lines` what was written to it;
-- `attempts` counts the calls of `daily_logger_mt`.
pub record Logger : Type 0 where
  pub path : Option Text
  pub lines : List Line
  pub attempts : ℕ

abbrev pub unused : Logger
unused = record { path = none; lines = []; attempts = 0 }

abbrev pub initialized : Line
initialized = record { level = info; message = codes "Logger initialized successfully." }

unfoldable pub log_file_path : Link → Text
log_file_path l = executable_directory l ++ codes "1553_Bus_Monitor.log"

-- `getLogger`; `made` says that spdlog does not throw.
unfoldable pub get_logger : Link → Bool → Logger → Logger
get_logger l made g = elim g.path [
  | some p ↦ g
  | none ↦
      if made
      then record g {
        path = some (log_file_path l);
        lines = g.lines ++ initialized ∷ [];
        attempts = ℕ.suc g.attempts;
      }
      else record g { attempts = ℕ.suc g.attempts }
]

-- `none` where the call goes through a null pointer.
unfoldable pub log : Link → Bool → Line → Logger → Option Logger
log l made line g =
    let h = get_logger l made g in
    elim h.path [ none ↦ none | some p ↦ some (record h { lines = h.lines ++ line ∷ [] }) ]

-- Calls one after the other, each with the answer of spdlog if it is asked.
unfoldable pub log_all : Link → List (Bool × Line) → Logger → Option Logger
log_all l [] g = some g
log_all l ((made, line) ∷ calls) g = elim (log l made line g) [
  | none ↦ none
  | some h ↦ log_all l calls h
]
