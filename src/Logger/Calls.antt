-- ===== src/Logger/Calls.antt =====
-- What a run of log calls leaves in the file.
use tcp_1553_bus_analyzer.Prelude.{
  ◌≡◌, refl, Bool, true, false, List, [], ◌∷◌, ◌++◌, none, some, if◌then◌else◌, arith,
}
use mathlib.Core.List.{append_assoc, append-nil}
use tcp_1553_bus_analyzer.Text.{Text}
use tcp_1553_bus_analyzer.Common.Paths.{Link}
use tcp_1553_bus_analyzer.Logger.{
  Line, Logger, unused, initialized, log_file_path, get_logger, log, log_all,
}

abbrev pub written : List (Bool × Line) → List Line
written [] = []
written ((made, line) ∷ calls) = line ∷ written calls

log_all_made :
    (l : Link) (calls : List (Bool × Line)) (g : Logger) (p : Text)
    → g.path ≡ some p
    → log_all l calls g ≡ some (record g { lines = g.lines ++ written calls })
unfolding log_all log get_logger
log_all_made l [] g p h = ground (arith, append-nil g.lines)
log_all_made l ((made, line) ∷ calls) g p h =
    let g1 = record g { lines = g.lines ++ line ∷ [] } in
    ground (arith, h, log_all_made l calls g1 p h, append_assoc g.lines (line ∷ []) (written calls))

-- The first call decides. Where spdlog makes the logger then, it is made once, in the file beside
-- the executable, which holds after any further calls the line of its making and all messages in
-- order. Where spdlog throws then, the call goes through a null pointer.
pub log_all-unused :
    (l : Link) (made : Bool) (line : Line) (calls : List (Bool × Line))
    → log_all l ((made, line) ∷ calls) unused ≡ (
        if made
        then some (record {
          path = some (log_file_path l);
          lines = initialized ∷ line ∷ written calls;
          attempts = 1;
        })
        else none)
unfolding log_all log get_logger
log_all-unused l true line calls = log_all_made l calls _ (log_file_path l) refl
log_all-unused l false line calls = refl
