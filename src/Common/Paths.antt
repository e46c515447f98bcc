-- ===== src/Common/Paths.antt =====
-- The paths of src/common/common.hpp. A path is its text, as `std::filesystem::path` has it on
-- POSIX; the answer of `readlink` is an argument.
use tcp_1553_bus_analyzer.Prelude.{
  ℕ, ◌<◌, ◌≡◌, ◌≢◌, refl, ap, ◌∙◌, Bool, true, false, not, ◌&&◌, [], ◌∷◌, ◌++◌, Option, none, some,
  arith, ltb, ◌==◌, if◌then◌else◌, length, length-append,
}
use mathlib.Core.List.{append_assoc}
use tcp_1553_bus_analyzer.Prelude.Int.{ℤ, pos, negsuc}
use tcp_1553_bus_analyzer.Text.{Text, codes}

abbrev is_empty_text : Text → Bool
is_empty_text [] = true
is_empty_text (c ∷ s) = false

abbrev same_text : Text → Text → Bool
same_text [] [] = true
same_text (x ∷ xs) (y ∷ ys) = x == y && same_text xs ys
same_text _ _ = false

abbrev is_separator : ℕ → Bool
is_separator c = c == b'/'

-- There is no relative path: nothing, or the root alone.
unfoldable pub all_separators : Text → Bool
all_separators [] = true
all_separators (c ∷ s) = is_separator c && all_separators s

abbrev joined : ℕ → Option Text → Option Text
joined c none = if is_separator c then some [] else none
joined c (some t) = some (c ∷ t)

-- What stands before the last separator.
unfoldable pub before_last : Text → Option Text
before_last [] = none
before_last (c ∷ s) = joined c (before_last s)

abbrev stripped : ℕ → Text → Text
stripped c [] = if is_separator c then [] else c ∷ []
stripped c (x ∷ s) = c ∷ x ∷ s

-- A text without the separators at its end.
unfoldable pub strip : Text → Text
strip [] = []
strip (c ∷ s) = stripped c (strip s)

abbrev or_root : Text → Text
or_root [] = codes "/"
or_root (c ∷ s) = c ∷ s

-- `path::parent_path`.
unfoldable pub parent_path : Text → Text
parent_path p =
    if all_separators p then p else elim (before_last p) [ none ↦ [] | some t ↦ or_root (strip t) ]

-- What `readlink` returns, and the bytes that it writes into the zeroed buffer.
pub record Link : Type 0 where
  pub count : ℤ
  pub target : Text

abbrev path_max : ℕ
path_max = 4096

-- The buffer as a C string.
unfoldable pub c_string : Text → Text
c_string [] = []
c_string (c ∷ s) = if c == 0 then [] else c ∷ c_string s

abbrev in_buffer : ℤ → Bool
in_buffer (pos n) = ltb 0 n && ltb n path_max
in_buffer (negsuc n) = false

unfoldable pub executable_directory : Link → Text
executable_directory l =
    if in_buffer l.count then parent_path (c_string l.target) ++ codes "/" else codes "./"

unfoldable pub project_root_directory : Link → Text
project_root_directory l =
    let exec = executable_directory l in
    let parent = parent_path exec in
    if not (is_empty_text exec) && (not (is_empty_text parent) && not (same_text parent exec))
    then parent
    else codes "./"

unfoldable pub config_path : Link → Text
config_path l = project_root_directory l ++ codes "/config.json"

unfoldable pub log_path : Link → Text
log_path l = executable_directory l ++ codes "1553_Bus_Monitor.log"

-- Neither a separator nor the end of a C string.
abbrev pub IsName : Text → Type 0
IsName [] = Unit {0}
IsName (c ∷ s) = (c ≢ b'/') × (c ≢ 0) × IsName s

abbrev pub HasNoEnd : Text → Type 0
HasNoEnd [] = Unit {0}
HasNoEnd (c ∷ s) = (c ≢ 0) × HasNoEnd s

before_last-IsName : (name : Text) → IsName name → before_last name ≡ none
unfolding before_last
before_last-IsName [] v = refl
before_last-IsName (c ∷ s) v = ground (arith, before_last-IsName s v.2, v.0)

before_last-append : (dir name : Text) → IsName name → before_last (dir ++ b'/' ∷ name) ≡ some dir
unfolding before_last
before_last-append [] name v = ground (arith, before_last-IsName name v)
before_last-append (c ∷ dir) name v = ground (arith, before_last-append dir name v)

-- A text that ends in a character other than a separator.
strip_last : (d : Text) (c : ℕ) → c ≢ b'/' → strip (d ++ c ∷ []) ≡ d ++ c ∷ []
unfolding strip
strip_last [] c h = ground arith
strip_last (x ∷ []) c h = ground arith
strip_last (x ∷ y ∷ d) c h = ground (arith, strip_last (y ∷ d) c h)

all_separators_last : (d rest : Text) (c : ℕ) → c ≢ b'/' → all_separators (d ++ c ∷ rest) ≡ false
unfolding all_separators
all_separators_last [] rest c h = ground arith
all_separators_last (x ∷ d) rest c h = ground (arith, all_separators_last d rest c h)

or_root_last : (d : Text) (c : ℕ) → or_root (d ++ c ∷ []) ≡ d ++ c ∷ []
or_root_last [] c = refl
or_root_last (x ∷ d) c = refl

-- The parent of a file is its directory.
parent_path-file :
    (d : Text) (c : ℕ) (name : Text)
    → c ≢ b'/'
    → IsName name
    → parent_path ((d ++ c ∷ []) ++ b'/' ∷ name) ≡ d ++ c ∷ []
unfolding parent_path
parent_path-file d c name h v =
    let dir = d ++ c ∷ [] in
    let relative : all_separators (dir ++ b'/' ∷ name) ≡ false =
      ap all_separators (append_assoc d (c ∷ []) (b'/' ∷ name))
      ∙ all_separators_last d (b'/' ∷ name) c h in
    ground (arith, relative, before_last-append dir name v, strip_last d c h, or_root_last d c)

c_string-HasNoEnd : (s : Text) → HasNoEnd s → c_string s ≡ s
unfolding c_string
c_string-HasNoEnd [] v = refl
c_string-HasNoEnd (c ∷ s) v = ground (arith, c_string-HasNoEnd s v.1, v.0)

same_text_longer : (s : Text) (c : ℕ) → same_text s (s ++ c ∷ []) ≡ false
same_text_longer [] c = refl
same_text_longer (x ∷ s) c = ground (arith, same_text_longer s c)

is_empty_last : (s : Text) (c : ℕ) → is_empty_text (s ++ c ∷ []) ≡ false
is_empty_last [] c = refl
is_empty_last (x ∷ s) c = refl

-- The link of a program `name` in a directory that ends in the character c, no separator.
pub record IsProgram (l : Link) (d : Text) (c : ℕ) (name : Text) : Type 0 where
  pub target_is : l.target ≡ (d ++ c ∷ []) ++ b'/' ∷ name
  pub count_is : l.count ≡ pos (length l.target)
  pub fits : length l.target < 4096
  pub no_end : HasNoEnd l.target
  pub named : IsName name
  pub not_root : c ≢ b'/'

module _ (l : Link) (d : Text) (c : ℕ) (name : Text) (v : IsProgram l d c name) where
  executable_directory-program : executable_directory l ≡ (d ++ c ∷ []) ++ codes "/"
  unfolding executable_directory
  executable_directory-program =
      let file = parent_path-file d c name v.not_root v.named in
      let some_bytes : 0 < length ((d ++ c ∷ []) ++ b'/' ∷ name) =
        omega (arith, length-append (d ++ c ∷ []) (b'/' ∷ name)) in
      let whole : c_string l.target ≡ (d ++ c ∷ []) ++ b'/' ∷ name =
        c_string-HasNoEnd l.target v.no_end ∙ v.target_is in
      ground (
        arith,
        v.count_is,
        v.fits,
        whole,
        file,
        ap parent_path whole,
        some_bytes,
        ap (λ (t : Text). length t) v.target_is,
      )

  parent_path-directory : parent_path ((d ++ c ∷ []) ++ codes "/") ≡ d ++ c ∷ []
  parent_path-directory = parent_path-file d c [] v.not_root tt

  project_root-program : project_root_directory l ≡ d ++ c ∷ []
  unfolding project_root_directory
  project_root-program =
      let dir = d ++ c ∷ [] in
      rw (executable_directory-program, parent_path-directory)
        (ground (arith, is_empty_last dir b'/', is_empty_last d c, same_text_longer dir b'/'))

  -- For a program in any directory but the root: the executable's directory ends in a separator, so
  -- what is called the project's root is the directory of the executable itself, and the paths of
  -- the configuration and of the log are both in it.
  pub paths-program :
      (executable_directory l ≡ (d ++ c ∷ []) ++ codes "/")
      × (project_root_directory l ≡ d ++ c ∷ [])
      × (config_path l ≡ (d ++ c ∷ []) ++ codes "/config.json")
      × (log_path l ≡ (d ++ c ∷ []) ++ codes "/1553_Bus_Monitor.log")
  unfolding config_path log_path
  paths-program = (
    executable_directory-program,
    project_root-program,
    ap (λ (t : Text). t ++ codes "/config.json") project_root-program,
    ap (λ (t : Text). t ++ codes "1553_Bus_Monitor.log") executable_directory-program
        ∙ append_assoc (d ++ c ∷ []) (codes "/") (codes "1553_Bus_Monitor.log"),
  )
