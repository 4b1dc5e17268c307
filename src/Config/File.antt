-- ===== src/Config/File.antt =====
-- Config (common/config.cpp), and ConnectPool::readConf (chat/src/server/ConnectPool.cpp), which
-- differs in that it neither skips comments nor trims.
use learn_git.Base.{
  ℕ, List, [], ◌∷◌, Bool, true, ◌&&◌, ◌||◌, ◌==◌, if◌then◌else◌, Bytes, bytes_eq, Option, none,
  some, is_empty, ◌>>=◌,
}
use learn_git.Config.Text.{ℤ, lines, split_at, stoi, to_u16}

-- The map, with the newest entry of a key in front of the older ones.
abbrev pub Entries : Type 0
Entries = List (Bytes × Bytes)

unfoldable pub find_entry : Bytes → Entries → Option Bytes
find_entry key [] = none
find_entry key ((k, v) ∷ es) =
    let rest = find_entry key es in if bytes_eq k key then some v else rest

abbrev pub is_blank : ℕ → Bool
is_blank c = (c == 32) || (c == 9)

unfoldable pub trim_left : Bytes → Bytes
trim_left [] = []
trim_left (c ∷ cs) = let rest = trim_left cs in if is_blank c then rest else c ∷ cs

unfoldable pub trim_right : Bytes → Bytes
trim_right [] = []
trim_right (c ∷ cs) =
    let rest = trim_right cs in if is_blank c && is_empty rest then [] else c ∷ rest

abbrev pub trim : Bytes → Bytes
trim text = trim_right (trim_left text)

-- An empty line, or a comment.
abbrev pub is_skipped : Bytes → Bool
is_skipped [] = true
is_skipped (c ∷ cs) = c == b'#'

-- One round of the constructor's loop.
unfoldable pub read_line : Bytes → Entries → Entries
unfolding trim_left trim_right split_at
read_line line es =
    if is_skipped line
    then es
    else elim (split_at b'=' line) [ none ↦ es | some (k, v) ↦ (trim k, trim v) ∷ es ]

unfoldable pub read_lines : List Bytes → Entries → Entries
unfolding read_line
read_lines [] es = es
read_lines (l ∷ ls) es = read_lines ls (read_line l es)

-- The constructor, on what the file holds; a file that cannot be opened is `none`.
unfoldable pub load_config : Option Bytes → Entries
unfolding read_lines lines
load_config none = []
load_config (some text) = read_lines (lines text) []

unfoldable pub config_get : Bytes → Bytes → Entries → Bytes
unfolding find_entry
config_get key default es = elim (find_entry key es) [ none ↦ default | some v ↦ v ]

-- getInt and getPort; an exception of std::stoi is `none`.
unfoldable pub get_int : Bytes → ℤ → Entries → Option ℤ
unfolding find_entry
get_int key default es = elim (find_entry key es) [ none ↦ some default | some v ↦ stoi v ]

unfoldable pub get_port : Bytes → ℕ → Entries → Option ℕ
unfolding find_entry
get_port key default es = elim (find_entry key es) [
  | none ↦ some default
  | some v ↦ do n ← stoi v; some (to_u16 n)
]

-- The loop of readConf.
unfoldable pub read_conf_lines : List Bytes → Entries → Entries
unfolding split_at
read_conf_lines [] es = es
read_conf_lines (l ∷ ls) es =
    read_conf_lines ls (elim (split_at b'=' l) [ none ↦ es | some (k, v) ↦ (k, v) ∷ es ])

-- m[key], with the empty text for a key that is not there.
abbrev pub value_of : Bytes → Entries → Bytes
value_of key es = elim (find_entry key es) [ none ↦ [] | some v ↦ v ]

-- What readConf sets.
pub record PoolConf : Type 0 where
  pub host : Bytes
  pub port : ℤ
  pub user : Bytes
  pub pass : Bytes
  pub dbname : Bytes
  pub max_size : ℤ
  pub init_size : ℤ

-- readConf on an open file; an exception of std::stoi is `none`.
unfoldable pub read_conf : Bytes → Option PoolConf
unfolding read_conf_lines lines find_entry
read_conf text = do
  let m = read_conf_lines (lines text) []
  port ← stoi (value_of (b'p' ∷ b'o' ∷ b'r' ∷ b't' ∷ []) m)
  max_size ← stoi (value_of (b'm' ∷ b'a' ∷ b'x' ∷ b's' ∷ b'i' ∷ b'z' ∷ b'e' ∷ []) m)
  init_size ← stoi (value_of (b'i' ∷ b'n' ∷ b'i' ∷ b't' ∷ b's' ∷ b'i' ∷ b'z' ∷ b'e' ∷ []) m)
  some (record {
    host = value_of (b'i' ∷ b'p' ∷ []) m;
    port = port;
    user = value_of (b'u' ∷ b's' ∷ b'e' ∷ b'r' ∷ []) m;
    pass = value_of (b'p' ∷ b'a' ∷ b's' ∷ b's' ∷ b'w' ∷ b'o' ∷ b'r' ∷ b'd' ∷ []) m;
    dbname = value_of (b'd' ∷ b'b' ∷ b'n' ∷ b'a' ∷ b'm' ∷ b'e' ∷ []) m;
    max_size = max_size;
    init_size = init_size;
  })
