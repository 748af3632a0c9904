-- ===== src/Config/Cli.antt =====
-- The command line, internal/cli/cli.go: the defaults that the .env file gives to the flags, and the list
-- of origins. Package flag is a parameter.
pub mod Parsed
use meme.Base.{
  Bool, true, false, Option, none, some, List, [], ◌∷◌, if◌then◌else◌, Text, codes, str_eq, split,
  trim_space, Map, lookup, get_or_else,
}
use meme.Config.Env.{resolve_path, load, read_bool}

pub record Config : Type 0 where
  pub addr : Text
  pub exec : Bool
  pub work_root : Text
  pub api_key : Text
  pub cors_origins : List Text
  pub env_file : Text
  pub env_loaded : Bool
  pub show_version : Bool

-- The flags, as defaults and as they are set
pub record Flags : Type 0 where
  pub env_file : Text
  pub addr : Text
  pub exec : Bool
  pub work_root : Text
  pub api_key : Text
  pub cors_origins : Text
  pub show_version : Bool

-- What the code calls outside: os.Getenv, the lines of a file, and `FlagSet.Parse`, which is given the
-- defaults and sets what the arguments name; `none` is its error.
pub record Outside : Type 0 where
  pub env_variable : Text
  pub read_lines : Text → Option (List Text)
  pub parse_flags : List Text → Flags → Option Flags

-- `get`
abbrev pub get_var : Map Text → Text → Text → Text
get_var vars key fallback = get_or_else (lookup key vars) fallback

-- The default of the listen address
unfoldable pub addr_default : Map Text → Text
addr_default vars =
    let addr = get_var vars (codes "ADDR") [] in
    let port = get_var vars (codes "PORT") [] in
    if not_empty addr then addr else if not_empty port then b':' ∷ port else codes ":8080"
  where
    not_empty : Text → Bool
    not_empty s = if str_eq s [] then false else true

unfoldable pub trimmed : List Text → List Text
trimmed [] = []
trimmed (v ∷ vs) =
    let rest = trimmed vs in if str_eq (trim_space v) [] then rest else trim_space v ∷ rest

-- `splitList`
unfoldable pub split_list : Text → List Text
split_list s = trimmed (split s b',')

-- The defaults of the flags
unfoldable pub flag_defaults : Text → Map Text → Flags
flag_defaults path vars = record {
  env_file = path;
  addr = addr_default vars;
  exec = read_bool (get_var vars (codes "EXEC") []) false;
  work_root = get_var vars (codes "WORK") [];
  api_key = get_var vars (codes "API_KEY") [];
  cors_origins = get_var vars (codes "CORS_ORIGINS") [];
  show_version = false;
}

abbrev pub configured : Bool → Flags → Config
configured loaded f = record {
  addr = f.addr;
  exec = f.exec;
  work_root = f.work_root;
  api_key = f.api_key;
  cors_origins = split_list f.cors_origins;
  env_file = f.env_file;
  env_loaded = loaded;
  show_version = f.show_version;
}

abbrev when_parsed : Bool → Option Flags → Option Config
when_parsed loaded none = none
when_parsed loaded (some f) = some (configured loaded f)

-- `ParseArgs`; `none` is its error
unfoldable pub parse_args : Outside → List Text → Option Config
parse_args out args =
    let path = resolve_path out.env_variable args in
    let (vars, loaded) = load (out.read_lines path) in
    when_parsed loaded (out.parse_flags args (flag_defaults path vars))
