-- ===== src/Tests/Settings.antt =====
-- The configuration: a .env file, and a command line without flags.
use meme.Base.{
  ◌≡◌, refl, true, false, some, List, [], ◌∷◌, Text, codes, str_eq, has_prefix, strip_prefix,
  trim_prefix, trim_left, trim_space, to_lower, lower_byte, split, split_from, lookup, insert,
}
use meme.Config.Env.{
  later_path, resolve_path, cut_equals, unquote, line_setting, load_lines, load, read_bool,
}
use meme.Config.Cli.{Config, Outside, addr_default, trimmed, split_list, flag_defaults, parse_args}

abbrev file : List Text
file =
    codes "# local"
    ∷ codes "PORT=8000"
    ∷ codes "export PORT = '9000' "
    ∷ codes "EXEC=on"
    ∷ codes "CORS_ORIGINS=https://a.test, ,https://b.test"
    ∷ []

abbrev outside : Outside
outside = record {
  env_variable = codes "meme.env";
  read_lines = λ path. some file;
  parse_flags = λ args d. some d;
}

abbrev config : Config
config = record {
  addr = codes ":9000";
  exec = true;
  work_root = [];
  api_key = [];
  cors_origins = codes "https://a.test" ∷ codes "https://b.test" ∷ [];
  env_file = codes "meme.env";
  env_loaded = true;
  show_version = false;
}

parsed : parse_args outside [] ≡ some config
unfolding parse_args resolve_path later_path load load_lines line_setting cut_equals unquote
    read_bool flag_defaults addr_default split_list trimmed split split_from lookup insert str_eq
    has_prefix strip_prefix trim_prefix trim_space trim_left to_lower lower_byte
parsed = refl
