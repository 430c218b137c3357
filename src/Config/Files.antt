-- ===== src/Config/Files.antt =====
-- internal/config/file.go: `loadFile`. net/url, the file system and the YAML decoder are parameters.
pub mod Laws
use remnawave_subpage_proxy.Prelude.{
  ℕ, ◌*◌, is_some, Bool, true, false, not, ◌&&◌, ◌||◌, List, [], ◌∷◌, ◌++◌, Option, none, some,
  if◌then◌else◌, length, take,
}
use remnawave_subpage_proxy.Prelude.Int.{ℤ, pos, ltb_ℤ, is_neg}
use remnawave_subpage_proxy.Prelude.Text.{Bytes, codes, bytes_eq, contains, is_empty, trim_byte}
use remnawave_subpage_proxy.Prelude.Text.Case.{Unicode, to_lower}
use remnawave_subpage_proxy.Config.Patterns.{Regexp}
use remnawave_subpage_proxy.Config.File.{File, default_file}
use remnawave_subpage_proxy.Config.Validate.{FileProblem, validate}
use remnawave_subpage_proxy.Config.Env.{
  EnvProblem, no_url, bad_scheme, no_host, not_among, not_positive, negative_number, smaller_than,
  Reading, fine, flawed, cut_suffix, System, second,
}
use remnawave_subpage_proxy.Config.Settings.{Url}

-- `os.ReadFile`
pub data FileRead : Type 0 where
  contents : Bytes → FileRead
  missing : FileRead
  unreadable : FileRead

-- What a decoder returns: nothing, the end of an empty file, a `yaml.TypeError` with its texts, or some
-- other error.
pub data Decoded : Type 0 where
  clean at_end other_error : Decoded
  type_error : List Bytes → Decoded

-- `decode` fills a file in from the bytes; `unknown_section` is the regular expression of that name;
-- `itoa` is `%d`; `load_location` is `time.LoadLocation`.
pub record Outside : Type 0 where
  pub system : System
  pub parse_url : Bytes → Option Url
  pub int_text : ℤ → Bytes
  pub itoa : ℕ → Bytes
  pub compile : Bytes → Option Regexp
  pub load_location : Bytes → Option Bytes
  pub read_file : Bytes → FileRead
  pub decode : File → Bytes → File × Decoded
  pub unknown_section : Regexp

-- What `loadFile` returns.
pub data LoadedFile : Type 0 where
  loaded : File → List Bytes → LoadedFile
  not_read : LoadedFile
  not_parsed : List Bytes → LoadedFile
  invalid : List Bytes → List FileProblem → LoadedFile

-- What `loadFile` returns behind the validation.
abbrev pub judged : File → List Bytes → List FileProblem → LoadedFile
judged f skipped [] = loaded f skipped
judged f skipped (p ∷ ps) = invalid skipped (p ∷ ps)

-- The two lists of `splitUnknownFields`.
unfoldable pub split_errors : Regexp → List Bytes → List Bytes × List Bytes
split_errors is_unknown [] = ([], [])
split_errors is_unknown (e ∷ es) =
    let (skipped, fatal) = split_errors is_unknown es in
    if is_unknown e then (e ∷ skipped, fatal) else (skipped, e ∷ fatal)

abbrev pub not_fatal : List Bytes → Bool
not_fatal [] = true
not_fatal (_ ∷ _) = false

module _ (u : Unicode) (o : Outside) where
  abbrev pub validated : File → List Bytes → LoadedFile
  validated f skipped =
      let (g, problems) = validate u o.compile o.itoa o.load_location f in judged g skipped problems

  unfoldable pub decoded_file : File × Decoded → LoadedFile
  unfolding validate split_errors
  decoded_file (f, clean) = validated f []
  decoded_file (f, at_end) = validated f []
  decoded_file (f, other_error) = not_parsed []
  decoded_file (f, type_error es) =
      let (skipped, fatal) = split_errors o.unknown_section es in
      if not_fatal fatal then validated f skipped else not_parsed skipped

  abbrev pub read_result : Bool → FileRead → LoadedFile
  read_result explicit (contents raw) = decoded_file (o.decode default_file raw)
  read_result explicit missing = if explicit then not_read else loaded default_file []
  read_result explicit unreadable = not_read

  -- `loadFile`
  unfoldable pub load_file : Bytes → Bool → LoadedFile
  load_file path explicit = read_result explicit (o.read_file path)
