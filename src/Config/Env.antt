-- ===== src/Config/Env.antt =====
-- internal/config/env.go: reading the environment. Every reader returns its value beside the problems
-- that `envError` collects; a problem is its kind, the variable and the text that it quotes.
pub mod Laws
use remnawave_subpage_proxy.Prelude.{
  ℕ, suc, ◌*◌, ◌%◌, ◌^◌, ◌-◌, Bool, true, false, List, [], ◌∷◌, ◌++◌, Option, none, some,
  if◌then◌else◌, length, leb, take, drop,
}
use remnawave_subpage_proxy.Prelude.Int.{ℤ, pos, negsuc, is_neg, to_word, of_word}
use remnawave_subpage_proxy.Prelude.Text.{Bytes, codes, bytes_eq, contains, is_empty, trim_space}
use remnawave_subpage_proxy.Prelude.Text.Case.{Unicode, to_upper}
use remnawave_subpage_proxy.Prelude.Text.Decimal.{parse_int}

pub data EnvProblem : Type 0 where
  is_required : Bytes → EnvProblem
  is_negative : Bytes → Bytes → EnvProblem
  no_duration : Bytes → Bytes → EnvProblem
  no_integer : Bytes → Bytes → EnvProblem
  no_bool : Bytes → Bytes → EnvProblem
  no_size : Bytes → Bytes → EnvProblem
  no_url : Bytes → Bytes → EnvProblem
  bad_scheme : Bytes → Bytes → EnvProblem
  no_host : Bytes → Bytes → EnvProblem
  not_among : Bytes → Bytes → EnvProblem
  not_positive : Bytes → EnvProblem
  negative_number : Bytes → ℤ → EnvProblem
  smaller_than : Bytes → Bytes → EnvProblem

pub record Reading (A : Type 0) : Type 0 where
  pub value : A
  pub problems : List EnvProblem

abbrev pub fine : {A : Type 0} → A → Reading A
fine a = record { value = a; problems = [] }

abbrev pub flawed : {A : Type 0} → A → EnvProblem → Reading A
flawed a p = record { value = a; problems = p ∷ [] }

-- Go's `a * b` on int64.
unfoldable pub mul_int64 : ℤ → ℤ → ℤ
mul_int64 a b = of_word (to_word a * to_word b % 2 ^ 64)

-- `strings.CutSuffix`
unfoldable pub cut_suffix : Bytes → Bytes → Option Bytes
cut_suffix s suffix =
    let kept = length s - length suffix in
    if leb (length suffix) (length s)
    then (if bytes_eq (drop kept s) suffix then some (take kept s) else none)
    else none

abbrev pub size_units : List (Bytes × ℕ)
size_units =
    (codes "KIB", 2 ^ 10)
    ∷ (codes "MIB", 2 ^ 20)
    ∷ (codes "GIB", 2 ^ 30)
    ∷ (codes "KB", 1000)
    ∷ (codes "MB", 1000000)
    ∷ (codes "GB", 1000000000)
    ∷ (codes "K", 2 ^ 10)
    ∷ (codes "M", 2 ^ 20)
    ∷ (codes "G", 2 ^ 30)
    ∷ (codes "B", 1)
    ∷ []

-- The loop of `parseSize`: the digits and the multiplier.
unfoldable pub unit_of : Bytes → List (Bytes × ℕ) → Bytes × ℕ
unit_of s [] = (s, 1)
unit_of s ((suffix, mult) ∷ units) =
    let other = unit_of s units in
    elim (cut_suffix s suffix) [ none ↦ other | some rest ↦ (trim_space rest, mult) ]

abbrev pub times : ℕ → Option ℤ → Option ℤ
times mult none = none
times mult (some n) = some (mul_int64 n (pos mult))

-- `strconv.ParseBool`
unfoldable pub parse_bool : Bytes → Option Bool
parse_bool s =
    if contains
      (codes "1" ∷ codes "t" ∷ codes "T" ∷ codes "TRUE" ∷ codes "true" ∷ codes "True" ∷ []) s
    then some true
    else if contains
        (codes "0" ∷ codes "f" ∷ codes "F" ∷ codes "FALSE" ∷ codes "false" ∷ codes "False" ∷ []) s
    then some false
    else none

-- `os.LookupEnv` and `time.ParseDuration`, whose durations are nanoseconds.
pub record System : Type 0 where
  pub look_up : Bytes → Option Bytes
  pub parse_duration : Bytes → Option ℤ

abbrev pub unless_blank : Option Bytes → Option Bytes
unless_blank none = none
unless_blank (some raw) =
    let trimmed = trim_space raw in if is_empty trimmed then none else some trimmed

unfoldable pub parse_size : Unicode → Bytes → Option ℤ
unfolding unit_of
parse_size u raw =
    let (digits, mult) = unit_of (to_upper u (trim_space raw)) size_units in
    times mult (parse_int digits)

abbrev pub second : ℤ
second = pos 1000000000

module _ (u : Unicode) (sys : System) where
  -- `lookup`
  unfoldable pub env_lookup : Bytes → Option Bytes
  env_lookup key = unless_blank (sys.look_up key)

  unfoldable pub env_string : Bytes → Bytes → Bytes
  env_string key other = elim (env_lookup key) [ none ↦ other | some raw ↦ raw ]

  unfoldable pub required_string : Bytes → Reading Bytes
  required_string key = elim (env_lookup key) [
    | none ↦ flawed [] (is_required key)
    | some raw ↦ fine raw
  ]

  unfoldable pub given_duration : Bytes → ℤ → Bytes → Option ℤ → Option ℤ → Reading ℤ
  given_duration key other raw (some secs) parsed =
      if is_neg secs then flawed other (is_negative key raw) else fine (mul_int64 secs second)
  given_duration key other raw none none = flawed other (no_duration key raw)
  given_duration key other raw none (some d) =
      if is_neg d then flawed other (is_negative key raw) else fine d

  unfoldable pub duration : Bytes → ℤ → Reading ℤ
  unfolding given_duration
  duration key other = elim (env_lookup key) [
    | none ↦ fine other
    | some raw ↦ given_duration key other raw (parse_int raw) (sys.parse_duration raw)
  ]

  unfoldable pub int_val : Bytes → ℤ → Reading ℤ
  int_val key other = elim (env_lookup key) [
    | none ↦ fine other
    | some raw ↦ elim (parse_int raw) [ none ↦ flawed other (no_integer key raw) | some n ↦ fine n ]
  ]

  unfoldable pub bool_val : Bytes → Bool → Reading Bool
  bool_val key other = elim (env_lookup key) [
    | none ↦ fine other
    | some raw ↦ elim (parse_bool raw) [ none ↦ flawed other (no_bool key raw) | some b ↦ fine b ]
  ]

  unfoldable pub size_val : Bytes → ℤ → Reading ℤ
  unfolding parse_size
  size_val key other = elim (env_lookup key) [
    | none ↦ fine other
    | some raw ↦ elim (parse_size u raw) [
      | none ↦ flawed other (no_size key raw)
      | some n ↦ if is_neg n then flawed other (is_negative key raw) else fine n
    ]
  ]
