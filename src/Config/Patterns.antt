-- ===== src/Config/Patterns.antt =====
-- internal/config/patterns.go: the patterns of the configuration, compiled before they are used.
-- `regexp.Compile` is the parameter `compile`, and a compiled pattern is its `MatchString`.
use remnawave_subpage_proxy.Prelude.{ℕ, suc, Bool, List, [], ◌∷◌, ◌++◌, Option, none, some}
use remnawave_subpage_proxy.Prelude.Text.{Bytes, trim_space}

abbrev pub Regexp : Type 0
Regexp = Bytes → Bool

pub record Block : Type 0 where
  pub enabled : Bool
  pub patterns : List Bytes

pub record Hosts : Type 0 where
  pub shuffle : List Bytes

pub data PatternError : Type 0 where
  needs_a_pattern invalid_regexp : PatternError

pub data Compiled {ℓ} (A : Type ℓ) : Type ℓ where
  compiled : A → Compiled A
  refused : PatternError → Compiled A

-- An error of `compilePatterns`: the index of the pattern, and what is wrong with it.
abbrev pub Problem : Type 0
Problem = ℕ × PatternError

pub data Patterns {ℓ} (A : Type ℓ) : Type ℓ where
  all_compiled : List A → Patterns A
  problems : List Problem → Patterns A

module _ (compile : Bytes → Option Regexp) where
  unfoldable pub compile_trimmed : Bytes → Compiled Regexp
  compile_trimmed [] = refused needs_a_pattern
  compile_trimmed (c ∷ s) = elim (compile (c ∷ s)) [
    | none ↦ refused invalid_regexp
    | some re ↦ compiled re
  ]

  unfoldable pub compile_pattern : Bytes → Compiled Regexp
  unfolding compile_trimmed
  compile_pattern pattern = compile_trimmed (trim_space pattern)

  -- The loop of `compilePatterns`, and the test behind it.
  unfoldable pub compile_from : ℕ → List Bytes → List Regexp → List Problem → Patterns Regexp
  compile_from i [] done [] = all_compiled done
  compile_from i [] done (p ∷ ps) = problems (p ∷ ps)
  compile_from i (pattern ∷ patterns) done found = elim (compile_pattern pattern) [
    | refused e ↦ compile_from (suc i) patterns done (found ++ (i, e) ∷ [])
    | compiled re ↦ compile_from (suc i) patterns (done ++ re ∷ []) found
  ]

  unfoldable pub compile_patterns : List Bytes → Patterns Regexp
  unfolding compile_from
  compile_patterns patterns = compile_from 0 patterns [] []

  unfoldable pub compile_block : Block → Patterns Regexp
  unfolding compile_patterns
  compile_block b = compile_patterns b.patterns

  unfoldable pub compile_hosts : Hosts → Patterns Regexp
  unfolding compile_patterns
  compile_hosts h = compile_patterns h.shuffle
