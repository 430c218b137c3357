-- ===== src/Config/Validate/Rules.antt =====
-- internal/config/file.go: the rules of a validated file.
use remnawave_subpage_proxy.Prelude.{
  ℕ, cons_not_nil, suc, ◌≤◌, ◌≡◌, ◌≢◌, refl, sym, ap, ◌∙◌, inl, inr, Bool, true, false, ◌&&◌, List,
  [], ◌∷◌, ◌++◌, Option, none, some, is_some, if◌then◌else◌, map, arith, Bool-cases, All,
}
use remnawave_subpage_proxy.Prelude.Int.{ℤ, pos, negsuc, is_neg}
use remnawave_subpage_proxy.Prelude.Text.{Bytes, bytes_eq, is_empty, trim_space}
use remnawave_subpage_proxy.Prelude.Text.Laws.{bytes_eq_refl, bytes_eq_iff}
use remnawave_subpage_proxy.Prelude.Text.Case.{Unicode, to_lower, to_upper}
use remnawave_subpage_proxy.Prelude.Assoc.{lookup, lookup-cons}
use remnawave_subpage_proxy.Config.Patterns.{Regexp, Compiled, compile_pattern}
use remnawave_subpage_proxy.Config.File.{Condition, HeaderRule, no_texts, is_unconditional}
use remnawave_subpage_proxy.Config.Validate.{
  FileProblem, remove_and_template, negative_length, regexp_of, agent_error, found_if, outside,
  has_agent, dead_problem, shadow, filled_condition, filled_rule, rule_problems, Checked,
  onto_checked, check_rules,
}

pub append-nothing : {A : Type 0} → (xs ys : List A) → xs ++ ys ≡ [] → (xs ≡ []) × (ys ≡ [])
append-nothing [] ys h = (refl, h)
append-nothing (x ∷ xs) ys h = absurd (cons_not_nil h)

pub not_found : (b : Bool) (p : FileProblem) → found_if b p ≡ [] → b ≡ false
not_found true p h = cc
not_found false p h = refl

-- An integer between 0 and a number.
abbrev pub IsWithin : ℤ → ℕ → Type 0
IsWithin (pos n) top = n ≤ top
IsWithin (negsuc n) top = ⊥

pub inside : (n : ℤ) (top : ℕ) → outside n top ≡ false → IsWithin n top
inside (pos n) top h = ground arith
inside (negsuc n) top h = absurd (ground arith)

module _ (u : Unicode) (compile : Bytes → Option Regexp) where
  -- What a rule of a validated file is.
  pub record IsRule (r : HeaderRule) : Type 0 where
    pub named : is_empty r.name ≡ false
    pub either : r.remove && is_some r.template ≡ false
    pub positive : is_neg r.max_length ≡ false
    pub compiled : has_agent r.when ≡ true → is_some r.when.user_agent_re ≡ true

  -- No rule stands below one for the same header that matches every request.
  abbrev pub AllReachable : List HeaderRule → Type 0
  AllReachable [] = Unit
  AllReachable (r ∷ rs) =
      (is_unconditional r.when ≡ true
        → All (λ (s : HeaderRule). bytes_eq (to_lower u r.name) (to_lower u s.name) ≡ false) rs)
      × AllReachable rs

  abbrev Missed : Bytes → List HeaderRule → Type 0
  Missed key = All (λ (s : HeaderRule). bytes_eq key (to_lower u s.name) ≡ false)

  no_texts-map : (g : Bytes → Bytes) (ss : List Bytes) → no_texts (map g ss) ≡ no_texts ss
  no_texts-map g [] = refl
  no_texts-map g (s ∷ ss) = refl

  filled-unconditional :
      (c : Condition) → is_unconditional (filled_condition u compile c) ≡ is_unconditional c
  unfolding is_unconditional filled_condition
  filled-unconditional c =
      rw
        (
          no_texts-map (λ s. to_lower u (trim_space s)) c.client_types,
          no_texts-map (λ s. to_upper u (trim_space s)) c.user_statuses,
        )
        refl

  agent_compiled :
      (i : ℕ) (name : Bytes) (before : Option Regexp) (c : Compiled Regexp)
      → agent_error i name c ≡ []
      → is_some (regexp_of before c) ≡ true
  agent_compiled i name before (Compiled.compiled re) h = refl
  agent_compiled i name before (Compiled.refused e) h = absurd (cons_not_nil h)

  filled-compiled :
      (i : ℕ) (name : Bytes) (c : Condition)
      → (if has_agent c then agent_error i name (compile_pattern compile c.user_agent) else []) ≡ []
      → has_agent c ≡ true
      → is_some (filled_condition u compile c).user_agent_re ≡ true
  unfolding filled_condition
  filled-compiled i name c h on =
      rw on
        (agent_compiled i name c.user_agent_re (compile_pattern compile c.user_agent) (rw on at h))

  filled-IsRule :
      (i : ℕ) (r : HeaderRule)
      → is_empty (trim_space r.name) ≡ false
      → rule_problems u compile i r ≡ []
      → IsRule (filled_rule u compile r)
  unfolding rule_problems filled_rule has_agent
  filled-IsRule i r named h =
      let name = trim_space r.name in
      let (h1, rest) =
        append-nothing (found_if (r.remove && is_some r.template) (remove_and_template i name)) _
          h in
      let (h2, h3) =
        append-nothing (found_if (is_neg r.max_length) (negative_length i name)) _ rest in
      record {
        named = named;
        either = not_found (r.remove && is_some r.template) _ h1;
        positive = not_found (is_neg r.max_length) _ h2;
        compiled = filled-compiled i name r.when h3;
      }

  not_dead : (i : ℕ) (name : Bytes) (o : Option ℕ) → dead_problem i name o ≡ [] → o ≡ none
  not_dead i name none h = refl
  not_dead i name (some prev) h = absurd (cons_not_nil h)

  missed_name :
      (shadowed : List (Bytes × ℕ)) (key name : Bytes)
      → is_some (lookup key shadowed) ≡ true
      → lookup name shadowed ≡ none
      → bytes_eq key name ≡ false
  missed_name shadowed key name there gone = elim (Bool-cases (bytes_eq key name)) [
    | inl same ↦
        let equal : key ≡ name = (bytes_eq_iff key name).0 same in
        let seen = ap (λ k. is_some (lookup k shadowed)) equal in
        absurd (ground (arith, seen, there, gone))
    | inr apart ↦ apart
  ]

  -- A header that is recorded stays recorded.
  shadow-kept :
      (key other : Bytes) (i : ℕ) (when : Condition) (shadowed : List (Bytes × ℕ))
      → is_some (lookup key shadowed) ≡ true
      → is_some (lookup key (shadow other i when shadowed)) ≡ true
  unfolding shadow
  shadow-kept key other i when shadowed h = elim (Bool-cases (is_some (lookup other shadowed))) [
    | inl there ↦ rw there h
    | inr fresh ↦ elim (Bool-cases (is_unconditional when)) [
      | inl on ↦
          rw (fresh, on, lookup-cons other key i shadowed)
            (elim (Bool-cases (bytes_eq other key)) [
              | inl same ↦ rw same refl
              | inr apart ↦ rw apart h
            ])
      | inr off ↦ rw (fresh, off) h
    ]
  ]

  shadow-new :
      (key : Bytes) (i : ℕ) (when : Condition) (shadowed : List (Bytes × ℕ))
      → is_unconditional when ≡ true
      → is_some (lookup key (shadow key i when shadowed)) ≡ true
  unfolding shadow
  shadow-new key i when shadowed on = elim (Bool-cases (is_some (lookup key shadowed))) [
    | inl there ↦ rw (there, there)
    | inr fresh ↦ rw (fresh, on, lookup-cons key key i shadowed, bytes_eq_refl key) refl
  ]

  record Found (i : ℕ) (shadowed : List (Bytes × ℕ)) (r : HeaderRule) (rs : List HeaderRule)
      : Type 0 where
    named : is_empty (trim_space r.name) ≡ false
    fresh : lookup (to_lower u (trim_space r.name)) shadowed ≡ none
    own : rule_problems u compile i r ≡ []
    rest :
        (check_rules u compile
          (suc i)
          (shadow (to_lower u (trim_space r.name)) i r.when shadowed)
          rs).problems
        ≡ []
    kept :
        (check_rules u compile i shadowed (r ∷ rs)).rules
        ≡ filled_rule u compile r
          ∷ (check_rules u compile
              (suc i)
              (shadow (to_lower u (trim_space r.name)) i r.when shadowed)
              rs).rules

  after : ℕ → List (Bytes × ℕ) → HeaderRule → List HeaderRule → Checked
  after i shadowed r rs =
      check_rules u compile (suc i) (shadow (to_lower u (trim_space r.name)) i r.when shadowed) rs

  check-named :
      (i : ℕ) (shadowed : List (Bytes × ℕ)) (r : HeaderRule) (rs : List HeaderRule)
      → is_empty (trim_space r.name) ≡ false
      → check_rules u compile i shadowed (r ∷ rs)
        ≡ onto_checked
            (filled_rule u compile r)
            (dead_problem i (trim_space r.name) (lookup (to_lower u (trim_space r.name)) shadowed)
              ++ rule_problems u compile i r)
            (after i shadowed r rs)
  unfolding check_rules after
  check-named i shadowed r rs named = rw named refl

  check-unnamed :
      (i : ℕ) (shadowed : List (Bytes × ℕ)) (r : HeaderRule) (rs : List HeaderRule)
      → is_empty (trim_space r.name) ≡ true
      → (check_rules u compile i shadowed (r ∷ rs)).problems ≢ []
  unfolding check_rules
  check-unnamed i shadowed r rs blank h = cons_not_nil (rw blank at h)

  found :
      (i : ℕ) (shadowed : List (Bytes × ℕ)) (r : HeaderRule) (rs : List HeaderRule)
      → (check_rules u compile i shadowed (r ∷ rs)).problems ≡ []
      → Found i shadowed r rs
  unfolding after
  found i shadowed r rs h = elim (Bool-cases (is_empty (trim_space r.name))) [
    | inl blank ↦ absurd (check-unnamed i shadowed r rs blank h)
    | inr named ↦
        let name = trim_space r.name in
        let split = check-named i shadowed r rs named in
        let none_left = sym (ap (λ (c : Checked). c.problems) split) ∙ h in
        let (mine, rest) = append-nothing _ (after i shadowed r rs).problems none_left in
        let (dead, own) =
          append-nothing (dead_problem i name (lookup (to_lower u name) shadowed)) _ mine in
        record {
          named = named;
          fresh = not_dead i name (lookup (to_lower u name) shadowed) dead;
          own = own;
          rest = rest;
          kept = ap (λ (c : Checked). c.rules) split;
        }
  ]

  pub rules-AreRules :
      (i : ℕ) (shadowed : List (Bytes × ℕ)) (rs : List HeaderRule)
      → (check_rules u compile i shadowed rs).problems ≡ []
      → All IsRule (check_rules u compile i shadowed rs).rules
  unfolding check_rules
  rules-AreRules i shadowed [] h = tt
  rules-AreRules i shadowed (r ∷ rs) h =
      let f = found i shadowed r rs h in
      rw f.kept (filled-IsRule i r f.named f.own, rules-AreRules (suc i) _ rs f.rest)

  -- A header that is recorded is missed by the rules below.
  rules-Missed :
      (i : ℕ) (shadowed : List (Bytes × ℕ)) (rs : List HeaderRule) (key : Bytes)
      → (check_rules u compile i shadowed rs).problems ≡ []
      → is_some (lookup key shadowed) ≡ true
      → Missed key (check_rules u compile i shadowed rs).rules
  unfolding check_rules filled_rule
  rules-Missed i shadowed [] key h there = tt
  rules-Missed i shadowed (r ∷ rs) key h there =
      let f = found i shadowed r rs h in
      let apart : bytes_eq key (to_lower u (trim_space r.name)) ≡ false =
        missed_name shadowed key (to_lower u (trim_space r.name)) there f.fresh in
      rw f.kept (
        apart,
        rules-Missed (suc i) _ rs key f.rest
            (shadow-kept key (to_lower u (trim_space r.name)) i r.when shadowed there),
      )

  pub rules-AllReachable :
      (i : ℕ) (shadowed : List (Bytes × ℕ)) (rs : List HeaderRule)
      → (check_rules u compile i shadowed rs).problems ≡ []
      → AllReachable (check_rules u compile i shadowed rs).rules
  unfolding check_rules filled_rule
  rules-AllReachable i shadowed [] h = tt
  rules-AllReachable i shadowed (r ∷ rs) h =
      let f = found i shadowed r rs h in
      rw f.kept (
        (λ on. rules-Missed (suc i) _ rs (to_lower u (trim_space r.name)) f.rest (
            shadow-new (to_lower u (trim_space r.name)) i r.when shadowed
              (sym (filled-unconditional r.when) ∙ on))),
        rules-AllReachable (suc i) _ rs f.rest,
      )
