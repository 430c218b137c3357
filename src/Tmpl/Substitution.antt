-- ===== src/Tmpl/Substitution.antt =====
-- internal/tmpl: what `Render` makes of a placeholder and of the text around it.
use remnawave_subpage_proxy.Prelude.{
  ℕ, ◌-◌, ◌≡◌, refl, sym, ap, ◌∙◌, Bool, true, false, [], ◌∷◌, ◌++◌, some, arith, ◌==◌, length, All,
}
use mathlib.Core.List.{append_assoc}
use remnawave_subpage_proxy.Prelude.Text.{Bytes, has_byte}
use remnawave_subpage_proxy.Prelude.Text.Case.{Unicode}
use remnawave_subpage_proxy.Tmpl.{
  is_name_byte, span, placeholder, starts_upper, match_spec, match_front, pieces_from, pieces,
  Unknown, Lookup, default_of, parse_modifiers, apply_modifiers, chosen, render_one, render_pieces,
  render,
}
use remnawave_subpage_proxy.Tmpl.Laws.{render-render_pieces}

span-All :
    (p : ℕ → Bool) (c : ℕ) (name s : Bytes)
    → All (λ b. p b ≡ true) name
    → p c ≡ false
    → span p (name ++ c ∷ s) ≡ (name, c ∷ s)
unfolding span
span-All p c [] s h stop = rw stop refl
span-All p c (b ∷ name) s (here, h) stop = rw (here, span-All p c name s h stop) refl

match_bare :
    (name s : Bytes)
    → All (λ b. is_name_byte b ≡ true) name
    → starts_upper name ≡ true
    → match_front (b'{' ∷ (name ++ b'}' ∷ s)) ≡ some (placeholder name [])
unfolding match_front match_spec
match_bare name s h upper = rw (span-All is_name_byte b'}' name s h refl, upper) refl

pieces_skip : (t s : Bytes) → pieces_from (length t) (t ++ s) ≡ pieces_from 0 s
unfolding pieces_from
pieces_skip [] s = refl
pieces_skip (c ∷ t) s = pieces_skip t s

text_width : (name : Bytes) → length (placeholder name []).text - 1 ≡ length (name ++ b'}' ∷ [])
text_width name = omega arith

module _ (u : Unicode) (f : Lookup) (unknown : Unknown) where
  render_behind :
      (front s : Bytes)
      → has_byte b'{' front ≡ false
      → render_pieces u (pieces_from 0 (front ++ s)) f unknown
        ≡ front ++ render_pieces u (pieces_from 0 s) f unknown
  unfolding pieces_from match_front has_byte render_pieces
  render_behind [] s h = refl
  render_behind (c ∷ front) s h =
      let plain : (c == b'{') ≡ false = ground arith in
      let rest = render_behind front s (ground arith) in rw (pieces_from, plain) (ap (◌∷◌ c) rest)

  render_known :
      (name value : Bytes)
      → f name ≡ some value
      → render_one u (placeholder name []) f unknown ≡ value
  unfolding render_one chosen parse_modifiers default_of apply_modifiers
  render_known name [] known = rw (known, render_one) refl
  render_known name (c ∷ value) known = rw (known, render_one) refl

  render_hole :
      (name value s : Bytes)
      → All (λ b. is_name_byte b ≡ true) name
      → starts_upper name ≡ true
      → f name ≡ some value
      → render_pieces u (pieces_from 0 (b'{' ∷ (name ++ b'}' ∷ s))) f unknown
        ≡ value ++ render_pieces u (pieces_from 0 s) f unknown
  unfolding pieces_from render_pieces
  render_hole name value s h upper known =
      let skipped : pieces_from (length (placeholder name []).text - 1) (name ++ b'}' ∷ s)
          ≡ pieces_from 0 s =
        ap (λ k. pieces_from k (name ++ b'}' ∷ s)) (text_width name)
        ∙ ap (pieces_from (length (name ++ b'}' ∷ []))) (sym (append_assoc name (b'}' ∷ []) s))
        ∙ pieces_skip (name ++ b'}' ∷ []) s in
      rw (match_bare name s h upper, pieces_from, render_known name value known, skipped) refl

  -- `Render` puts the value in the place of a placeholder without modifiers whose name is known, keeps
  -- the text before it, which has no opening brace, byte by byte, and goes on behind it.
  pub render_substitutes :
      (front name value s : Bytes)
      → has_byte b'{' front ≡ false
      → All (λ b. is_name_byte b ≡ true) name
      → starts_upper name ≡ true
      → f name ≡ some value
      → render u (front ++ b'{' ∷ (name ++ b'}' ∷ s)) f unknown
        ≡ front ++ (value ++ render u s f unknown)
  unfolding pieces
  render_substitutes front name value s plain h upper known =
      render-render_pieces u _ f unknown
      ∙ render_behind front (b'{' ∷ (name ++ b'}' ∷ s)) plain
      ∙ ap (λ t. front ++ t)
          (render_hole name value s h upper known
            ∙ ap (λ t. value ++ t) (sym (render-render_pieces u s f unknown)))
