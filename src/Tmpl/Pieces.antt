-- ===== src/Tmpl/Pieces.antt =====
-- The scanner of internal/tmpl: a text is put together again from what it was cut into.
use remnawave_subpage_proxy.Prelude.{
  ℕ, zero, suc, ◌-◌, ◌≡◌, ◌≢◌, refl, sym, ap, ◌∙◌, inl, inr, Bool, true, false, not, ◌&&◌, List, [],
  ◌∷◌, ◌++◌, some, arith, ◌==◌, length, drop, Bool-cases, Option-cases,
}
use mathlib.Core.List.{append_assoc}
use remnawave_subpage_proxy.Prelude.Text.{Bytes, has_byte}
use remnawave_subpage_proxy.Tmpl.{
  is_name_byte, is_brace, span, Placeholder, placeholder, starts_upper, starts_with, match_spec,
  match_front, Piece, literal, hole, pieces_from, pieces, any_hole,
}

span-append : (p : ℕ → Bool) (s : Bytes) → (span p s).0 ++ (span p s).1 ≡ s
unfolding span
span-append p [] = refl
span-append p (c ∷ s) = elim (Bool-cases (p c)) [
  | inl e ↦ rw e (ap (◌∷◌ c) (span-append p s))
  | inr n ↦ rw n
]

placeholder_text :
    (name spec r : Bytes) → (placeholder name spec).text ++ r ≡ b'{' ∷ (name ++ (spec ++ b'}' ∷ r))
placeholder_text name spec r = simp append_assoc

barred_text :
    (name s body rest : Bytes)
    → body ++ rest ≡ s
    → starts_with b'}' rest ≡ true
    → (r : Bytes) × (b'{' ∷ (name ++ b'|' ∷ s) ≡ (placeholder name (b'|' ∷ body)).text ++ r)
barred_text name s body [] e h = cc
barred_text name s body (c ∷ r) e h =
    let same : c ≡ b'}' = ground arith in
    (
      r,
      rw placeholder_text
          (ap (λ t. b'{' ∷ (name ++ b'|' ∷ t)) (sym e ∙ ap (λ (b : ℕ). body ++ b ∷ r) same)),
    )

match_spec_sound :
    (name s : Bytes) (p : Placeholder)
    → match_spec name s ≡ some p
    → (r : Bytes) × (b'{' ∷ (name ++ s) ≡ p.text ++ r) × (p.text ≢ [])
unfolding match_spec
match_spec_sound name [] p h = cc
match_spec_sound name (c ∷ s) p h =
    let body = (span (λ b. not (is_brace b)) s).0 in
    let rest = (span (λ b. not (is_brace b)) s).1 in
    elim (Bool-cases (c == b'}')) [
      | inl closed ↦
          let same : c ≡ b'}' = ground arith in
          let found : placeholder name [] ≡ p = ground arith in
          (
            s,
            rw (← found) (rw placeholder_text (ap (λ (b : ℕ). b'{' ∷ (name ++ b ∷ s)) same)),
            rw (← found) (cc),
          )
      | inr goes_on ↦ elim (Bool-cases (c == b'|' && starts_with b'}' rest)) [
        | inl barred ↦
            let same : c ≡ b'|' = ground arith in
            let found : placeholder name (b'|' ∷ body) ≡ p = ground arith in
            let ends : starts_with b'}' rest ≡ true = ground arith in
            let (r, e) =
              barred_text name s body rest (span-append (λ b. not (is_brace b)) s) ends in
            (
              r,
              ap (λ (b : ℕ). b'{' ∷ (name ++ b ∷ s)) same
                  ∙ e
                  ∙ ap (λ (q : Placeholder). q.text ++ r) found,
              rw (← found) (cc),
            )
        | inr other ↦ absurd (ground arith)
      ]
    ]

match_front_sound :
    (s : Bytes) (p : Placeholder)
    → match_front s ≡ some p
    → (r : Bytes) × (s ≡ p.text ++ r) × (p.text ≢ [])
unfolding match_front
match_front_sound [] p h = cc
match_front_sound (c ∷ s) p h =
    let name = (span is_name_byte s).0 in
    let rest = (span is_name_byte s).1 in
    elim (Bool-cases (c == b'{' && starts_upper name)) [
      | inl begins ↦
          let same : c ≡ b'{' = ground arith in
          let found : match_spec name rest ≡ some p = ground arith in
          let (r, e, filled) = match_spec_sound name rest p found in
          (
            r,
            ap (λ (b : ℕ). b ∷ s) same ∙ ap (◌∷◌ b'{') (sym (span-append is_name_byte s)) ∙ e,
            filled,
          )
      | inr no_match ↦ absurd (ground arith)
    ]

-- The text that pieces were cut from.
unfoldable pub spell : List Piece → Bytes
spell [] = []
spell (literal c ∷ ps) = c ∷ spell ps
spell (hole p ∷ ps) = p.text ++ spell ps

drop-text : (c : ℕ) (s t r : Bytes) → c ∷ s ≡ t ++ r → t ≢ [] → t ++ drop (length t - 1) s ≡ c ∷ s
drop-text c s [] r e h = absurd (h refl)
drop-text c s (d ∷ t) r e h =
    let tail : s ≡ t ++ r = ground arith in
    let len : length (d ∷ t) - 1 ≡ length t = omega arith in
    rw (len, tail, drop-append t r) (sym e ∙ ap (◌∷◌ c) tail)
  where
    drop-append : (t r : Bytes) → drop (length t) (t ++ r) ≡ r
    drop-append [] r = refl
    drop-append (d ∷ t) r = drop-append t r

spell-pieces_from : (k : ℕ) (s : Bytes) → spell (pieces_from k s) ≡ drop k s
unfolding spell pieces_from
spell-pieces_from zero [] = refl
spell-pieces_from (suc k) [] = refl
spell-pieces_from (suc k) (c ∷ s) = spell-pieces_from k s
spell-pieces_from zero (c ∷ s) = elim (Option-cases (match_front (c ∷ s))) [
  | inl missed ↦ rw (missed, pieces_from) (ap (◌∷◌ c) (spell-pieces_from zero s))
  | inr (p, found) ↦
      let (r, e, filled) = match_front_sound (c ∷ s) p found in
      rw (found, pieces_from, spell-pieces_from (length p.text - 1) s)
        (drop-text c s p.text r e filled)
]

pub spell-pieces : (s : Bytes) → spell (pieces s) ≡ s
unfolding pieces
spell-pieces s = spell-pieces_from 0 s

-- A text without an opening brace has no placeholder.
pub pieces_bare : (s : Bytes) → has_byte b'{' s ≡ false → any_hole (pieces_from 0 s) ≡ false
unfolding pieces_from match_front has_byte any_hole
pieces_bare [] h = refl
pieces_bare (c ∷ s) h =
    let plain : (c == b'{') ≡ false = ground arith in
    let later = pieces_bare s (ground arith) in rw (pieces_from, plain) later
