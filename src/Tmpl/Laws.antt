-- ===== src/Tmpl/Laws.antt =====
-- What the templates of internal/tmpl promise.
use remnawave_subpage_proxy.Prelude.{
  ◌≡◌, refl, sym, ap, ◌∙◌, inl, inr, true, false, List, [], ◌∷◌, ◌++◌, none, arith, All, Bool-cases,
}
use remnawave_subpage_proxy.Prelude.Text.{Bytes, bytes_eq, contains, has_byte}
use remnawave_subpage_proxy.Prelude.Text.Laws.{bytes_eq_iff}
use remnawave_subpage_proxy.Prelude.Text.Case.{Unicode}
use remnawave_subpage_proxy.Tmpl.{
  Placeholder, Piece, literal, hole, pieces, any_hole, add_names, names, Unknown, keep, blank,
  unresolved, Lookup, default_of, parse_modifiers, chosen, render_one, render_pieces, render,
}
use remnawave_subpage_proxy.Tmpl.Pieces.{spell, spell-pieces, pieces_bare}

-- The bytes outside the placeholders.
abbrev pub literals : List Piece → Bytes
literals [] = []
literals (literal c ∷ ps) = c ∷ literals ps
literals (hole p ∷ ps) = literals ps

-- A predicate on every placeholder among the pieces.
abbrev pub AllHoles : (Placeholder → Type 0) → List Piece → Type 0
AllHoles P [] = Unit
AllHoles P (literal c ∷ ps) = AllHoles P ps
AllHoles P (hole p ∷ ps) = P p × AllHoles P ps

All-contains :
    {A : Type 0} (f g : Bytes → A) (ts : List Bytes) (s : Bytes)
    → contains ts s ≡ true
    → All (λ n. f n ≡ g n) ts
    → f s ≡ g s
unfolding contains
All-contains f g [] s h all = cc
All-contains f g (t ∷ ts) s h (first, all) = elim (Bool-cases (bytes_eq t s)) [
  | inl e ↦ let same : t ≡ s = (bytes_eq_iff t s).0 e in rw (← same) first
  | inr n ↦ All-contains f g ts s (ground arith) all
]

All-split :
    {A : Type 0} (f g : Bytes → A) (acc : List Bytes) (n : Bytes)
    → All (λ m. f m ≡ g m) (acc ++ n ∷ [])
    → All (λ m. f m ≡ g m) acc × (f n ≡ g n)
All-split f g [] n (h, _) = (tt, h)
All-split f g (m ∷ acc) n (h, all) = let (x, y) = All-split f g acc n all in ((h, x), y)

All-add_names :
    {A : Type 0} (f g : Bytes → A) (ps : List Piece) (acc : List Bytes)
    → All (λ n. f n ≡ g n) (add_names ps acc)
    → All (λ n. f n ≡ g n) acc × AllHoles (λ p. f p.name ≡ g p.name) ps
unfolding add_names
All-add_names f g [] acc all = (all, tt)
All-add_names f g (literal c ∷ ps) acc all = All-add_names f g ps acc all
All-add_names f g (hole p ∷ ps) acc all = elim (Bool-cases (contains acc p.name)) [
  | inl known ↦
      let (old, later) = All-add_names f g ps acc (rw known at all) in
      (old, (All-contains f g acc p.name known old, later))
  | inr new ↦
      let (old, later) = All-add_names f g ps (acc ++ p.name ∷ []) (rw new at all) in
      let (before, last) = All-split f g acc p.name old in (before, (last, later))
]

module _ (u : Unicode) where
  render_pieces_plain :
      (ps : List Piece) (f : Lookup) (unknown : Unknown)
      → any_hole ps ≡ false
      → render_pieces u ps f unknown ≡ spell ps
  unfolding render_pieces spell any_hole
  render_pieces_plain [] f unknown h = refl
  render_pieces_plain (literal c ∷ ps) f unknown h = ap (◌∷◌ c) (render_pieces_plain ps f unknown h)
  render_pieces_plain (hole p ∷ ps) f unknown h = absurd (ground arith)

  -- The early returns of `Render` return what the rest would.
  pub render-render_pieces :
      (s : Bytes) (f : Lookup) (unknown : Unknown)
      → render u s f unknown ≡ render_pieces u (pieces s) f unknown
  unfolding render pieces
  render-render_pieces s f unknown = elim (Bool-cases (has_byte b'{' s)) [
    | inr bare ↦
        rw bare
          (sym (render_pieces_plain (pieces s) f unknown (pieces_bare s bare) ∙ spell-pieces s))
    | inl braced ↦ rw braced (elim (Bool-cases (any_hole (pieces s))) [
      | inr no_hole ↦
          rw no_hole (sym (render_pieces_plain (pieces s) f unknown no_hole ∙ spell-pieces s))
      | inl some_hole ↦ rw some_hole refl
    ])
  ]

  render_one-agrees :
      (p : Placeholder) (f g : Lookup) (unknown : Unknown)
      → f p.name ≡ g p.name
      → render_one u p f unknown ≡ render_one u p g unknown
  unfolding render_one
  render_one-agrees p f g unknown h = rw (h, render_one)

  render_pieces-agrees :
      (ps : List Piece) (f g : Lookup) (unknown : Unknown)
      → AllHoles (λ p. f p.name ≡ g p.name) ps
      → render_pieces u ps f unknown ≡ render_pieces u ps g unknown
  unfolding render_pieces
  render_pieces-agrees [] f g unknown h = refl
  render_pieces-agrees (literal c ∷ ps) f g unknown h =
      ap (◌∷◌ c) (render_pieces-agrees ps f g unknown h)
  render_pieces-agrees (hole p ∷ ps) f g unknown (hp, h) =
      rw (render_one-agrees p f g unknown hp, render_pieces-agrees ps f g unknown h)

  -- What a template renders to depends on the values of its `Names` alone: two lookups that agree on
  -- them render it alike.
  pub render-agrees :
      (s : Bytes) (f g : Lookup) (unknown : Unknown)
      → All (λ n. f n ≡ g n) (names s)
      → render u s f unknown ≡ render u s g unknown
  unfolding render names
  render-agrees s f g unknown h = elim (Bool-cases (has_byte b'{' s)) [
    | inr none_here ↦ rw none_here
    | inl braced ↦
        let agreed = (All-add_names f g (pieces s) [] (rw braced at h)).1 in
        rw (braced, render_pieces-agrees (pieces s) f g unknown agreed)
  ]

  -- A placeholder with no default among its modifiers.
  abbrev pub HasNoDefault : Placeholder → Type 0
  HasNoDefault p = default_of (parse_modifiers u p.spec) ≡ none

  render_one-unresolved :
      (p : Placeholder) (unknown : Unknown)
      → HasNoDefault p
      → render_one u p (λ _. none) unknown ≡ unresolved u unknown p.text
  unfolding render_one
  render_one-unresolved p unknown h = rw (h, render_one)

  pub render_pieces_keep :
      (ps : List Piece) → AllHoles HasNoDefault ps → render_pieces u ps (λ _. none) keep ≡ spell ps
  unfolding render_pieces spell chosen
  render_pieces_keep [] h = refl
  render_pieces_keep (literal c ∷ ps) h = ap (◌∷◌ c) (render_pieces_keep ps h)
  render_pieces_keep (hole p ∷ ps) (hp, h) =
      rw (render_one-unresolved p keep hp, render_pieces_keep ps h)

  pub render_pieces_blank :
      (ps : List Piece)
      → AllHoles HasNoDefault ps
      → render_pieces u ps (λ _. none) blank ≡ literals ps
  unfolding render_pieces chosen
  render_pieces_blank [] h = refl
  render_pieces_blank (literal c ∷ ps) h = ap (◌∷◌ c) (render_pieces_blank ps h)
  render_pieces_blank (hole p ∷ ps) (hp, h) =
      rw (render_one-unresolved p blank hp, render_pieces_blank ps h)

  -- While no value is known, a template without defaults is left as it stands under the policy that
  -- keeps what is unknown; under the one that blanks it, the bytes outside the placeholders are left.
  pub render_unresolved :
      (s : Bytes)
      → AllHoles HasNoDefault (pieces s)
      → (render u s (λ _. none) keep ≡ s) × (render u s (λ _. none) blank ≡ literals (pieces s))
  render_unresolved s h = (
    render-render_pieces s (λ _. none) keep ∙ render_pieces_keep (pieces s) h ∙ spell-pieces s,
    render-render_pieces s (λ _. none) blank ∙ render_pieces_blank (pieces s) h,
  )
