-- ===== src/Rewrite/Engine/Frame.antt =====
-- What `Apply` of internal/rewrite/engine.go writes, and what it leaves alone.
use remnawave_subpage_proxy.Prelude.{
  ◌≡◌, refl, ap, ◌∙◌, inl, inr, true, false, not, ◌&&◌, ◌||◌, ◌⊎◌, List, [], ◌∷◌, ◌++◌, Option,
  none, some, is_some, if◌then◌else◌, All, Bool-cases, arith,
}
use remnawave_subpage_proxy.Prelude.Int.{ℤ}
use remnawave_subpage_proxy.Prelude.Text.{Bytes, bytes_eq, is_empty, contains}
use remnawave_subpage_proxy.Prelude.Text.Laws.{bytes_eq_iff, bytes_eq_refl}
use remnawave_subpage_proxy.Prelude.Text.Case.{Unicode}
use remnawave_subpage_proxy.Prelude.Assoc.{
  lookup, remove, lookup-cons, lookup-remove_ne, lookup-remove_self, remove-IsMap, IsMap,
}
use remnawave_subpage_proxy.Panel.Info.{Info}
use remnawave_subpage_proxy.Subinfo.UserInfo.{UserInfo, user_info_header}
use remnawave_subpage_proxy.Subinfo.Floats.{Platform}
use remnawave_subpage_proxy.Tmpl.{Lookup}
use remnawave_subpage_proxy.B64.{Base64}
use remnawave_subpage_proxy.Rewrite.Header.{Header, canonical, set, del}
use remnawave_subpage_proxy.Rewrite.Engine.{Request, Engine, Candidate, collect}
use remnawave_subpage_proxy.Rewrite.Engine.Loop.{
  apply_loop, apply_candidates, apply_with, apply, forced, holds, write, written_value,
  user_info_from,
}

pub lookup-set_ne :
    (h : Header) (name value key : Bytes)
    → bytes_eq (canonical name) key ≡ false
    → lookup key (set h name value) ≡ lookup key h
unfolding set
lookup-set_ne h name value key n =
    lookup-cons (canonical name) key (value ∷ []) (remove (canonical name) h)
    ∙ rw n (lookup-remove_ne (canonical name) key h n)

pub lookup-set_self :
    (h : Header) (name value : Bytes)
    → lookup (canonical name) (set h name value) ≡ some (value ∷ [])
unfolding set
lookup-set_self h name value =
    lookup-cons (canonical name) (canonical name) (value ∷ []) (remove (canonical name) h)
    ∙ rw (bytes_eq_refl (canonical name))

-- A key that is not the canonical name of a candidate.
abbrev pub Avoids : Bytes → List Candidate → Type 0
Avoids key = All (λ (c : Candidate). bytes_eq (canonical c.name) key ≡ false)

contains-head : (k : Bytes) (done : List Bytes) → contains (k ∷ done) k ≡ true
unfolding contains
contains-head k done = rw (bytes_eq_refl k)

contains-cons :
    (k : Bytes) (done : List Bytes) (key : Bytes)
    → contains done key ≡ true
    → contains (k ∷ done) key ≡ true
unfolding contains
contains-cons k done key d = ground arith

contains-cons_ne :
    (k : Bytes) (done : List Bytes) (key : Bytes)
    → bytes_eq k key ≡ false
    → contains done key ≡ false
    → contains (k ∷ done) key ≡ false
unfolding contains
contains-cons_ne k done key n d = rw (n, d)

contains-apart :
    (done : List Bytes) (k key : Bytes)
    → contains done k ≡ false
    → contains done key ≡ true
    → bytes_eq k key ≡ false
contains-apart done k key absent present = elim (Bool-cases (bytes_eq k key)) [
  | inl e ↦
      let same : contains done k ≡ contains done key =
        ap (contains done) ((bytes_eq_iff k key).0 e) in
      cc
  | inr n ↦ n
]

module _ (u : Unicode) (b : Base64) (p : Platform) where
  write_ne :
      (e : Engine) (base : Lookup) (c : Candidate) (h : Header) (key : Bytes)
      → bytes_eq (canonical c.name) key ≡ false
      → lookup key (write u b p e base c h) ≡ lookup key h
  unfolding write del
  write_ne e base c h key n = elim (Bool-cases c.remove) [
    | inl gone ↦ rw gone (lookup-remove_ne (canonical c.name) key h n)
    | inr kept ↦ rw kept (lookup-set_ne h c.name _ key n)
  ]

  module _ (e : Engine) (base : Lookup) (info : Option Info) (limit : Option ℤ) where
    apply_loop-Avoids :
        (cs : List Candidate) (done : List Bytes) (h : Header) (key : Bytes)
        → Avoids key cs
        → lookup key (apply_loop u b p e base info limit cs done h) ≡ lookup key h
    unfolding apply_loop
    apply_loop-Avoids [] done h key a = refl
    apply_loop-Avoids (c ∷ cs) done h key (n, a) =
        elim (Bool-cases (contains done (canonical c.name) || not (holds u b p info limit c))) [
          | inl skipped ↦ rw skipped (apply_loop-Avoids cs done h key a)
          | inr taken ↦ rw taken (
              apply_loop-Avoids cs (canonical c.name ∷ done) (write u b p e base c h) key a
              ∙ write_ne e base c h key n)
        ]

    -- A key that is written stays as it is.
    apply_loop-done :
        (cs : List Candidate) (done : List Bytes) (h : Header) (key : Bytes)
        → contains done key ≡ true
        → lookup key (apply_loop u b p e base info limit cs done h) ≡ lookup key h
    unfolding apply_loop
    apply_loop-done [] done h key d = refl
    apply_loop-done (c ∷ cs) done h key d =
        elim (Bool-cases (contains done (canonical c.name) || not (holds u b p info limit c))) [
          | inl skipped ↦ rw skipped (apply_loop-done cs done h key d)
          | inr taken ↦
              let fresh : contains done (canonical c.name) ≡ false = ground arith in
              let apart = contains-apart done (canonical c.name) key fresh d in
              rw taken (
                apply_loop-done cs (canonical c.name ∷ done) (write u b p e base c h) key
                  (contains-cons (canonical c.name) done key d)
                ∙ write_ne e base c h key apart)
        ]

    -- What a candidate leaves under its key.
    abbrev pub outcome : Candidate → Option (List Bytes)
    outcome c = if c.remove then none else some (written_value u b p e base c ∷ [])

    write_self :
        (c : Candidate) (h : Header)
        → IsMap h
        → lookup (canonical c.name) (write u b p e base c h) ≡ outcome c
    unfolding write del
    write_self c h m = elim (Bool-cases c.remove) [
      | inl gone ↦ rw gone (lookup-remove_self (canonical c.name) h m)
      | inr kept ↦ rw kept (lookup-set_self h c.name _)
    ]

    write-IsMap : (c : Candidate) (h : Header) → IsMap h → IsMap (write u b p e base c h)
    unfolding write del set
    write-IsMap c h m = elim (Bool-cases c.remove) [
      | inl gone ↦ rw gone (remove-IsMap (canonical c.name) h m)
      | inr kept ↦
          rw kept (lookup-remove_self (canonical c.name) h m, remove-IsMap (canonical c.name) h m)
    ]

    -- A candidate for another key, or one whose conditions fail.
    abbrev pub Yields : Bytes → Candidate → Type 0
    Yields key c = (bytes_eq (canonical c.name) key ≡ false) ⊎ (holds u b p info limit c ≡ false)

    -- The first candidate of a header whose conditions hold decides it: whatever stands behind it,
    -- the header ends up as that candidate writes it, or removed.
    pub apply_loop-first :
        (before : List Candidate) (c : Candidate) (after : List Candidate) (done : List Bytes)
        (h : Header)
        → IsMap h
        → contains done (canonical c.name) ≡ false
        → All (Yields (canonical c.name)) before
        → holds u b p info limit c ≡ true
        → lookup
            (canonical c.name)
            (apply_loop u b p e base info limit (before ++ c ∷ after) done h)
          ≡ outcome c
    unfolding apply_loop
    apply_loop-first [] c after done h m fresh yields ok =
        rw (fresh, ok)
          (apply_loop-done after (canonical c.name ∷ done) (write u b p e base c h)
              (canonical c.name) (contains-head (canonical c.name) done)
            ∙ write_self c h m)
    apply_loop-first (d ∷ before) c after done h m fresh (y, yields) ok =
        elim (Bool-cases (contains done (canonical d.name) || not (holds u b p info limit d))) [
          | inl skipped ↦ rw skipped (apply_loop-first before c after done h m fresh yields ok)
          | inr taken ↦
              let apart : bytes_eq (canonical d.name) (canonical c.name) ≡ false = ground arith in
              rw taken (
                apply_loop-first before c after (canonical d.name ∷ done) (write u b p e base d h)
                  (write-IsMap d h m)
                  (contains-cons_ne (canonical d.name) done (canonical c.name) apart fresh) yields
                  ok)
        ]

  apply_candidates-Avoids :
      (e : Engine) (rq : Request) (i : Option UserInfo) (cs : List Candidate) (h : Header)
      (key : Bytes)
      → Avoids key cs
      → lookup key (apply_candidates u b p e rq i cs h).header ≡ lookup key h
  unfolding apply_candidates
  apply_candidates-Avoids e rq i [] h key a = refl
  apply_candidates-Avoids e rq i (c ∷ cs) h key a = apply_loop-Avoids e _ _ _ (c ∷ cs) [] h key a

  forced_ne :
      (e : Engine) (i : Option UserInfo) (h : Header) (key : Bytes)
      → bytes_eq (canonical user_info_header) key ≡ false
      → lookup key (forced u b p e i h) ≡ lookup key h
  unfolding forced
  forced_ne e none h key n = refl
  forced_ne e (some i) h key n = elim (Bool-cases e.force_unlimited) [
    | inl on ↦ rw on (lookup-set_ne h user_info_header _ key n)
    | inr off ↦ rw off
  ]

  module _ (order : Header → Header) where
    apply_with-Avoids :
        (e : Engine) (rq : Request) (i : Option UserInfo) (h : Header) (key : Bytes)
        → bytes_eq (canonical user_info_header) key ≡ false
        → Avoids key (collect u b p order e (forced u b p e i h) rq)
        → lookup key (apply_with u b p order e rq i h).header ≡ lookup key h
    unfolding apply_with
    apply_with-Avoids e rq i h key n a =
        elim (Bool-cases (is_empty rq.short_uuid && not (is_some i))) [
          | inl idle ↦ rw idle
          | inr busy ↦ rw busy (
              apply_candidates-Avoids e rq i (collect u b p order e (forced u b p e i h) rq)
                (forced u b p e i h) key a
              ∙ forced_ne e i h key n)
        ]

    -- `Apply` changes no header but `subscription-userinfo` and those that it collects a candidate
    -- for.
    pub apply-Avoids :
        (e : Engine) (rq : Request) (h : Header) (key : Bytes)
        → bytes_eq (canonical user_info_header) key ≡ false
        → Avoids key (collect u b p order e (forced u b p e (user_info_from u b p h) h) rq)
        → lookup key (apply u b p order e rq h).header ≡ lookup key h
    unfolding apply
    apply-Avoids e rq h key n a = apply_with-Avoids e rq (user_info_from u b p h) h key n a
