-- ===== src/Panel/Cache/Flight/Single.antt =====
-- The single flight of internal/panel/cache.go: one call at a time for each short UUID.
use remnawave_subpage_proxy.Prelude.{ℕ, ◌≡◌, sym, ap, inl, inr, some, Option-cases}
use remnawave_subpage_proxy.Prelude.Text.{Bytes}
use remnawave_subpage_proxy.Prelude.Assoc.{lookup}
use remnawave_subpage_proxy.Panel.Cache.{Answer, KeptEntries, Cache, cached}
use remnawave_subpage_proxy.Panel.Cache.Flight.Laws.{
  led, IsFlight, update-IsFlight, lead-IsFlight, publish-IsFlight,
}
use remnawave_subpage_proxy.Panel.Cache.Flight.{
  asked, missed, World, first_look, second_look, publish, Step, arrive, look, enter, give, leave,
  close, wake, hang_up, Reach, here, next, start,
}

module _ (order : KeptEntries → KeptEntries) (Gives : Bytes → Answer → Type 0) where
  abbrev pub Flies : World → Type 0
  Flies w = IsFlight w.in_flight w.threads

  first_look-IsFlight :
      (w : World) (now i : ℕ) (k : Bytes)
      → w.threads i ≡ asked k
      → Flies w
      → Flies (first_look now i k w)
  unfolding first_look
  first_look-IsFlight w now i k at_start f = elim (Option-cases (cached now k w.cache)) [
    | inl none_kept ↦
        rw (first_look, none_kept)
          (update-IsFlight i _ w.in_flight w.threads (sym (ap led at_start)) f)
    | inr (a, kept) ↦
        rw (first_look, kept) (update-IsFlight i _ w.in_flight w.threads (sym (ap led at_start)) f)
  ]

  second_look-IsFlight :
      (w : World) (now i : ℕ) (k : Bytes)
      → w.threads i ≡ missed k
      → Flies w
      → Flies (second_look now i k w)
  unfolding second_look
  second_look-IsFlight w now i k at_lock f = elim (Option-cases (cached now k w.cache)) [
    | inr (a, kept) ↦
        rw (second_look, kept) (update-IsFlight i _ w.in_flight w.threads (sym (ap led at_lock)) f)
    | inl none_kept ↦ elim (Option-cases (lookup k w.in_flight)) [
      | inr (j, flying) ↦
          rw (second_look, none_kept, flying)
            (update-IsFlight i _ w.in_flight w.threads (sym (ap led at_lock)) f)
      | inl free ↦
          rw (second_look, none_kept, free)
            (lead-IsFlight i k w.in_flight w.threads free (ap led at_lock) f)
    ]
  ]

  pub Step-IsFlight : {w v : World} → Step order Gives w v → Flies w → Flies v
  unfolding publish
  Step-IsFlight (arrive i k e) f = update-IsFlight i _ _ _ (sym (ap led e)) f
  Step-IsFlight (look now i k e) f = first_look-IsFlight _ now i k e f
  Step-IsFlight (enter now i k e) f = second_look-IsFlight _ now i k e f
  Step-IsFlight (give i k a e g) f = update-IsFlight i _ _ _ (sym (ap led e)) f
  Step-IsFlight (leave now i k a e) f = publish-IsFlight i k a _ _ (ap led e) f
  Step-IsFlight (close i k a e) f = update-IsFlight i _ _ _ (sym (ap led e)) f
  Step-IsFlight (wake i j k l a e r) f = update-IsFlight i _ _ _ (sym (ap led e)) f
  Step-IsFlight (hang_up i j k e) f = update-IsFlight i _ _ _ (sym (ap led e)) f

  Reach-IsFlight : {w v : World} → Flies w → Reach order Gives w v → Flies v
  Reach-IsFlight f here = f
  Reach-IsFlight f (next r s) = Step-IsFlight s (Reach-IsFlight f r)

  pub start-IsFlight : (c : Cache) → Flies (start c)
  unfolding lookup
  start-IsFlight c = record { single = λ i k h. cc; flying = λ k i h. cc; distinct = tt }

  -- However the steps of the requests interleave, at most one of them has a call to the panel open
  -- for a short UUID.
  pub single_flight :
      (c : Cache) (w : World) (i j : ℕ) (k : Bytes)
      → Reach order Gives (start c) w
      → led (w.threads i) ≡ some k
      → led (w.threads j) ≡ some k
      → i ≡ j
  single_flight c w i j k r hi hj =
      let f = Reach-IsFlight (start-IsFlight c) r in
      let first = f.single i k hi in let second = f.single j k hj in cc
