-- ===== src/Panel/Cache/Flight/Answers.antt =====
-- internal/panel/cache.go: a request gets only what the panel answered for its own short UUID.
use remnawave_subpage_proxy.Prelude.{
  none_not_some, ℕ, ◌≡◌, refl, sym, ap, inl, inr, some, Option-cases,
}
use remnawave_subpage_proxy.Prelude.Text.{Bytes}
use remnawave_subpage_proxy.Prelude.Assoc.{lookup}
use remnawave_subpage_proxy.Panel.Cache.{Answer, KeptEntries, Cache, cached}
use remnawave_subpage_proxy.Panel.Cache.Flight.{
  Thread, asked, missed, waiting, fetching, fetched, returned, gave_up, Threads, World, first_look,
  second_look, publish, Step, arrive, look, enter, give, leave, close, wake, hang_up, Reach, here,
  next, start,
}
use remnawave_subpage_proxy.Panel.Cache.Flight.Laws.{led, IsFlight}
use remnawave_subpage_proxy.Panel.Cache.Flight.Single.{Step-IsFlight, start-IsFlight}
use remnawave_subpage_proxy.Panel.Cache.Flight.Served.{
  called, result, awaited, IsServed, update-IsServed, IsTrue, cached-IsTrue, store-IsTrue, hold,
  move, carry, await,
}

module _ (Gives : Bytes → Answer → Type 0) where
  -- The world in which requests get what is theirs.
  pub record IsFair (w : World) : Type 0 where
    pub flight : IsFlight w.in_flight w.threads
    pub served : IsServed Gives w.threads
    pub true_cache : IsTrue Gives w.cache

  called-led : (t : Thread) (k : Bytes) → led t ≡ some k → called t ≡ some k
  called-led (fetching _) k h = h
  called-led (fetched _ _) k h = h
  called-led _ k h = cc

  first_look-IsServed :
      (w : World) (now i : ℕ) (k : Bytes)
      → w.threads i ≡ asked k
      → IsFair w
      → IsServed Gives (first_look now i k w).threads
  unfolding first_look
  first_look-IsServed w now i k e f = elim (Option-cases (cached now k w.cache)) [
    | inl none_kept ↦
        rw (first_look, none_kept)
          (update-IsServed Gives w.threads i (missed k)
            (move Gives w.threads i (missed k) (ap called e) refl refl) f.served)
    | inr (a, kept) ↦
        rw (first_look, kept)
          (update-IsServed Gives w.threads i (returned k a)
            (hold Gives w.threads i k a (ap called e)
              (cached-IsTrue Gives w.cache now k a f.true_cache kept))
            f.served)
  ]

  second_look-IsServed :
      (w : World) (now i : ℕ) (k : Bytes)
      → w.threads i ≡ missed k
      → IsFair w
      → IsServed Gives (second_look now i k w).threads
  unfolding second_look
  second_look-IsServed w now i k e f = elim (Option-cases (cached now k w.cache)) [
    | inr (a, kept) ↦
        rw (second_look, kept)
          (update-IsServed Gives w.threads i (returned k a)
            (hold Gives w.threads i k a (ap called e)
              (cached-IsTrue Gives w.cache now k a f.true_cache kept))
            f.served)
    | inl none_kept ↦ elim (Option-cases (lookup k w.in_flight)) [
      | inr (j, flying) ↦
          rw (second_look, none_kept, flying)
            (update-IsServed Gives w.threads i (waiting k j)
              (await Gives w.threads i k j (ap called e)
                (called-led (w.threads j) k (f.flight.flying k j flying)))
              f.served)
      | inl free ↦
          rw (second_look, none_kept, free)
            (update-IsServed Gives w.threads i (fetching k)
              (move Gives w.threads i (fetching k) (ap called e) refl refl) f.served)
    ]
  ]

  look_cache : (w : World) (now i : ℕ) (k : Bytes) → (first_look now i k w).cache ≡ w.cache
  unfolding first_look
  look_cache w now i k = elim (Option-cases (cached now k w.cache)) [
    | inl none_kept ↦ rw (first_look, none_kept)
    | inr (a, kept) ↦ rw (first_look, kept)
  ]

  enter_cache : (w : World) (now i : ℕ) (k : Bytes) → (second_look now i k w).cache ≡ w.cache
  unfolding second_look
  enter_cache w now i k = elim (Option-cases (cached now k w.cache)) [
    | inr (a, kept) ↦ rw (second_look, kept)
    | inl none_kept ↦ elim (Option-cases (lookup k w.in_flight)) [
      | inr (j, flying) ↦ rw (second_look, none_kept, flying)
      | inl free ↦ rw (second_look, none_kept, free)
    ]
  ]

  awoken :
      (threads : Threads) (i j : ℕ) (k l : Bytes) (a : Answer)
      → threads i ≡ waiting k j
      → threads j ≡ returned l a
      → IsServed Gives threads
      → Gives k a
  awoken threads i j k l a e r s =
      let mine = s.waits i k j (ap awaited e) in
      let theirs = ap called r in
      let same : l ≡ k = cc in rw (sym same) (s.given j l a (ap result r))

  module _ (order : KeptEntries → KeptEntries) where
    Step-IsServed : {w v : World} → Step order Gives w v → IsFair w → IsServed Gives v.threads
    unfolding publish
    Step-IsServed (arrive i k e) f =
        update-IsServed Gives _ i (asked k) (move Gives _ i _ (ap called e) refl refl) f.served
    Step-IsServed (look now i k e) f = first_look-IsServed _ now i k e f
    Step-IsServed (enter now i k e) f = second_look-IsServed _ now i k e f
    Step-IsServed (give i k a e g) f =
        update-IsServed Gives _ i _ (carry Gives _ i _ k a (ap called e) refl refl refl g) f.served
    Step-IsServed (leave now i k a e) f =
        update-IsServed Gives _ i _
          (carry Gives _ i _ k a (ap called e) refl refl refl (f.served.given i k a (ap result e)))
          f.served
    Step-IsServed (close i k a e) f =
        update-IsServed Gives _ i _
          (carry Gives _ i _ k a (ap called e) refl refl refl (f.served.given i k a (ap result e)))
          f.served
    Step-IsServed (wake i j k l a e r) f =
        update-IsServed Gives _ i _
          (hold Gives _ i k a (ap called e) (awoken _ i j k l a e r f.served)) f.served
    Step-IsServed (hang_up i j k e) f =
        update-IsServed Gives _ i (gave_up k) (move Gives _ i _ (ap called e) refl refl) f.served

    Step-IsTrue : {w v : World} → Step order Gives w v → IsFair w → IsTrue Gives v.cache
    unfolding publish
    Step-IsTrue (look now i k e) f = rw (look_cache _ now i k) f.true_cache
    Step-IsTrue (enter now i k e) f = rw (enter_cache _ now i k) f.true_cache
    Step-IsTrue (leave now i k a e) f =
        store-IsTrue Gives order now k a _ (f.served.given i k a (ap result e)) f.true_cache
    Step-IsTrue (arrive i k e) f = f.true_cache
    Step-IsTrue (give i k a e g) f = f.true_cache
    Step-IsTrue (close i k a e) f = f.true_cache
    Step-IsTrue (wake i j k l a e r) f = f.true_cache
    Step-IsTrue (hang_up i j k e) f = f.true_cache

    Reach-IsFair : {w v : World} → IsFair w → Reach order Gives w v → IsFair v
    Reach-IsFair f here = f
    Reach-IsFair f (next r s) =
        let before = Reach-IsFair f r in
        record {
          flight = Step-IsFlight order Gives s before.flight;
          served = Step-IsServed s before;
          true_cache = Step-IsTrue s before;
        }

    start-IsFair : (c : Cache) → IsFair (start c)
    unfolding lookup
    start-IsFair c = record {
      flight = start-IsFlight order Gives c;
      served = record { waits = λ i k j h. cc; given = λ i k a h. absurd (none_not_some h) };
      true_cache = record { distinct = tt; kept = λ k e h. absurd (none_not_some h) };
    }

    -- However the steps of the requests interleave, a request that returns an answer, found in the
    -- cache, fetched by itself or awaited from another request, returns one that the panel gave for
    -- its own short UUID.
    pub returned_given :
        (c : Cache) (w : World) (i : ℕ) (k : Bytes) (a : Answer)
        → Reach order Gives (start c) w
        → w.threads i ≡ returned k a
        → Gives k a
    returned_given c w i k a r e =
        (Reach-IsFair (start-IsFair c) r).served.given i k a (ap result e)
