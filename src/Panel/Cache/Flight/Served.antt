-- ===== src/Panel/Cache/Flight/Served.antt =====
-- internal/panel/cache.go: what a thread may come to hold or await.
use remnawave_subpage_proxy.Prelude.{
  none_not_some, ℕ, ◌≡◌, sym, ap, ◌∙◌, inl, inr, not, Option, none, some, ◌==◌, ltb, if◌then◌else◌,
  arith, Bool-cases, Option-cases, ==_iff,
}
use remnawave_subpage_proxy.Prelude.Text.{Bytes, bytes_eq}
use remnawave_subpage_proxy.Prelude.Text.Laws.{bytes_eq_iff}
use remnawave_subpage_proxy.Prelude.Assoc.{IsMap, lookup}
use remnawave_subpage_proxy.Panel.Cache.{
  Answer, Kept, KeptEntries, Cache, cached, store, keep_until,
}
use remnawave_subpage_proxy.Panel.Cache.Laws.{
  store-IsMap, store_either, evict-IsLeft, lookup-keep_until,
}
use remnawave_subpage_proxy.Panel.Cache.Flight.{
  Thread, waiting, fetching, fetched, published, returned, Threads, update,
}

-- The short UUID of the call that a thread has made.
abbrev pub called : Thread → Option Bytes
called (fetching k) = some k
called (fetched k _) = some k
called (published k _) = some k
called (returned k _) = some k
called _ = none

-- The answer that a thread holds.
abbrev pub result : Thread → Option (Bytes × Answer)
result (fetched k a) = some (k, a)
result (published k a) = some (k, a)
result (returned k a) = some (k, a)
result _ = none

abbrev pub awaited : Thread → Option (Bytes × ℕ)
awaited (waiting k j) = some (k, j)
awaited _ = none

module _ (Gives : Bytes → Answer → Type 0) where
  -- Who waits, waits for a call for its own short UUID; who holds an answer, holds the panel's.
  pub record IsServed (threads : Threads) : Type 0 where
    pub waits :
        (i : ℕ) (k : Bytes) (j : ℕ)
        → awaited (threads i) ≡ some (k, j)
        → called (threads j) ≡ some k
    pub given : (i : ℕ) (k : Bytes) (a : Answer) → result (threads i) ≡ some (k, a) → Gives k a

  -- What a thread may become: it keeps its call, and what it then waits for or holds is right.
  pub record IsAllowed (threads : Threads) (i : ℕ) (t : Thread) : Type 0 where
    pub keeps : (k : Bytes) → called (threads i) ≡ some k → called t ≡ some k
    pub waits : (k : Bytes) (j : ℕ) → awaited t ≡ some (k, j) → called (threads j) ≡ some k
    pub given : (k : Bytes) (a : Answer) → result t ≡ some (k, a) → Gives k a

  module _ (threads : Threads) (i : ℕ) (t : Thread) (ok : IsAllowed threads i t)
      (s : IsServed threads) where
    called-update :
        (j : ℕ) (k : Bytes) → called (threads j) ≡ some k → called (update i t threads j) ≡ some k
    unfolding update
    called-update j k h = elim (Bool-cases (j == i)) [
      | inl e ↦ rw e (ok.keeps k (ap (λ n. called (threads n)) (sym ((==_iff j i).0 e)) ∙ h))
      | inr n ↦ rw n h
    ]

    waits-update :
        (l : ℕ) (k : Bytes) (j : ℕ)
        → awaited (update i t threads l) ≡ some (k, j)
        → called (threads j) ≡ some k
    unfolding update
    waits-update l k j h = elim (Bool-cases (l == i)) [
      | inl e ↦ ok.waits k j (rw e at h)
      | inr n ↦ s.waits l k j (rw n at h)
    ]

    given-update :
        (l : ℕ) (k : Bytes) (a : Answer) → result (update i t threads l) ≡ some (k, a) → Gives k a
    unfolding update
    given-update l k a h = elim (Bool-cases (l == i)) [
      | inl e ↦ ok.given k a (rw e at h)
      | inr n ↦ s.given l k a (rw n at h)
    ]

    pub update-IsServed : IsServed (update i t threads)
    update-IsServed = record {
      waits = λ l k j h. called-update j k (waits-update l k j h);
      given = given-update;
    }

  -- What the cache keeps is the panel's.
  pub record IsTrue (c : Cache) : Type 0 where
    pub distinct : IsMap c.entries
    pub kept : (k : Bytes) (e : Kept) → lookup k c.entries ≡ some e → Gives k e.answer

  kept_answer :
      (now : ℕ) (k : Bytes) (a : Answer) (e : Kept)
      → (if not (ltb now e.expires_at) then none else some e.answer) ≡ some a
      → e.answer ≡ a
  kept_answer now k a e h = ground arith

  pub cached-IsTrue :
      (c : Cache) (now : ℕ) (k : Bytes) (a : Answer)
      → IsTrue c
      → cached now k c ≡ some a
      → Gives k a
  unfolding cached
  cached-IsTrue c now k a t h = elim (Option-cases (lookup k c.entries)) [
    | inl absent ↦
        let none_kept : none ≡ some a = rw (cached, absent) at h in absurd (none_not_some none_kept)
    | inr (e, found) ↦ rw (sym (kept_answer now k a e (rw (cached, found) at h))) (t.kept k e found)
  ]

  module _ (order : KeptEntries → KeptEntries) (now : ℕ) (k : Bytes) (a : Answer) (c : Cache)
      (g : Gives k a) (t : IsTrue c) where
    keep_until-kept :
        (until : ℕ) (j : Bytes) (f : Kept)
        → lookup j (keep_until order now k a until c).entries ≡ some f
        → Gives j f.answer
    unfolding lookup
    keep_until-kept until j f h = elim (Bool-cases (bytes_eq k j)) [
      | inl e ↦
          let new : some (record { answer = a; expires_at = until }) ≡ some f = rw e at h in
          let whole : record { answer = a; expires_at = until } ≡ f = cc in
          let same : a ≡ f.answer = ap (λ (x : Kept). x.answer) whole in
          rw (sym ((bytes_eq_iff k j).0 e), sym same) g
      | inr n ↦
          let old = sym (lookup-keep_until order now c t.distinct k a until j n) ∙ h in
          elim ((evict-IsLeft order now c t.distinct).kept j) [
            | inl gone ↦
                let none_left : none ≡ some f = sym gone ∙ old in absurd (none_not_some none_left)
            | inr before ↦ t.kept j f (sym before ∙ old)
          ]
    ]

    pub store-IsTrue : IsTrue (store order now k a c)
    store-IsTrue = record {
      distinct = store-IsMap order now c t.distinct k a;
      kept = λ j f h. elim (store_either order now c t.distinct k a) [
        | inl same ↦ t.kept j f (rw same at h)
        | inr (until, keep) ↦ keep_until-kept until j f (rw keep at h)
      ];
    }

  pair_given :
      (k l : Bytes) (a b : Answer) → Gives k a → result (returned k a) ≡ some (l, b) → Gives l b
  pair_given k l a b g h =
      let left : Bytes × Answer = (k, a) in
      let right : Bytes × Answer = (l, b) in
      let whole : left ≡ right = cc in
      rw
        (sym (ap (λ (p : Bytes × Answer). p.0) whole), sym (ap (λ (p : Bytes × Answer). p.1) whole))
        g

  -- A thread that made no call may come to hold an answer of the panel's for it.
  pub hold :
      (threads : Threads) (i : ℕ) (k : Bytes) (a : Answer)
      → called (threads i) ≡ none
      → Gives k a
      → IsAllowed threads i (returned k a)
  hold threads i k a free g = record {
    keeps = λ l h. cc;
    waits = λ l j h. cc;
    given = λ l b h. pair_given k l a b g h;
  }

  -- A thread that made no call may come to one in which it holds and awaits nothing.
  pub move :
      (threads : Threads) (i : ℕ) (t : Thread)
      → called (threads i) ≡ none
      → awaited t ≡ none
      → result t ≡ none
      → IsAllowed threads i t
  move threads i t free alone empty = record {
    keeps = λ l h. cc;
    waits = λ l j h. cc;
    given = λ l b h. absurd (none_not_some (sym empty ∙ h));
  }

  -- A thread inside its call keeps to it.
  pub carry :
      (threads : Threads) (i : ℕ) (t : Thread) (k : Bytes) (a : Answer)
      → called (threads i) ≡ some k
      → called t ≡ some k
      → awaited t ≡ none
      → result t ≡ some (k, a)
      → Gives k a
      → IsAllowed threads i t
  carry threads i t k a now_on still alone holds g = record {
    keeps = λ l h. cc;
    waits = λ l j h. cc;
    given = λ l b h. pair_given k l a b g (sym holds ∙ h);
  }

  -- A thread that made no call may wait for one for its short UUID.
  pub await :
      (threads : Threads) (i : ℕ) (k : Bytes) (j : ℕ)
      → called (threads i) ≡ none
      → called (threads j) ≡ some k
      → IsAllowed threads i (waiting k j)
  await threads i k j free on = record {
    keeps = λ l h. cc;
    waits = λ l m h. cc;
    given = λ l b h. absurd (none_not_some h);
  }
