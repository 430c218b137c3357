-- ===== src/Panel/Cache/Flight/Laws.antt =====
-- internal/panel/cache.go: how a change of one thread affects the calls in flight.
use remnawave_subpage_proxy.Prelude.{
  ℕ, ◌≡◌, ◌≢◌, sym, ap, ◌∙◌, inl, inr, false, List, ◌∷◌, Option, none, some, ◌==◌, arith,
  Bool-cases, ==_iff,
}
use remnawave_subpage_proxy.Prelude.Text.{Bytes, bytes_eq}
use remnawave_subpage_proxy.Prelude.Text.Laws.{bytes_eq_iff}
use remnawave_subpage_proxy.Prelude.Assoc.{
  IsMap, lookup, remove, lookup-remove_ne, lookup-remove_self, remove-IsMap,
}
use remnawave_subpage_proxy.Panel.Cache.{Answer}
use remnawave_subpage_proxy.Panel.Cache.Flight.{
  Thread, fetching, fetched, published, Threads, update,
}

-- The short UUID that a thread has the panel asked for, until it leaves the call.
abbrev pub led : Thread → Option Bytes
led (fetching k) = some k
led (fetched k _) = some k
led _ = none

pub update_self : (i : ℕ) (t : Thread) (threads : Threads) → update i t threads i ≡ t
unfolding update
update_self i t threads = ground arith

pub update_ne :
    (i j : ℕ) (t : Thread) (threads : Threads) → j ≢ i → update i t threads j ≡ threads j
unfolding update
update_ne i j t threads n = ground arith

-- The calls in flight are those of the threads that lead one.
pub record IsFlight (in_flight : List (Bytes × ℕ)) (threads : Threads) : Type 0 where
  pub single : (i : ℕ) (k : Bytes) → led (threads i) ≡ some k → lookup k in_flight ≡ some i
  pub flying : (k : Bytes) (i : ℕ) → lookup k in_flight ≡ some i → led (threads i) ≡ some k
  pub distinct : IsMap in_flight

led-update :
    (i : ℕ) (t : Thread) (threads : Threads)
    → led t ≡ led (threads i)
    → (j : ℕ) → led (update i t threads j) ≡ led (threads j)
unfolding update
led-update i t threads h j = elim (Bool-cases (j == i)) [
  | inl e ↦ rw e (h ∙ ap (λ n. led (threads n)) (sym ((==_iff j i).0 e)))
  | inr n ↦ rw n
]

pub update-IsFlight :
    (i : ℕ) (t : Thread) (m : List (Bytes × ℕ)) (threads : Threads)
    → led t ≡ led (threads i)
    → IsFlight m threads
    → IsFlight m (update i t threads)
update-IsFlight i t m threads h f = record {
  single = λ j k l. f.single j k (sym (led-update i t threads h j) ∙ l);
  flying = λ k j l. led-update i t threads h j ∙ f.flying k j l;
  distinct = f.distinct;
}

lookup_apart :
    (k l : Bytes) (m : List (Bytes × ℕ)) (j : ℕ)
    → lookup k m ≡ none
    → lookup l m ≡ some j
    → bytes_eq k l ≡ false
lookup_apart k l m j free found = elim (Bool-cases (bytes_eq k l)) [
  | inl e ↦ let same = ap (λ t. lookup t m) ((bytes_eq_iff k l).0 e) in cc
  | inr n ↦ n
]

key_apart :
    (k l : Bytes) (m : List (Bytes × ℕ)) (i j : ℕ)
    → lookup k m ≡ some i
    → lookup l m ≡ some j
    → j == i ≡ false
    → bytes_eq k l ≡ false
key_apart k l m i j mine found n = elim (Bool-cases (bytes_eq k l)) [
  | inl e ↦
      let same = ap (λ t. lookup t m) ((bytes_eq_iff k l).0 e) in
      let equal : j ≡ i = cc in let hit = (==_iff j i).1 equal in cc
  | inr d ↦ d
]

other_thread :
    (i j : ℕ) (threads : Threads) (l : Bytes)
    → led (threads i) ≡ none
    → led (threads j) ≡ some l
    → j == i ≡ false
other_thread i j threads l off on = elim (Bool-cases (j == i)) [
  | inl e ↦ let same = ap (λ n. led (threads n)) ((==_iff j i).0 e) in cc
  | inr n ↦ n
]

thread_apart :
    (i j : ℕ) (k l : Bytes) (threads : Threads)
    → led (threads i) ≡ some k
    → led (threads j) ≡ some l
    → bytes_eq k l ≡ false
    → j == i ≡ false
thread_apart i j k l threads on other n = elim (Bool-cases (j == i)) [
  | inl e ↦
      let same = ap (λ t. led (threads t)) ((==_iff j i).0 e) in
      let equal : k ≡ l = cc in let hit = (bytes_eq_iff k l).1 equal in cc
  | inr d ↦ d
]

pub lead-IsFlight :
    (i : ℕ) (k : Bytes) (m : List (Bytes × ℕ)) (threads : Threads)
    → lookup k m ≡ none
    → led (threads i) ≡ none
    → IsFlight m threads
    → IsFlight ((k, i) ∷ m) (update i (fetching k) threads)
unfolding lookup update
lead-IsFlight i k m threads free off f = record {
  single = λ j l h. elim (Bool-cases (j == i)) [
    | inl e ↦
        let named : some k ≡ some l = rw e at h in
        let same : k ≡ l = cc in rw ((bytes_eq_iff k l).1 same) (ap some (sym ((==_iff j i).0 e)))
    | inr n ↦ let old = f.single j l (rw n at h) in rw (lookup_apart k l m j free old) old
  ];
  flying = λ l j h. elim (Bool-cases (bytes_eq k l)) [
    | inl e ↦
        let named : some i ≡ some j = rw e at h in
        let same : j ≡ i = cc in rw ((==_iff j i).1 same) (ap some ((bytes_eq_iff k l).0 e))
    | inr n ↦ let old = f.flying l j (rw n at h) in rw (other_thread i j threads l off old) old
  ];
  distinct = (free, f.distinct);
}

pub publish-IsFlight :
    (i : ℕ) (k : Bytes) (a : Answer) (m : List (Bytes × ℕ)) (threads : Threads)
    → led (threads i) ≡ some k
    → IsFlight m threads
    → IsFlight (remove k m) (update i (published k a) threads)
unfolding update
publish-IsFlight i k a m threads on f = record {
  single = λ j l h. elim (Bool-cases (j == i)) [
    | inl e ↦ let none_led : none ≡ some l = rw e at h in cc
    | inr n ↦
        let old = f.single j l (rw n at h) in
        let mine = f.single i k on in lookup-remove_ne k l m (key_apart k l m i j mine old n) ∙ old
  ];
  flying = λ l j h. elim (Bool-cases (bytes_eq k l)) [
    | inl e ↦
        let gone : lookup l (remove k m) ≡ none =
          ap (λ t. lookup t (remove k m)) (sym ((bytes_eq_iff k l).0 e))
          ∙ lookup-remove_self k m f.distinct in
        cc
    | inr n ↦
        let old = f.flying l j (sym (lookup-remove_ne k l m n) ∙ h) in
        rw (thread_apart i j k l threads on old n) old
  ];
  distinct = remove-IsMap k m f.distinct;
}
