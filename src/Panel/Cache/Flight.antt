-- ===== src/Panel/Cache/Flight.antt =====
-- internal/panel/cache.go: `SubscriptionInfo` under concurrent requests. A request is a thread that
-- asks for one short UUID; a number names it, and the call that it makes. The sections under the lock
-- are single steps, and any thread may take the next one.
pub mod Laws
pub mod Single
pub mod Served
pub mod Answers
use remnawave_subpage_proxy.Prelude.{
  ℕ, ◌≡◌, Bool, true, false, List, [], ◌∷◌, Option, none, some, ◌==◌, if◌then◌else◌,
}
use remnawave_subpage_proxy.Prelude.Text.{Bytes}
use remnawave_subpage_proxy.Prelude.Assoc.{lookup, remove}
use remnawave_subpage_proxy.Panel.Cache.{Answer, KeptEntries, Cache, cached, store}

-- Where a request stands. `published` is behind the second section under the lock and before
-- `close(pending.done)`; `waiting` names the call that is waited for.
pub data Thread : Type 0 where
  idle : Thread
  asked : Bytes → Thread
  missed : Bytes → Thread
  waiting : Bytes → ℕ → Thread
  fetching : Bytes → Thread
  fetched : Bytes → Answer → Thread
  published : Bytes → Answer → Thread
  returned : Bytes → Answer → Thread
  gave_up : Bytes → Thread

abbrev pub Threads : Type 0
Threads = ℕ → Thread

unfoldable pub update : ℕ → Thread → Threads → Threads
update i t threads j = if j == i then t else threads j

pub record World : Type 0 where
  pub cache : Cache
  pub in_flight : List (Bytes × ℕ)
  pub threads : Threads

abbrev pub becomes : ℕ → Thread → World → World
becomes i t w = record w { threads = update i t w.threads }

-- The call of `lookup`.
unfoldable pub first_look : ℕ → ℕ → Bytes → World → World
first_look now i short_uuid w = elim (cached now short_uuid w.cache) [
  | some a ↦ becomes i (returned short_uuid a) w
  | none ↦ becomes i (missed short_uuid) w
]

-- The first section under the lock: an answer that came meanwhile, a call to wait for, or a call.
unfoldable pub second_look : ℕ → ℕ → Bytes → World → World
second_look now i short_uuid w = elim (cached now short_uuid w.cache) [
  | some a ↦ becomes i (returned short_uuid a) w
  | none ↦ elim (lookup short_uuid w.in_flight) [
    | some j ↦ becomes i (waiting short_uuid j) w
    | none ↦ record w {
      in_flight = (short_uuid, i) ∷ w.in_flight;
      threads = update i (fetching short_uuid) w.threads;
    }
  ]
]

-- The second section under the lock, over the order in which the eviction visits the entries.
unfoldable pub publish : (KeptEntries → KeptEntries) → ℕ → ℕ → Bytes → Answer → World → World
publish order now i short_uuid a w = record {
  cache = store order now short_uuid a w.cache;
  in_flight = remove short_uuid w.in_flight;
  threads = update i (published short_uuid a) w.threads;
}

-- The steps of the threads. `Gives` says what the panel may answer for a short UUID.
module _ (order : KeptEntries → KeptEntries) (Gives : Bytes → Answer → Type 0) where
  pub data Step (w : World) : World → Type 0 where
    arrive : (i : ℕ) (k : Bytes) → w.threads i ≡ idle → Step w (becomes i (asked k) w)
    look : (now i : ℕ) (k : Bytes) → w.threads i ≡ asked k → Step w (first_look now i k w)
    enter : (now i : ℕ) (k : Bytes) → w.threads i ≡ missed k → Step w (second_look now i k w)
    give :
        (i : ℕ) (k : Bytes) (a : Answer)
        → w.threads i ≡ fetching k
        → Gives k a
        → Step w (becomes i (fetched k a) w)
    leave :
        (now i : ℕ) (k : Bytes) (a : Answer)
        → w.threads i ≡ fetched k a
        → Step w (publish order now i k a w)
    close :
        (i : ℕ) (k : Bytes) (a : Answer)
        → w.threads i ≡ published k a
        → Step w (becomes i (returned k a) w)
    wake :
        (i j : ℕ) (k l : Bytes) (a : Answer)
        → w.threads i ≡ waiting k j
        → w.threads j ≡ returned l a
        → Step w (becomes i (returned k a) w)
    hang_up : (i j : ℕ) (k : Bytes) → w.threads i ≡ waiting k j → Step w (becomes i (gave_up k) w)

  pub data Reach (w : World) : World → Type 0 where
    here : Reach w w
    next : {v u : World} → Reach w v → Step v u → Reach w u

-- Before the first request.
abbrev pub start : Cache → World
start c = record { cache = record c { entries = [] }; in_flight = []; threads = λ i. idle }
