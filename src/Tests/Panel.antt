-- ===== src/Tests/Panel.antt =====
-- The panel's cache at concrete contents, and a run of two requests for one subscription.
use remnawave_subpage_proxy.Prelude.{
  ℕ, ◌≡◌, ◌≤◌, refl, inl, inr, false, true, [], ◌∷◌, none, some, length, arith, Bool-cases,
}
use remnawave_subpage_proxy.Prelude.Int.{pos, pos_part}
use remnawave_subpage_proxy.Prelude.Text.{Bytes, codes, bytes_eq}
use remnawave_subpage_proxy.Prelude.Assoc.{IsMap, lookup, remove}
use remnawave_subpage_proxy.Panel.Info.{Info}
use remnawave_subpage_proxy.Panel.Cache.{
  Answer, answered, not_found, failed, KeptEntries, Cache, cached, lifetime, store, evict_if_needed,
  sweep, drop_live,
}
use remnawave_subpage_proxy.Panel.Cache.Laws.{Covers, store_within}
use remnawave_subpage_proxy.Panel.Cache.Lifetime.{cached-store_self}
use remnawave_subpage_proxy.Panel.Cache.Flight.{
  asked, fetched, returned, update, World, becomes, first_look, second_look, publish, arrive, look,
  enter, give, leave, close, wake, Reach, here, next, start,
}
use remnawave_subpage_proxy.Panel.Cache.Flight.Laws.{led}
use remnawave_subpage_proxy.Panel.Cache.Flight.Single.{single_flight}
use remnawave_subpage_proxy.Panel.Cache.Flight.Answers.{returned_given}

abbrev as_stored : KeptEntries → KeptEntries
as_stored m = m

all_covered : (m : KeptEntries) → IsMap m → Covers (as_stored m) m
unfolding lookup
all_covered [] d j e h = cc
all_covered ((k, f) ∷ m) d j e h = elim (Bool-cases (bytes_eq k j)) [
  | inl same ↦ rw same
  | inr apart ↦ rw apart (all_covered m d.1 j e (rw apart at h))
]

abbrev full : Cache
full = record {
  ttl = pos 30;
  negative_ttl = pos 5;
  max_entries = pos 1;
  entries = (codes "a", record { answer = not_found; expires_at = 100 }) ∷ [];
}

full-IsMap : IsMap full.entries
unfolding lookup
full-IsMap = (refl, tt)

-- The one entry makes room.
replaced :
    (store as_stored 10 (codes "b") not_found full).entries
    ≡ (codes "b", record { answer = not_found; expires_at = 15 }) ∷ []
unfolding store lifetime evict_if_needed sweep drop_live remove bytes_eq
replaced = refl

store_within_example :
    length (store as_stored 10 (codes "b") not_found full).entries ≤ pos_part full.max_entries
store_within_example =
    store_within as_stored 10 full full-IsMap (codes "b") not_found all_covered (omega arith)
      (omega arith)

abbrev known : Info
known = record {
  user = record {
    short_uuid = codes "b";
    username = codes "ann";
    days_left = pos 3;
    traffic_used = codes "1 KiB";
    traffic_limit = codes "2 KiB";
    lifetime_traffic_used = [];
    traffic_used_bytes = codes "1024";
    traffic_limit_bytes = codes "2048";
    lifetime_traffic_used_bytes = [];
    traffic_limit_strategy = [];
    expires_at = [];
    user_status = codes "ACTIVE";
    is_active = true;
  };
  is_found = true;
  subscription_url = [];
}

-- At 39 a subscription is still known, and that there is none was forgotten at 15.
cached-store_self_example :
    (cached 39 (codes "b") (store as_stored 10 (codes "b") (answered known) full)
      ≡ some (answered known))
    × (cached 39 (codes "b") (store as_stored 10 (codes "b") not_found full) ≡ none)
    × (store as_stored 10 (codes "b") (failed []) full ≡ full)
cached-store_self_example = cached-store_self as_stored 10 full (codes "b") 39 known []

apart : bytes_eq (codes "b") (codes "a") ≡ false
unfolding bytes_eq
apart = refl

abbrev Unknown : Bytes → Answer → Type 0
Unknown k a = a ≡ not_found

abbrev key : Bytes
key = codes "abc"

-- Both requests miss the cache.
abbrev both_missed : World
both_missed =
    first_look 5 1 key
      (first_look 5 0 key (becomes 1 (asked key) (becomes 0 (asked key) (start full))))

-- The first makes the call, and the second waits for it.
abbrev one_waits : World
one_waits = second_look 5 1 key (second_look 5 0 key both_missed)

abbrev both_returned : World
both_returned = becomes 1 (returned key not_found) (
    becomes 0 (returned key not_found)
      (publish as_stored 6 0 key not_found (becomes 0 (fetched key not_found) one_waits)))

program : Unit {0}
unfolding update first_look second_look publish cached lookup store lifetime evict_if_needed remove
    bytes_eq
program = tt

run_waits : Reach as_stored Unknown (start full) one_waits
unfolding program
run_waits =
    next
      (next
        (next (next (next (next here (arrive 0 key refl)) (arrive 1 key refl)) (look 5 0 key refl))
          (look 5 1 key refl))
        (enter 5 0 key refl))
      (enter 5 1 key refl)

run : Reach as_stored Unknown (start full) both_returned
unfolding program
run =
    next
      (next (next (next run_waits (give 0 key not_found refl refl)) (leave 6 0 key not_found refl))
        (close 0 key not_found refl))
      (wake 1 0 key key not_found refl refl)

leads : led (one_waits.threads 0) ≡ some key
unfolding program
leads = refl

abbrev first_thread : ℕ
first_thread = 0

single_flight_example : first_thread ≡ first_thread
single_flight_example = single_flight as_stored Unknown full one_waits 0 0 key run_waits leads leads

second_returned : both_returned.threads 1 ≡ returned key not_found
unfolding program
second_returned = refl

returned_given_example : Unknown key not_found
returned_given_example =
    returned_given Unknown as_stored full both_returned 1 key not_found run second_returned
