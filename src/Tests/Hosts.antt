-- ===== src/Tests/Hosts.antt =====
-- The shuffling of hosts at concrete lists.
use remnawave_subpage_proxy.Prelude.{ℕ, ◌≡◌, refl, false, true, List, [], ◌∷◌, some}
use remnawave_subpage_proxy.Prelude.Text.{Bytes, codes, bytes_eq, has_prefix, trim_space, contains}
use remnawave_subpage_proxy.Prelude.Assoc.{lookup}
use remnawave_subpage_proxy.Hosts.Shuffle.{
  clash, Shuffler, shuffles_any, permutation, shuffle_groups, shuffle_group, members_from, swap_all,
  swap, fill, differ, indices, group, group_from, reorder_names, picked_of, insert_by, sort_by,
  place,
}
use remnawave_subpage_proxy.Hosts.Shuffle.Permutation.{IsHostShuffle, permutation-IsHostShuffle}
use remnawave_subpage_proxy.Hosts.Shuffle.Reorder.{IsReordered, reorder_names-IsReordered}
use remnawave_subpage_proxy.Hosts.Links.{apply_links, decode_list}
use remnawave_subpage_proxy.Hosts.Links.Laws.{IsRelinked, apply_links-IsRelinked}
use remnawave_subpage_proxy.Hosts.Documents.{apply_xray}
use remnawave_subpage_proxy.Hosts.Apply.{sniff, apply}
use remnawave_subpage_proxy.Hosts.Unchanged.{apply-IsHonest}
use remnawave_subpage_proxy.Hosts.Placeholder.{unique_names, unique_from, placeholder}
use remnawave_subpage_proxy.Hosts.Placeholder.Carried.{IsCarried, placeholder-IsCarried}
use remnawave_subpage_proxy.Tests.Data.{plain_case, one_text, escapes, readers, writers}

program : Unit {0}
unfolding permutation shuffle_groups shuffle_group members_from swap_all swap fill differ indices
    group group_from reorder_names picked_of insert_by sort_by place lookup bytes_eq has_prefix
    unique_names unique_from trim_space contains
program = tt

-- One group, of the host_names that start with "de"; its members change places end to end.
abbrev shuffler : Shuffler
shuffler = record { groups = (λ n. has_prefix n (codes "de")) ∷ []; swaps = λ g n. (1, 0) ∷ [] }

abbrev host_names : List Bytes
host_names = codes "de1" ∷ codes "fi" ∷ codes "de2" ∷ []

moved : permutation shuffler host_names ≡ some (2 ∷ 1 ∷ 0 ∷ [])
unfolding program
moved = refl

permutation-IsHostShuffle_example : IsHostShuffle shuffler host_names (2 ∷ 1 ∷ 0 ∷ [])
permutation-IsHostShuffle_example =
    permutation-IsHostShuffle shuffler host_names (2 ∷ 1 ∷ 0 ∷ []) moved

abbrev index : List (Bytes × ℕ)
index = (codes "de1", 2) ∷ (codes "de2", 0) ∷ []

reordered : reorder_names index host_names ≡ (codes "de2" ∷ codes "fi" ∷ codes "de1" ∷ [], true)
unfolding program
reordered = refl

reorder_names-IsReordered_example : IsReordered index host_names (reorder_names index host_names).0
reorder_names-IsReordered_example = reorder_names-IsReordered index host_names

abbrev link_list : Bytes
link_list = codes "ss://a#de1\nss://b#de2"

apply_links-IsRelinked_example :
    IsRelinked plain_case one_text escapes shuffler link_list
      (apply_links plain_case one_text escapes shuffler link_list)
      (decode_list one_text link_list)
apply_links-IsRelinked_example =
    apply_links-IsRelinked plain_case one_text escapes shuffler link_list

untouched : (apply readers (some shuffler) (codes "[]")).1 ≡ false
unfolding apply shuffles_any sniff trim_space apply_xray
untouched = refl

apply-IsHonest_example : (apply readers (some shuffler) (codes "[]")).0 ≡ codes "[]"
apply-IsHonest_example = apply-IsHonest readers (some shuffler) (codes "[]") untouched

abbrev lines : List Bytes
lines = codes "a " ∷ [] ∷ codes "a" ∷ codes "b" ∷ []

shown_lines : unique_names lines ≡ codes "a" ∷ codes "b" ∷ []
unfolding program
shown_lines = refl

placeholder-IsCarried_example :
    IsCarried one_text writers clash lines (placeholder one_text writers clash lines)
placeholder-IsCarried_example = placeholder-IsCarried one_text writers clash lines
