-- ===== src/Examples/Placement.antt =====
-- The theorems on the placement of replicas, at three servers of which one does not answer.
use vearch.Prelude.{
  ℕ, ltb, if◌then◌else◌, err, ErrorEnum, String, List, [], ◌∷◌, map, Bool, true, false, not, ok,
  done, str_eq, length, take, All, ◌≡◌, refl, arith,
}
use vearch.Space.Placement.{
  Server, Sort, has_fewer, Counts, Selection, count_of, put_count, bumped, bump, zone_of, is_picked,
  pick_server, pass_server, select_loop, enough, select_servers_for_partition, own_servers,
  is_allowed, count_replicas, filter_and_sort_server,
}
use vearch.Space.Placement.Selected.{Apart, select_servers_for_partition-Apart}
use vearch.Space.Placement.Candidates.{MayHold, filter_and_sort_server-MayHold}
use mathlib.Core.List.{Permᴰ, reverse}
use vearch.Space.Placement.Least.{Ascending, live_servers, select_servers_for_partition-least}

abbrev pub server : ℕ → String → String → Server
server id address zone = record {
  id = id;
  ip = address;
  rpc_addr = address;
  host_ip = address;
  host_rack = "";
  host_zone = zone;
  resource_name = "";
  private = false;
}

-- The second does not answer, and the first and the third are in one zone.
abbrev four_servers : List Server
four_servers = server 11 "a" "x" ∷ server 12 "b" "y" ∷ server 13 "c" "x" ∷ server 14 "d" "z" ∷ []

abbrev answers : String → Bool
answers address = not (str_eq address "b")

-- Already in the order of the counts.
abbrev as_is : Sort
as_is less counts = counts

abbrev loads : Counts
loads = (0, 1) ∷ (1, 1) ∷ (2, 2) ∷ (3, 5) ∷ []

abbrev by_zone : Selection
by_zone = record {
  counts = (0, 2) ∷ (1, 1) ∷ (2, 2) ∷ (3, 6) ∷ [];
  zones = "z" ∷ "x" ∷ [];
  addresses = "a" ∷ "d" ∷ [];
  replicas = 11 ∷ 14 ∷ [];
  replica_count = 0;
}

selected-by_zone :
    select_servers_for_partition answers 3 as_is four_servers loads 2
    ≡ done (ok ("a" ∷ "d" ∷ []), by_zone)
unfolding select_servers_for_partition select_loop is_picked zone_of pick_server pass_server
    put_count count_of bump bumped enough
selected-by_zone = refl

select_servers_for_partition-Apart_example :
    (chosen : List Server) × ("a" ∷ "d" ∷ [] ≡ map (λ s. s.rpc_addr) chosen)
    × (by_zone.replicas ≡ map (λ s. s.id) chosen)
    × (length chosen ≡ 2)
    × All (λ s. answers s.rpc_addr ≡ true) chosen
    × Apart 3 [] chosen
select_servers_for_partition-Apart_example =
    select_servers_for_partition-Apart answers 3 four_servers as_is loads 2 ("a" ∷ "d" ∷ []) by_zone
      (omega arith) (omega arith) selected-by_zone

-- The least loaded last, and a sort that turns the list around.
abbrev turned : Counts
turned = (3, 5) ∷ (2, 2) ∷ (0, 1) ∷ []

abbrev turn : Sort
turn less counts = reverse counts

select_servers_for_partition-least_example :
    (pairs : List (ℕ × ℕ)) × Permᴰ turned pairs
    × Ascending pairs
    × (end : Selection) × (select_servers_for_partition answers 0 turn four_servers turned 2
        ≡ done (
          if ltb (length (live_servers answers four_servers pairs)) 2
              then err ErrorEnum.master_ps_not_enough_select
              else ok (map (λ s. s.rpc_addr) (take 2 (live_servers answers four_servers pairs))),
          end,
        ))
    × (end.replicas ≡ map (λ s. s.id) (take 2 (live_servers answers four_servers pairs)))
unfolding has_fewer
select_servers_for_partition-least_example =
    select_servers_for_partition-least answers four_servers turn turned 2 (omega arith)
      (omega arith) (omega arith, (omega arith, (omega arith, tt)))
      (Permᴰ.trans (Permᴰ.swap refl refl)
        (Permᴰ.trans (Permᴰ.cons refl (Permᴰ.swap refl refl)) (Permᴰ.swap refl refl)))
      ((refl, (refl, tt)), ((refl, tt), (tt, tt)))

filter_and_sort_server-MayHold_example :
    All
      (λ e. MayHold ("c" ∷ []) "" four_servers e.0)
      (filter_and_sort_server ("c" ∷ []) "" four_servers (13 ∷ 11 ∷ []))
filter_and_sort_server-MayHold_example =
    filter_and_sort_server-MayHold ("c" ∷ []) "" four_servers (13 ∷ 11 ∷ [])

filter_and_sort_server-run :
    filter_and_sort_server ("c" ∷ []) "" four_servers (13 ∷ 11 ∷ []) ≡ (2, 1) ∷ []
unfolding filter_and_sort_server own_servers is_allowed count_replicas bump bumped count_of
    put_count
filter_and_sort_server-run = refl
