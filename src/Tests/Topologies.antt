-- ===== src/Tests/Topologies.antt =====
-- Examples for config/.
use network_layer_full.Base.{
  ℕ, ◌≤◌, ◌<◌, ◌==◌, ◌≡◌, refl, none, some, Option, List, [], ◌∷◌, ◌++◌, ◌-◌, if◌then◌else◌, arith,
  replicate, length, drop,
}
use network_layer_full.Base.Int.{pos}
use network_layer_full.Topology.{Host, Links, initlinks, update, getmtu, get_max_mtu, findhost}
use network_layer_full.Net.Routes.{Routing, add_neighbors}
use network_layer_full.Net.Routes.Laws.{IsRouted}
use network_layer_full.Net.Send.{WaitListItem}
use network_layer_full.Net.WaitList.{Semaphores}
use network_layer_full.Net.WaitList.Queue.{Represents, IsNew}
use network_layer_full.Startup.{Started, net_init, transport_init, main}
use network_layer_full.Startup.Agreement.{main-agree}
use network_layer_full.Config.{file_lines, readconfig}
use network_layer_full.Config.LinkLines.{LinkEntry, IsLink}
use network_layer_full.Config.HostLines.{HostEntry, IsHost}
use network_layer_full.Config.RoundTrip.{
  topology_file, hosts_of, connect_all, readconfig-topology_file,
}

-- 127.0.0.1
abbrev ip_others : List ℕ
ip_others = 50 ∷ 55 ∷ 46 ∷ 48 ∷ 46 ∷ 48 ∷ 46 ∷ 49 ∷ []

abbrev pub inet_pton : List ℕ → Option ℕ
inet_pton text = if length text == 9 then some 16777343 else none

abbrev host : ℕ → ℕ → HostEntry
host num port = record {
  num = num;
  ip_digit = 49;
  ip_others = ip_others;
  ip_addr = 16777343;
  port = port;
  junk = 0 ∷ [];
}

host-IsHost : (num port : ℕ) → num ≤ 9 → port < 65536 → IsHost inet_pton (host num port)
host-IsHost num port n p = record {
  num_in = n;
  ip_start = (omega arith, omega arith);
  ip_short = omega arith;
  ip_plain = (
    (λ e. absurd (omega arith)),
    (
      (λ e. absurd (omega arith)),
      (
        (λ e. absurd (omega arith)),
        (
          (λ e. absurd (omega arith)),
          (
            (λ e. absurd (omega arith)),
            (
              (λ e. absurd (omega arith)),
              ((λ e. absurd (omega arith)), ((λ e. absurd (omega arith)), tt)),
            ),
          ),
        ),
      ),
    ),
  );
  ip_known = refl;
  port_in = p;
  stops = refl;
}

abbrev link : ℕ → ℕ → ℕ → LinkEntry
link first second mtu = record { first = first; second = second; mtu = mtu; junk = 0 ∷ [] }

link-IsLink : (a b : ℕ) → 1 ≤ a → a ≤ 6 → 1 ≤ b → b ≤ 6 → IsLink (link a b 1500)
link-IsLink a b a1 a6 b1 b6 = record {
  first_in = (a1, a6);
  second_in = (b1, b6);
  mtu_in = omega arith;
  stops = refl;
}

abbrev pub no_host : Host
no_host = record { num = 0; port = 0; ip_addr = 0 }

abbrev two_hosts : List HostEntry
two_hosts = host 1 5002 ∷ host 2 5003 ∷ []

readconfig-topology_file_example :
    readconfig inet_pton
      (some (topology_file two_hosts (link 1 2 1500 ∷ [])))
      initlinks
      (replicate 6 no_host)
    ≡ some (
      connect_all initlinks (link 1 2 1500 ∷ []),
      hosts_of two_hosts ++ drop 2 (replicate 6 no_host),
    )
readconfig-topology_file_example =
    readconfig-topology_file inet_pton two_hosts (link 1 2 1500 ∷ []) initlinks
      (replicate 6 no_host)
      (
        host-IsHost 1 5002 (omega arith) (omega arith),
        (host-IsHost 2 5003 (omega arith) (omega arith), tt),
      )
      (link-IsLink 1 2 (omega arith) (omega arith) (omega arith) (omega arith), tt) (omega arith)

-- "1 -> 2: 99;", in a file without hosts.
abbrev pub lines : List (List ℕ)
lines = (120 ∷ 10 ∷ []) ∷ (49 ∷ 50 ∷ 32 ∷ 57 ∷ 57 ∷ 59 ∷ 10 ∷ []) ∷ []

-- What two processes have on their stacks: a NUL, and other bytes.
abbrev pub nuls : ℕ → List ℕ
nuls i = 0 ∷ []

abbrev pub letters : ℕ → List ℕ
letters i = 120 ∷ 55 ∷ 55 ∷ []

-- With a 7 behind the copied characters the MTU is read as 997.
abbrev sevens : ℕ → List ℕ
sevens i = 55 ∷ 0 ∷ []

junk_read :
    readconfig inet_pton (file_lines sevens (some lines)) initlinks []
    ≡ some (update (update initlinks 1 0 (pos 997)) 0 1 (pos 997), [])
unfolding readconfig file_lines
junk_read = refl

abbrev read_links : Links
read_links = update (update initlinks 1 0 (pos 99)) 0 1 (pos 99)

-- Semaphores that are new, and those of a process that has ended.
abbrev pub new_sems : Semaphores
new_sems = record { prod = 0; cons = 0 }

pub new_sems-IsNew : IsNew new_sems
new_sems-IsNew = record { prod_new = refl; cons_new = refl }

abbrev pub used_sems : Semaphores
used_sems = record { prod = 99; cons = 1 }

abbrev pub zeroes : Routing
zeroes = record {
  num = 0;
  neighbors = λ i. 0;
  routes = λ i. record { dest = 0; cost = 0; gateway = 0 };
}

abbrev pub no_item : WaitListItem
no_item = record {
  dest = 0;
  src = 0;
  payload = [];
  offset = 0;
  ttl = 0;
  size = 0;
  protocol = 0;
  id = 0;
  first_dest_link = 0;
}

abbrev started_with : Semaphores → ℕ → Started
started_with sems num = record {
  links = read_links;
  hosts = replicate 6 no_host;
  me = no_host;
  max = pos 99;
  net = net_init zeroes no_item sems num (read_links (num - 1));
  points = transport_init;
}

abbrev pub started : ℕ → Started
started num = started_with used_sems num

starts_1 :
    main inet_pton no_host zeroes no_item new_sems nuls (some lines) 1
    ≡ some (started_with new_sems 1)
unfolding main get_max_mtu findhost
starts_1 = refl

pub starts_2 :
    main inet_pton no_host zeroes no_item used_sems letters (some lines) 2 ≡ some (started 2)
unfolding main get_max_mtu findhost
starts_2 = refl

main-agree_example :
    (read_links ≡ read_links)
    × (getmtu read_links 1 2 ≡ getmtu read_links 2 1)
    × ((started_with new_sems 1).net.routing.neighbors 1 ≡ (started 2).net.routing.neighbors 0)
    × Represents (started_with new_sems 1).net.waiting []
    × IsRouted (add_neighbors (started_with new_sems 1).net.routing)
    × IsRouted (add_neighbors (started 2).net.routing)
main-agree_example =
    main-agree inet_pton no_host zeroes no_item new_sems used_sems nuls letters (some lines) 1 2
      (started_with new_sems 1) (started 2) (λ i. refl) (λ i. refl) new_sems-IsNew starts_1 starts_2
