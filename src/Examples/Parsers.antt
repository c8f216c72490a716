-- ===== src/Examples/Parsers.antt =====
-- A command line, the clients that it describes, and the theorems on the configuration and the server
-- applied to them.
use memory_tiering.Base.{
  ℕ, ◌*◌, ◌+◌, ◌-◌, ◌≡◌, refl, false, ◌&&◌, Option, none, some, List, [], ◌∷◌, leb, length, arith,
  if◌then◌else◌,
}
use memory_tiering.Base.Run.{Returns, ok}
use memory_tiering.Common.{LayerInfo, ServerMemoryConfig, lru, ClientConfig, uniform}
use memory_tiering.Config.{
  ParseResult, ConfigParser, parse, parse_basic_config, set_policy, parse_policy,
  parse_server_config, set_capacities, parse_client_configs, parse_clients, parse_client,
  parse_sizes, parse_pattern, validate_memory_configuration, sum_tiers, add_sizes, within_limits,
}
use memory_tiering.Config.Split.{
  split, split_from, join, one, more, no_fields, and_fields, split-join,
}
use memory_tiering.Config.Print.{print_config}
use memory_tiering.Config.Printed.{line_count, client_count, parse-prints}
use memory_tiering.Config.Valid.{IsValid, parse-IsValid}
use memory_tiering.Config.Limits.{
  no_clients, and_client, demand, validate-three_tiers, validate-two_tiers,
}
use memory_tiering.Server.{Server, all_done, client_pages, base_page_ids, create_base_page_id}
use memory_tiering.Server.Pages.{create_base_page_id-disjoint}
use memory_tiering.Server.Shutdown.{Inv, handle_ends, handle_ends-Inv, set_all}
use memory_tiering.Examples.Tables.{no_ring}

-- Decimal digits, for `std::stoul`.
abbrev decimal_from : ℕ → List ℕ → Option ℕ
decimal_from n [] = some n
decimal_from n (c ∷ cs) =
    let rest = decimal_from (10 * n + (c - 48)) cs in if leb 48 c && leb c 57 then rest else none

abbrev decimal : List ℕ → Option ℕ
decimal [] = none
decimal (c ∷ cs) = decimal_from 0 (c ∷ cs)

-- `"2 1 1"`
abbrev sizes_text : List ℕ
sizes_text = 50 ∷ 32 ∷ 49 ∷ 32 ∷ 49 ∷ []

split-join_example :
    split 32 (join 32 ((50 ∷ []) ∷ (49 ∷ 48 ∷ []) ∷ [])) ≡ (50 ∷ []) ∷ (49 ∷ 48 ∷ []) ∷ []
split-join_example = split-join 32 ((50 ∷ []) ∷ (49 ∷ 48 ∷ []) ∷ []) (
    and_fields (one (λ z. omega (arith, z)))
      (and_fields (more (λ z. omega (arith, z)) (one (λ z. omega (arith, z)))) no_fields))

abbrev options : ℕ → List ℕ → ParseResult ℕ
options num_tiers mem_sizes = record {
  help = false;
  buffer_size = 10;
  running_time = some 60;
  output = "latency.csv";
  periodic_output = "periodic.csv";
  ratio = 1;
  sample_rate = 10;
  cache_ring = false;
  num_tiers = num_tiers;
  policy_type = "lru";
  scan_interval = 30;
  hot_threshold = 100;
  cold_threshold = 1000;
  hot_count = 10;
  cold_count = 2;
  recency_weight = 1;
  frequency_weight = 1;
  mem_sizes = some mem_sizes;
  patterns = some ("uniform" ∷ []);
  client_tier_sizes = some (sizes_text ∷ []);
  zipfs = 1;
}

abbrev info : ℕ → LayerInfo
info capacity = record { count = 0; capacity = capacity }

abbrev memory : (num_tiers l r p : ℕ) → ServerMemoryConfig
memory num_tiers l r p = record {
  num_tiers = num_tiers;
  local_numa = info l;
  remote_numa = info r;
  pmem = info p;
}

abbrev client : List ℕ → ClientConfig ℕ
client sizes = record { pattern = uniform; tier_sizes = sizes; zipf_s = 1 }

-- A parser before the first option is read, and after.
abbrev parser : ServerMemoryConfig → List (ClientConfig ℕ) → ConfigParser ℕ
parser m clients = record {
  help_requested = false;
  buffer_size = 10;
  running_time = 60;
  rw_ratio = 1;
  sample_rate = 10;
  client_configs = clients;
  server_memory_config = m;
  policy_config = record {
    config = lru (record { hot_threshold_ms = 100; cold_threshold_ms = 1000 });
    policy_type = "lru";
    scan_interval = 30;
  };
  use_cache_ring = false;
  cdf_output_file = "latency.csv";
  periodic_metric_output_file = "periodic.csv";
}

abbrev clients : List (ClientConfig ℕ)
clients = client (2 ∷ 1 ∷ 1 ∷ []) ∷ []

parse-IsValid_example : IsValid (parser (memory 3 4 2 2) clients)
unfolding parse parse_basic_config set_policy parse_policy parse_server_config set_capacities
    parse_client_configs parse_clients parse_client parse_sizes parse_pattern
    validate_memory_configuration sum_tiers add_sizes within_limits split split_from
parse-IsValid_example =
    parse-IsValid decimal (options 3 (4 ∷ 2 ∷ 2 ∷ [])) (parser (memory 0 0 0 0) [])
      (parser (memory 3 4 2 2) clients) refl refl

validate-three_tiers_example :
    validate_memory_configuration (parser (memory 3 4 2 2) clients)
    ≡ ok
        (leb (demand 0 clients) 4 && (leb (demand 1 clients) 2 && leb (demand 2 clients) 2))
        (parser (memory 3 4 2 2) clients)
unfolding demand
validate-three_tiers_example =
    validate-three_tiers (parser (memory 3 4 2 2) clients) refl (and_client refl no_clients)
      (omega arith) (omega arith) (omega arith)

validate-two_tiers_example :
    validate_memory_configuration (parser (memory 2 4 0 8) (client (2 ∷ 1 ∷ []) ∷ []))
    ≡ ok false (parser (memory 2 4 0 8) (client (2 ∷ 1 ∷ []) ∷ []))
unfolding demand parse_server_config set_capacities
validate-two_tiers_example =
    validate-two_tiers (options 2 (4 ∷ 8 ∷ [])) (parser (memory 2 0 0 0) [])
      (parser (memory 2 4 0 8) []) (client (2 ∷ 1 ∷ []) ∷ []) refl refl (and_client refl no_clients)
      (omega arith) (omega arith) (omega arith)

abbrev server_clients : List (ClientConfig ℕ)
server_clients = client (2 ∷ 1 ∷ 1 ∷ []) ∷ client (3 ∷ 0 ∷ 1 ∷ []) ∷ []

create_base_page_id-disjoint_example : ◌≡◌ {A = ℕ} 1 1 × ◌≡◌ {A = ℕ} 2 2
unfolding client_pages base_page_ids create_base_page_id
create_base_page_id-disjoint_example =
    create_base_page_id-disjoint 3 server_clients (0 ∷ 4 ∷ []) 1 1 4 4 4 4 2 2
      (client (3 ∷ 0 ∷ 1 ∷ [])) (client (3 ∷ 0 ∷ 1 ∷ [])) (4, refl, (4, refl, omega arith)) refl
      refl refl refl refl refl refl (omega arith) (omega arith) refl

abbrev server : Server
server = record {
  world = no_ring;
  client_done_flags = false ∷ false ∷ [];
  base_page_id = 0 ∷ 4 ∷ [];
  manager_shutdown_flag = false;
  scanner_shutdown_flag = false;
}

handle_ends-Inv_example :
    Returns
      (λ u s'. Inv s' × (s'.client_done_flags ≡ set_all (1 ∷ 0 ∷ []) (false ∷ false ∷ [])))
      (handle_ends (1 ∷ 0 ∷ []) server)
unfolding all_done
handle_ends-Inv_example =
    handle_ends-Inv (1 ∷ 0 ∷ []) server (omega arith, (omega arith, tt))
      (record { together = refl; exact = refl })

parse-prints_example :
    Returns
      (λ ls s''. (s'' ≡ parser (memory 3 4 2 2) clients) × (length ls ≡ 24))
      (print_config (parser (memory 3 4 2 2) clients))
unfolding parse parse_basic_config set_policy parse_policy parse_server_config set_capacities
    parse_client_configs parse_clients parse_client parse_sizes parse_pattern
    validate_memory_configuration sum_tiers add_sizes within_limits split split_from line_count
    client_count
parse-prints_example =
    parse-prints decimal (options 3 (4 ∷ 2 ∷ 2 ∷ [])) (parser (memory 0 0 0 0) [])
      (parser (memory 3 4 2 2) clients) refl refl
