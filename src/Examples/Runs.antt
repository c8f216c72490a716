-- ===== src/Examples/Runs.antt =====
-- The run of the whole program on one client of four pages.
use memory_tiering.Base.{
  ℕ, ◌-◌, ◌%◌, ◌^◌, ◌≡◌, ◌<◌, refl, zero, suc, some, true, List, [], ◌∷◌, ◌++◌, arith, length,
  get_elem?,
}
use memory_tiering.Base.Run.{Run, ok, assert_failed, fault, exit_failure, uncaught, out_of_fuel}
use memory_tiering.Common.{numa_local, numa_remote, pmem, uniform}
use memory_tiering.Config.Limits.{no_clients, and_client, demand}
use memory_tiering.PageTable.{
  World, layer_info, set_layer_info, set_count, on_page, access_page_of, access_entry, access_page,
  get_time_ns, reading, update_entry, count_event, now_ms,
}
use memory_tiering.PageTable.Entries.{find, emplace}
use memory_tiering.PageTable.Tally.{total_accesses}
use memory_tiering.PageTable.Init.{
  fill_table, fill_clients, fill_client, fill_layer, fill_pages, add_page, new_entry, advance,
  offset,
}
use memory_tiering.RingBuffer
use memory_tiering.RingBuffer.{push, pop}
use memory_tiering.Generator
use memory_tiering.Generator.{Generator, generate_pid, generate_type, draw}
use memory_tiering.Client
use memory_tiering.Client.{
  Client, Thread, timing, end_msg, turn, turn_at, read_clock, after_push, next_message,
}
use memory_tiering.Server
use memory_tiering.Server.{
  client_pages, base_page_ids, create_base_page_id, handle_client_message, handle_access,
  handle_end, mark_done, all_done, signal_shutdown, on_world, no_flags,
}
use memory_tiering.Delivery.{
  start, pushed, client_turn, client_steps, manager_pops, Reach, here, next,
}
use memory_tiering.Delivery.Within.{accesses}
use memory_tiering.Delivery.Finish.{IsOver}
use memory_tiering.Startup.{add_tier_sizes, client_page_size, create_clients}
use memory_tiering.Startup.Launched.{no_more, and_paged}
use memory_tiering.Startup.Runs.{launched_counts, launched_ends, launched_report}
use memory_tiering.Startup.Ending.{print_totals}
use memory_tiering.Metrics.Print.{
  Statistics, said, three_tier_counts, latency_lines, three_tier_migrations, throughput_lines,
}
use memory_tiering.Examples.Tables.{double, machine, blank, one_client, ops, policy}
use memory_tiering.Examples.Threads.{random, random-laws, messages, SystemOf, read_first}
use memory_tiering.Examples.Ends.{moves, typed}

abbrev result : Run World (Unit {0}) → World
result (ok u w) = w
result assert_failed = blank
result fault = blank
result exit_failure = blank
result uncaught = blank
result out_of_fuel = blank

abbrev filled : World
filled = result (fill_table machine (λ n. 0) (λ l. 4096) one_client blank)

abbrev client : ℕ → Client ℕ ℕ
client i = record {
  client_id = 0;
  running_time = 1;
  generator = record {
    pattern = uniform;
    rng = 0;
    memory_space_size = 4;
    uniform_dist = (0, 3);
    hot_pages = [];
    hot_dist = (0, 2 ^ 64 - 1);
    zipf_prob = [];
  };
  rw_ratio = 5;
}

abbrev first_state : SystemOf
first_state = start messages 1 2 client (0 ∷ []) filled

-- The client asks for a page, and the manager accesses it.
record Served : Type 0 where
  state : SystemOf
  reach : Reach machine random messages ops policy 3 1 first_state state

served : Served
unfolding start client_turn turn turn_at read_clock after_push next_message generate_pid
    generate_type draw pushed push pop RingBuffer.create Server.create no_flags
    handle_client_message handle_access on_world access_page_of access_entry access_page get_time_ns
    now_ms reading update_entry count_event find on_page fill_table fill_clients fill_client
    fill_layer fill_pages add_page new_entry advance offset emplace set_count layer_info
    set_layer_info
served = record {
  state = _;
  reach =
      next (next (next here (client_steps 0 0 (omega arith))) (client_steps 0 0 (omega arith)))
        (manager_pops read_first refl refl refl);
}

-- The client's time is over, and the manager handles its END.
record Ended : Type 0 where
  state : SystemOf
  reach : Reach machine random messages ops policy 3 1 first_state state
  down : state.server.manager_shutdown_flag ≡ true

ended : Ended
unfolding start client_turn turn turn_at read_clock after_push next_message generate_pid
    generate_type draw pushed push pop RingBuffer.create Server.create no_flags
    handle_client_message handle_end mark_done all_done signal_shutdown handle_access on_world
    access_page_of access_entry access_page get_time_ns now_ms reading update_entry count_event find
    on_page fill_table fill_clients fill_client fill_layer fill_pages add_page new_entry advance
    offset emplace set_count layer_info set_layer_info served
ended = record {
  state = _;
  reach =
      next
        (next (next served.reach (client_steps 0 1 (omega arith))) (client_steps 0 2 (omega arith)))
        (manager_pops (end_msg 0) refl refl refl);
  down = refl;
}

abbrev statistics : Statistics ℕ
statistics = record {
  min = λ l. 1;
  max = λ l. 9;
  mean = λ l. 5;
  extended_p_square = λ i l. i;
  to_uint64 = λ x. x;
  tenths = λ k. k;
}

abbrev threads : List (Thread ℕ ℕ)
threads = record { client = client 0; phase = timing } ∷ []

listed : (i : ℕ) → i < 1 → get_elem? threads i ≡ some (record { client = client i; phase = timing })
listed zero h = refl
listed (suc i) h = absurd (omega (arith, h))

launched_counts_example :
    (length served.state.server.world.metrics.access_latency ≡ accesses served.state.handled)
    × (total_accesses served.state.server.world.metrics.now
        ≡ accesses served.state.handled % 2 ^ 64)
unfolding layer_info demand client_pages base_page_ids create_base_page_id Generator.create
    Client.create add_tier_sizes client_page_size create_clients fill_table fill_clients fill_client
    fill_layer fill_pages add_page new_entry advance offset emplace set_count set_layer_info reading
launched_counts_example =
    launched_counts random random-laws machine (λ n. 0) (λ l. 4096) blank one_client 1 (λ i. 0) 1 5
      messages ops policy moves typed 2 refl refl refl refl refl refl
      (elim [ numa_local ↦ refl | numa_remote ↦ refl | pmem ↦ refl ]) (and_client refl no_clients)
      (and_paged (omega arith) no_more) (omega arith) (omega arith)
      (elim [ numa_local ↦ omega arith | numa_remote ↦ omega arith | pmem ↦ omega arith ])
      (elim [ numa_local ↦ omega arith | numa_remote ↦ omega arith | pmem ↦ omega arith ]) filled
      refl (0 ∷ []) refl threads refl client listed served.reach

launched_ends_example :
    (t : SystemOf) × Reach machine random messages ops policy 3 1 served.state t
    × IsOver machine random messages ops policy 3 1 t
unfolding layer_info demand client_pages base_page_ids create_base_page_id Generator.create
    Client.create add_tier_sizes client_page_size create_clients fill_table fill_clients fill_client
    fill_layer fill_pages add_page new_entry advance offset emplace set_count set_layer_info reading
launched_ends_example =
    launched_ends random random-laws machine (λ n. 0) (λ l. 4096) blank one_client 1 (λ i. 0) 1 5
      messages ops policy moves typed 2 refl refl refl refl refl refl
      (elim [ numa_local ↦ refl | numa_remote ↦ refl | pmem ↦ refl ]) (and_client refl no_clients)
      (and_paged (omega arith) no_more) (omega arith) (omega arith)
      (elim [ numa_local ↦ omega arith | numa_remote ↦ omega arith | pmem ↦ omega arith ])
      (elim [ numa_local ↦ omega arith | numa_remote ↦ omega arith | pmem ↦ omega arith ]) filled
      refl (0 ∷ []) refl threads refl client listed served.reach (omega arith)

launched_report_example :
    print_totals double statistics 3 ended.state.server.world.metrics
    ≡ three_tier_counts double statistics ended.state.server.world.metrics.now
      ++ (latency_lines double statistics "  Max:  " ended.state.server.world.metrics.access_latency
          ++ (three_tier_migrations double statistics ended.state.server.world.metrics.now
              ++ (throughput_lines double statistics
                    (accesses ended.state.sent % 2 ^ 64)
                    ended.state.server.world.metrics.now.total_latency
                  ++ (said "===================================" ∷ []))))
unfolding layer_info demand client_pages base_page_ids create_base_page_id Generator.create
    Client.create add_tier_sizes client_page_size create_clients fill_table fill_clients fill_client
    fill_layer fill_pages add_page new_entry advance offset emplace set_count set_layer_info reading
launched_report_example =
    launched_report random random-laws machine (λ n. 0) (λ l. 4096) blank one_client 1 (λ i. 0) 1 5
      messages ops policy moves typed 2 refl refl refl refl refl refl
      (elim [ numa_local ↦ refl | numa_remote ↦ refl | pmem ↦ refl ]) (and_client refl no_clients)
      (and_paged (omega arith) no_more) (omega arith) (omega arith)
      (elim [ numa_local ↦ omega arith | numa_remote ↦ omega arith | pmem ↦ omega arith ])
      (elim [ numa_local ↦ omega arith | numa_remote ↦ omega arith | pmem ↦ omega arith ]) filled
      refl (0 ∷ []) refl threads refl client listed ended.reach double statistics ended.down
