-- ===== src/Startup/Found.antt =====
-- Every page that a client asks for is in the page table.
use memory_tiering.Base.{
  ◌≢◌, ℕ, zero, suc, ◌+◌, ◌^◌, ◌<◌, ◌≤◌, ◌≡◌, sym, ap, ◌∙◌, subst, false, some, List, [], ◌∷◌,
  arith, add64, get_elem?,
}
use mathlib.Core.Option.{some-injective}
use memory_tiering.Base.Run.{Returns, Returns-mono}
use memory_tiering.Common.{ClientConfig, PageLayer}
use memory_tiering.Machine.{Machine}
use memory_tiering.Config.Limits.{AllSized, and_client, demand, three_of}
use memory_tiering.PageTable.{World, layer_info}
use memory_tiering.PageTable.Entries.{PageTableEntry, find}
use memory_tiering.PageTable.Regions.{Paging, Memory}
use memory_tiering.PageTable.Allocated.{init_page_table, init_page_table-Returns}
use memory_tiering.PageTable.Init.{fill_table}
use memory_tiering.PageTable.Init.Filled.{total}
use memory_tiering.PageTable.Init.Starts.{asked, fill_table-Started}
use memory_tiering.Server.{client_pages, base_page_ids, create_base_page_id}
use memory_tiering.Server.Pages.{ids_cons}
use memory_tiering.Generator
use memory_tiering.Generator.{Random, RandomLaws, Generator}
use memory_tiering.Generator.InRange.{generate_pids, generate_pids-lt}
use memory_tiering.Startup.{add_tier_sizes, client_page_size}

-- Both counts of a client's pages are the sum of its sizes.
client_page_size_lem :
    (a b d : ℕ) → a + b + d < 2 ^ 64 → client_page_size (a ∷ b ∷ d ∷ []) ≡ a + b + d
unfolding client_page_size add_tier_sizes
client_page_size_lem a b d h = omega (arith, h)

module _ {F : Type 0} where
  client_pages_three :
      (c : ClientConfig F) (a b d : ℕ)
      → c.tier_sizes ≡ a ∷ b ∷ d ∷ []
      → a + b + d < 2 ^ 64
      → client_pages 3 c ≡ some (a + b + d)
  unfolding client_pages
  client_pages_three c a b d e h =
      let same : add64 (add64 a b) d ≡ a + b + d = omega (arith, h) in rw e (ap some same)

  asked_cons :
      (x : ClientConfig F) (clients : List (ClientConfig F)) (a b d : ℕ)
      → x.tier_sizes ≡ a ∷ b ∷ d ∷ []
      → total (asked (x ∷ clients)) ≡ (a + b + d) + total (asked clients)
  unfolding demand
  asked_cons x clients a b d sizes = rw sizes (omega arith)

  -- The page ids of a client end below the number of all pages.
  pub ids_within :
      (t : ℕ) (clients : List (ClientConfig F)) (ids : List ℕ) (i base : ℕ) (c : ClientConfig F)
      → AllSized 3 clients
      → t + total (asked clients) < 2 ^ 64
      → base_page_ids 3 t clients ≡ some ids
      → get_elem? clients i ≡ some c
      → get_elem? ids i ≡ some base
      → base + client_page_size c.tier_sizes ≤ t + total (asked clients)
  ids_within t [] ids i base c sized small h e e' = absurd (cc)
  ids_within t (x ∷ clients) ids zero base c (and_client size sized) small h e e' =
      let (a, b, d, sizes) = three_of x.tier_sizes size in
      let all = asked_cons x clients a b d sizes in
      let (rest, o, q) =
        ids_cons 3 t (a + b + d) x clients
          (client_pages_three x a b d sizes (omega (arith, all, small))) (omega (arith, all, small))
          h in
      let base_eq = some-injective t base (subst (λ l. get_elem? l 0 ≡ some base) q e') in
      let own : client_page_size c.tier_sizes ≡ a + b + d =
        ap (λ y. client_page_size y.tier_sizes) (sym (some-injective x c e))
        ∙ ap client_page_size sizes
        ∙ client_page_size_lem a b d (omega (arith, all, small)) in
      omega (arith, base_eq, own, all)
  ids_within t (x ∷ clients) ids (suc i) base c (and_client size sized) small h e e' =
      let (a, b, d, sizes) = three_of x.tier_sizes size in
      let all = asked_cons x clients a b d sizes in
      let (rest, o, q) =
        ids_cons 3 t (a + b + d) x clients
          (client_pages_three x a b d sizes (omega (arith, all, small))) (omega (arith, all, small))
          h in
      let later =
        ids_within (t + (a + b + d)) clients rest i base c sized (omega (arith, all, small)) o e
          (subst (λ l. get_elem? l (suc i) ≡ some base) q e') in
      omega (arith, later, all)

  -- The same of the filling alone, from any addresses.
  asked-filled :
      {Engine : Type 0} (random : Random F Engine) (laws : RandomLaws random) (machine : Machine)
      (uninitialised : ℕ → ℕ) (bases : PageLayer → ℕ) (w : World) (clients : List (ClientConfig F))
      (ids : List ℕ) (i base : ℕ) (c : ClientConfig F) (one : F) (g : Engine)
      (m : Generator F Engine) (k j pid : ℕ)
      → w.server_config.num_tiers ≡ 3
      → w.table ≡ []
      → w.enable_cache_ring ≡ false
      → ((l : PageLayer) → (layer_info l w).count ≡ 0)
      → AllSized 3 clients
      → total (asked clients) < 2 ^ 64
      → ((l : PageLayer) → asked clients l ≤ (layer_info l w).capacity)
      → ((l : PageLayer) → (layer_info l w).capacity < 2 ^ 64)
      → create_base_page_id 3 clients ≡ some ids
      → get_elem? clients i ≡ some c
      → get_elem? ids i ≡ some base
      → 0 < client_page_size c.tier_sizes
      → Generator.create random c.pattern (client_page_size c.tier_sizes) one g ≡ some m
      → get_elem? (generate_pids random k m) j ≡ some pid
      → Returns
          (λ u w'. (e : PageTableEntry) × (find (add64 base pid) w'.table ≡ some e))
          (fill_table machine uninitialised bases clients w)
  unfolding create_base_page_id
  asked-filled random laws machine uninitialised bases w clients ids i base c one g m k j pid three
        empty off zero_counts sized few fits small h e e' pos made asked_for =
      let within = ids_within 0 clients ids i base c sized (omega (arith, few)) h e e' in
      let (m', made', below) =
        generate_pids-lt random laws c.pattern (client_page_size c.tier_sizes) one g pos
          (omega (arith, within, few)) in
      let same : m' ≡ m = some-injective m' m (sym made' ∙ made) in
      let lt : pid < client_page_size c.tier_sizes =
        below k j pid
          (subst (λ x. get_elem? (generate_pids random k x) j ≡ some pid) (sym same) asked_for) in
      Returns-mono
        (fill_table-Started machine uninitialised bases w clients three empty off zero_counts sized
          few fits small)
        (λ u w' s. s.present (add64 base pid) (omega (arith, within, lt, few)))

  -- With three tiers, no cache ring, an empty table and counts of zero, clients with three sizes each,
  -- fewer than 2^64 pages in all, that fit into the layers, and a kernel that grants each mapping that
  -- has bytes, never at the address 0, and each binding: `initPageTable` returns, and then each page
  -- that the generator of the i-th client asks for, if this client has a page, whatever its pattern, is
  -- in the page table under the page id that the server computes for it.
  pub asked-Found :
      {Engine : Type 0} (random : Random F Engine) (laws : RandomLaws random) (machine : Machine)
      (uninitialised : ℕ → ℕ) (paging : Paging) (w : World) (memory : Memory)
      (clients : List (ClientConfig F)) (ids : List ℕ) (i base : ℕ) (c : ClientConfig F) (one : F)
      (g : Engine) (m : Generator F Engine) (k j pid : ℕ)
      → ((n bytes addr : ℕ) → paging.mmap n bytes ≡ some addr → addr ≢ 0)
      → ((n bytes : ℕ) → bytes ≢ 0 → (addr : ℕ) × (paging.mmap n bytes ≡ some addr))
      → ((n addr bytes node : ℕ) → paging.mbind n addr bytes node ≡ 0)
      → w.server_config.num_tiers ≡ 3
      → w.table ≡ []
      → w.enable_cache_ring ≡ false
      → ((l : PageLayer) → (layer_info l w).count ≡ 0)
      → AllSized 3 clients
      → total (asked clients) < 2 ^ 64
      → ((l : PageLayer) → asked clients l ≤ (layer_info l w).capacity)
      → ((l : PageLayer) → (layer_info l w).capacity < 2 ^ 64)
      → create_base_page_id 3 clients ≡ some ids
      → get_elem? clients i ≡ some c
      → get_elem? ids i ≡ some base
      → 0 < client_page_size c.tier_sizes
      → Generator.create random c.pattern (client_page_size c.tier_sizes) one g ≡ some m
      → get_elem? (generate_pids random k m) j ≡ some pid
      → Returns
          (λ u o. (e : PageTableEntry) × (find (add64 base pid) o.world.table ≡ some e))
          (init_page_table paging machine uninitialised clients w memory)
  asked-Found random laws machine uninitialised paging w memory clients ids i base c one g m k j pid
        nonnull grants binds three empty off zero_counts sized few fits small h e e' pos made
        asked_for =
      Returns-mono
        (init_page_table-Returns paging nonnull grants binds machine uninitialised clients w memory
          three (λ w'. (e : PageTableEntry) × (find (add64 base pid) w'.table ≡ some e))
          (λ bases.
            asked-filled random laws machine uninitialised bases w clients ids i base c one g m k j
              pid three empty off zero_counts sized few fits small h e e' pos made asked_for))
        (λ u o (found, there). found)
