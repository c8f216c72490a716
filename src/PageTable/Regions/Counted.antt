-- ===== src/PageTable/Regions/Counted.antt =====
-- The constructor of the page table counts the pages that its filling then adds.
use memory_tiering.Base.{ℕ, ◌+◌, ◌^◌, ◌<◌, ◌≡◌, refl, ap, ◌∙◌, some, List, [], ◌∷◌, add64, arith}
use memory_tiering.Common.{ClientConfig, numa_local, numa_remote, pmem}
use memory_tiering.Config.Limits.{AllSized, and_client, demand, three_of}
use memory_tiering.PageTable.Init.Filled.{total}
use memory_tiering.PageTable.Init.Starts.{asked, demand-cons}
use memory_tiering.PageTable.Regions.{Regions, no_regions, count_client, count_clients}

abbrev loads : ℕ → ℕ → ℕ → Regions
loads a b d = record no_regions { local_page_load = a; remote_page_load = b; pmem_page_load = d }

loads_same : {a b d a' b' d' : ℕ} → a ≡ a' → b ≡ b' → d ≡ d' → loads a b d ≡ loads a' b' d'
loads_same p q r = rw (p, q, r) refl

assoc : (a b d : ℕ) → a + b + d ≡ a + (b + d)
assoc a b d = omega arith

none_more : (a : ℕ) → 0 + a ≡ a
none_more a = omega arith

module _ {F : Type 0} where
  counted_from :
      (clients : List (ClientConfig F)) (x y z : ℕ)
      → AllSized 3 clients
      → x + y + z + total (asked clients) < 2 ^ 64
      → count_clients 3 clients (loads x y z)
        ≡ some (
            loads
              (x + asked clients numa_local)
              (y + asked clients numa_remote)
              (z + asked clients pmem))
  unfolding count_clients count_client demand
  counted_from [] x y z sized small =
      let p : x ≡ x + 0 = omega arith in
      let q : y ≡ y + 0 = omega arith in
      let r : z ≡ z + 0 = omega arith in
      ap some
        (ap (λ x. loads x y z) p ∙ ap (λ y. loads (x + 0) y z) q ∙ ap (loads (x + 0) (y + 0)) r)
  counted_from (c ∷ clients) x y z (and_client size sized) small =
      let (a, b, d, e) = three_of c.tier_sizes size in
      let (p, q, r) = demand-cons c clients a b d e in
      let px : add64 x a ≡ x + a = omega (arith, p, q, r, small) in
      let py : add64 y b ≡ y + b = omega (arith, p, q, r, small) in
      let pz : add64 z d ≡ z + d = omega (arith, p, q, r, small) in
      let later =
        counted_from clients (x + a) (y + b) (z + d) sized (omega (arith, p, q, r, small)) in
      rw e (
        ap (count_clients 3 clients) (loads_same px py pz)
        ∙ later
        ∙ ap some (
            loads_same (assoc x a (demand 0 clients)) (assoc y b (demand 1 clients))
              (assoc z d (demand 2 clients))))

  -- With three tiers and clients with three sizes each, fewer than 2^64 pages in all, the constructor
  -- reads no size out of range, and counts for each region the pages that the clients ask for on it.
  pub count_clients-asked :
      (clients : List (ClientConfig F))
      → AllSized 3 clients
      → total (asked clients) < 2 ^ 64
      → count_clients 3 clients no_regions
        ≡ some (record no_regions {
          local_page_load = asked clients numa_local;
          remote_page_load = asked clients numa_remote;
          pmem_page_load = asked clients pmem;
        })
  count_clients-asked clients sized few =
      counted_from clients 0 0 0 sized (omega (arith, few))
      ∙ ap some (
          loads_same (none_more (asked clients numa_local)) (none_more (asked clients numa_remote))
            (none_more (asked clients pmem)))
