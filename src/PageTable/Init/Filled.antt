-- ===== src/PageTable/Init/Filled.antt =====
-- What `initPageTable` leaves behind when there is no cache ring.
use memory_tiering.Base.{
  ℕ, zero, suc, ◌+◌, ◌*◌, ◌/◌, ◌^◌, ◌≤◌, ◌<◌, ◌≡◌, ◌≢◌, refl, sym, ap, ◌∙◌, Bool, true, false, none,
  some, [], ◌∷◌, if◌then◌else◌, inc64, add64, length, arith, Bool-cases, inl, inr, ◌==◌, eq_of_==,
  ne_of_==, subst,
}
use mathlib.Core.Path.{subst₂}
use memory_tiering.Base.Run.{ok, Returns, returns, Returns-bind, Returns-mono}
use memory_tiering.Common.{PageLayer, numa_local, numa_remote, pmem, ClientConfig}
use memory_tiering.Machine.{Machine}
use memory_tiering.PageTable.{World, layer_info, set_count, reading}
use memory_tiering.PageTable.Entries.{PageTableEntry, Table, emplace, find, same_layer, pages_on}
use memory_tiering.PageTable.Consistent.{count-set_count, capacity-set_count, layer_info-same}
use memory_tiering.PageTable.Spec.{uses_ring_off, num_tiers-set}
use memory_tiering.PageTable.Init.{
  Filling, offset, advance, add_page, new_entry, fill_pages, fill_layer, fill_client,
}

pub find-emplace_ne :
    (k i : ℕ) (e : PageTableEntry) (t : Table) → k ≢ i → find i (emplace k e t) ≡ find i t
unfolding find emplace
find-emplace_ne k i e [] ne = ground arith
find-emplace_ne k i e ((j, d) ∷ t) ne = ground (arith, find-emplace_ne k i e t ne)

pub find-emplace_self :
    (k : ℕ) (e : PageTableEntry) (t : Table) → find k t ≡ none → find k (emplace k e t) ≡ some e
unfolding find emplace
find-emplace_self k e [] h = ground arith
find-emplace_self k e ((j, d) ∷ t) h = ground (arith, find-emplace_self k e t)

length-emplace :
    (k : ℕ) (e : PageTableEntry) (t : Table)
    → find k t ≡ none
    → length (emplace k e t) ≡ suc (length t)
unfolding find emplace
length-emplace k e [] h = refl
length-emplace k e ((j, d) ∷ t) h = ground (arith, length-emplace k e t)

pages_on-emplace :
    (l : PageLayer) (k : ℕ) (e : PageTableEntry) (t : Table)
    → find k t ≡ none
    → pages_on l (emplace k e t) ≡ pages_on l t + (if same_layer e.page_layer l then 1 else 0)
unfolding find emplace pages_on
pages_on-emplace l k e [] h = omega arith
pages_on-emplace l k e ((j, d) ∷ t) h = ground (arith, pages_on-emplace l k e t)

abbrev pub Tally : Type 0
Tally = PageLayer → ℕ

abbrev pub total : Tally → ℕ
total n = n numa_local + n numa_remote + n pmem

abbrev pub plus : PageLayer → ℕ → Tally → Tally
plus l k n l' = n l' + (if same_layer l l' then k else 0)

pub total-plus : (l : PageLayer) (k : ℕ) (n : Tally) → total (plus l k n) ≡ total n + k
total-plus numa_local k n = omega arith
total-plus numa_remote k n = omega arith
total-plus pmem k n = omega arith

-- The table of `v` holds `n` pages per layer, under the page ids below `index`, and the counts are `c`;
-- the rest is as in `w`.
pub record Filled (w : World) (n c : Tally) (v : World) (index : ℕ) : Type 0 where
  pub off : v.enable_cache_ring ≡ false
  pub at_end : index ≡ length v.table
  pub size : length v.table ≡ total n
  pub fresh : (j : ℕ) → length v.table ≤ j → find j v.table ≡ none
  pub present : (j : ℕ) → j < length v.table → (e : PageTableEntry) × (find j v.table ≡ some e)
  pub pages : (l : PageLayer) → pages_on l v.table ≡ n l
  pub counts : (l : PageLayer) → (layer_info l v).count ≡ c l
  pub capacities : (l : PageLayer) → (layer_info l v).capacity ≡ (layer_info l w).capacity
  pub same_tiers : v.server_config.num_tiers ≡ w.server_config.num_tiers
  pub same_scan_index : v.scan_index ≡ w.scan_index
  pub same_metrics : v.metrics ≡ w.metrics

abbrev pub FilledBy : World → Tally → Tally → Unit {0} → Filling → Type 0
FilledBy w n c u s = Filled w n c s.world s.current_index

pub Filled-same :
    (w : World) (n n' c c' : Tally) (v : World) (index : ℕ)
    → ((l : PageLayer) → n l ≡ n' l)
    → ((l : PageLayer) → c l ≡ c' l)
    → Filled w n c v index
    → Filled w n' c' v index
Filled-same w n n' c c' v index e e' f = record {
  off = f.off;
  at_end = f.at_end;
  size = omega (arith, f.size, e numa_local, e numa_remote, e pmem);
  fresh = f.fresh;
  present = f.present;
  pages = λ l. f.pages l ∙ e l;
  counts = λ l. f.counts l ∙ e' l;
  capacities = f.capacities;
  same_tiers = f.same_tiers;
  same_scan_index = f.same_scan_index;
  same_metrics = f.same_metrics;
}

-- After one page.
abbrev with_page : ℕ → PageTableEntry → World → World
with_page k e w = record w { table = emplace k e w.table; ticks = w.ticks + 1 }

module _ (machine : Machine) (uninitialised : ℕ → ℕ) where
  abbrev entry_at : ℕ → PageLayer → ℕ → PageTableEntry
  entry_at addr l n = record {
    page_address = addr;
    page_layer = l;
    last_access_time_ms = machine.steady_clock n / 1000;
    access_cnt = uninitialised n;
    ring_node_ptr = 0;
  }

  add_page-ok :
      (k addr : ℕ) (l : PageLayer) (w : World)
      → w.enable_cache_ring ≡ false
      → add_page machine uninitialised k addr l w ≡ ok tt (with_page k (entry_at addr l w.ticks) w)
  unfolding add_page new_entry reading
  add_page-ok k addr l w off = rw (uses_ring_off w l off) refl

  page-Filled :
      (w : World) (n c : Tally) (v : World) (index : ℕ) (l : PageLayer) (addr : ℕ)
      → Filled w n c v index
      → total n + 1 < 2 ^ 64
      → Filled w (plus l 1 n) c (with_page index (entry_at addr l v.ticks) v) (inc64 index)
  page-Filled w n c v index l addr f small =
      let e = entry_at addr l v.ticks in
      let absent : find index v.table ≡ none = f.fresh index (omega (arith, f.at_end)) in
      let longer = length-emplace index e v.table absent in
      record {
        off = f.off;
        at_end = omega (arith, longer, f.at_end, f.size, small);
        size = omega (arith, longer, f.size, total-plus l 1 n);
        fresh = λ j h.
            find-emplace_ne index j e v.table (λ z. omega (arith, longer, f.at_end, h, z))
            ∙ f.fresh j (omega (arith, longer, h));
        present = λ j h. elim (Bool-cases (index == j)) [
          | inl same ↦
              let here : index ≡ j = eq_of_== index j same in
              (
                e,
                subst (λ k. find k (emplace index e v.table) ≡ some e) here
                    (find-emplace_self index e v.table absent),
              )
          | inr other ↦
              let (d, there) =
                f.present j (omega (arith, h, longer, f.at_end, ne_of_== index j other)) in
              (d, find-emplace_ne index j e v.table (ne_of_== index j other) ∙ there)
        ];
        pages = λ l'. omega (arith, pages_on-emplace l' index e v.table absent, f.pages l');
        counts =
            λ l'. ap (λ i. i.count) (layer_info-same v (with_page index e v) l' refl) ∙ f.counts l';
        capacities = λ l'.
            ap (λ i. i.capacity) (layer_info-same v (with_page index e v) l' refl)
            ∙ f.capacities l';
        same_tiers = f.same_tiers;
        same_scan_index = f.same_scan_index;
        same_metrics = f.same_metrics;
      }

  pub world-advance : (l : PageLayer) (s : Filling) → (advance l s).world ≡ s.world
  unfolding advance
  world-advance numa_local s = refl
  world-advance numa_remote s = refl
  world-advance pmem s = refl

  pub index-advance :
      (l : PageLayer) (s : Filling) → (advance l s).current_index ≡ inc64 s.current_index
  unfolding advance
  index-advance numa_local s = refl
  index-advance numa_remote s = refl
  index-advance pmem s = refl

  plus-suc :
      (l : PageLayer) (k : ℕ) (n : Tally) (l' : PageLayer)
      → plus l k (plus l 1 n) l' ≡ plus l (suc k) n l'
  plus-suc l k n l' = ground (arith, Bool-cases (same_layer l l'))

  plus-zero : (l : PageLayer) (n : Tally) (l' : PageLayer) → n l' ≡ plus l 0 n l'
  plus-zero l n l' = ground (arith, Bool-cases (same_layer l l'))

  below_total : (n : Tally) (l : PageLayer) → n l ≤ total n
  below_total n numa_local = omega arith
  below_total n numa_remote = omega arith
  below_total n pmem = omega arith

  counted :
      (n : Tally) (k : ℕ) (b : Bool) (count m : ℕ)
      → count ≡ m
      → m + k < 2 ^ 64
      → (if b then add64 count k else count) ≡ m + (if b then k else 0)
  counted n k true count m e small = omega arith
  counted n k false count m e small = omega arith

  set_count-Filled :
      (w : World) (n : Tally) (l : PageLayer) (k : ℕ) (v : World) (index : ℕ)
      → Filled w (plus l k n) n v index
      → total n + k < 2 ^ 64
      → Filled w (plus l k n) (plus l k n) (set_count l (λ count. add64 count k) v) index
  unfolding set_count
  set_count-Filled w n l k v index f small = record {
    off = f.off;
    at_end = f.at_end;
    size = f.size;
    fresh = f.fresh;
    present = f.present;
    pages = f.pages;
    counts = λ l'.
        count-set_count v (λ count. add64 count k) l l'
        ∙ counted n k (same_layer l l') (layer_info l' v).count (n l') (f.counts l')
            (omega (arith, below_total n l', small));
    capacities = λ l'. capacity-set_count v (λ count. add64 count k) l l' ∙ f.capacities l';
    same_tiers = num_tiers-set l _ v.server_config ∙ f.same_tiers;
    same_scan_index = f.same_scan_index;
    same_metrics = f.same_metrics;
  }

  module _ (bases : PageLayer → ℕ) (w : World) where
    fill_pages-Filled :
        (l : PageLayer) (k : ℕ) (n c : Tally) (s : Filling)
        → Filled w n c s.world s.current_index
        → total n + k < 2 ^ 64
        → Returns (FilledBy w (plus l k n) c) (fill_pages machine uninitialised bases l k s)
    unfolding fill_pages
    fill_pages-Filled l zero n c s f small =
        returns
          (Filled-same w n (plus l 0 n) c c s.world s.current_index (plus-zero l n) (λ l'. refl) f)
    fill_pages-Filled l (suc k) n c s f small =
        let addr = bases l + offset l s * 4096 in
        let v = with_page s.current_index (entry_at addr l s.world.ticks) s.world in
        let s' = advance l (record s { world = v }) in
        let g = page-Filled w n c s.world s.current_index l addr f (omega (arith, small)) in
        let g' : Filled w (plus l 1 n) c s'.world s'.current_index =
          subst₂ (Filled w (plus l 1 n) c) (sym (world-advance l (record s { world = v })))
            (sym (index-advance l (record s { world = v }))) g in
        rw (add_page-ok s.current_index addr l s.world f.off) (
          Returns-mono
            (fill_pages-Filled l k (plus l 1 n) c s' g' (omega (arith, total-plus l 1 n, small)))
            λ u s''.
              Filled-same w _ _ c c s''.world s''.current_index (plus-suc l k n) (λ l'. refl))

    pub fill_layer-Filled :
        (l : PageLayer) (k : ℕ) (n : Tally) (s : Filling)
        → Filled w n n s.world s.current_index
        → total n + k < 2 ^ 64
        → Returns
            (FilledBy w (plus l k n) (plus l k n))
            (fill_layer machine uninitialised bases l (some k) s)
    unfolding fill_layer
    fill_layer-Filled l k n s f small =
        Returns-bind (fill_pages-Filled l k n n s f small)
          λ u s' g. returns (set_count-Filled w n l k s'.world s'.current_index g small)

    -- The pages of a client with three tiers.
    abbrev pub plus_three : ℕ → ℕ → ℕ → Tally → Tally
    plus_three a b d n = plus pmem d (plus numa_remote b (plus numa_local a n))

    pub fill_three :
        {F : Type 0} (c : ClientConfig F) (a b d : ℕ) (n : Tally) (s : Filling)
        → c.tier_sizes ≡ a ∷ b ∷ d ∷ []
        → Filled w n n s.world s.current_index
        → total n + (a + b + d) < 2 ^ 64
        → Returns
            (FilledBy w (plus_three a b d n) (plus_three a b d n))
            (fill_client machine uninitialised bases 3 c s)
    unfolding fill_client
    fill_three c a b d n s e f small = rw e (
        Returns-bind (fill_layer-Filled numa_local a n s f (omega arith)) λ u s1 f1.
          Returns-bind (fill_layer-Filled numa_remote b (plus numa_local a n) s1 f1 (omega arith))
            λ u' s2 f2.
              fill_layer-Filled pmem d (plus numa_remote b (plus numa_local a n)) s2 f2
                (omega arith))
