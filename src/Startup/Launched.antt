-- ===== src/Startup/Launched.antt =====
-- The system as main.cpp sets it up: the page table that the server fills, and the clients.
use memory_tiering.Base.{
  ℕ, zero, suc, ◌+◌, ◌^◌, ◌<◌, ◌≡◌, refl, sym, ap, subst, some, Option-cases, inl, inr, List, [],
  ◌∷◌, arith, add64, length, get_elem?,
}
use mathlib.Core.Option.{some-injective}
use memory_tiering.Common.{ClientConfig}
use memory_tiering.Generator.{Random, RandomLaws, Generator}
use memory_tiering.Generator.InRange.{IsReady, create-IsReady}
use memory_tiering.Client
use memory_tiering.Client.{Thread, timing}
use memory_tiering.Startup.{add_tier_sizes, client_page_size, create_clients}
use memory_tiering.Server.{client_pages, base_page_ids}

-- The client of a configuration, with its place as its id.
pub record IsMade (i : ℕ) {F Engine : Type 0} (c : ClientConfig F) (t : Thread F Engine)
    : Type 0 where
  pub named : t.client.client_id ≡ i
  pub ready : IsReady (client_page_size c.tier_sizes) t.client.generator
  pub starts : t.phase ≡ timing

-- The count of a client's pages is a machine word.
add_tier_sizes-lt : (n : ℕ) (sizes : List ℕ) → n < 2 ^ 64 → add_tier_sizes n sizes < 2 ^ 64
unfolding add_tier_sizes
add_tier_sizes-lt n [] h = h
add_tier_sizes-lt n (size ∷ sizes) h = add_tier_sizes-lt (add64 n size) sizes (omega arith)

module _ {F : Type 0} where
  -- Each client has pages.
  pub data AllPaged : List (ClientConfig F) → Type 0 where
    no_more : AllPaged []
    and_paged :
        {c : ClientConfig F} {clients : List (ClientConfig F)}
        → 0 < client_page_size c.tier_sizes
        → AllPaged clients
        → AllPaged (c ∷ clients)

  module _ {Engine : Type 0} (random : Random F Engine) (laws : RandomLaws random) (one : F)
      (seeds : ℕ → Engine) (running_time : ℕ) (rw_ratio : F) where
    abbrev thread_of : ℕ → Generator F Engine → Thread F Engine
    thread_of i m = record {
      client = record {
        client_id = i;
        running_time = running_time;
        generator = m;
        rw_ratio = rw_ratio;
      };
      phase = timing;
    }

    client-IsMade :
        (i : ℕ) (c : ClientConfig F)
        → 0 < client_page_size c.tier_sizes
        → (t : Thread F Engine) × (Client.create random one i running_time
              (client_page_size c.tier_sizes)
              c.pattern
              rw_ratio
              (seeds i)
            ≡ some t)
          × IsMade i c t
    unfolding Client.create client_page_size
    client-IsMade i c pos =
        let (m, e, ready) =
          create-IsReady random laws c.pattern (client_page_size c.tier_sizes) one (seeds i) pos
            (add_tier_sizes-lt 0 c.tier_sizes (omega arith)) in
        (
          thread_of i m,
          rw (Client.create, e) refl,
          record { named = refl; ready = ready; starts = refl },
        )

    abbrev pub MadeFrom : ℕ → List (ClientConfig F) → List (Thread F Engine) → Type 0
    MadeFrom i configs ts =
        (j : ℕ) (c : ClientConfig F)
        → get_elem? configs j ≡ some c
        → (t : Thread F Engine) × (get_elem? ts j ≡ some t) × IsMade (i + j) c t

    -- The loop makes a client of each configuration.
    pub create_clients-MadeFrom :
        (i : ℕ) (configs : List (ClientConfig F))
        → AllPaged configs
        → (ts : List (Thread F Engine)) × (create_clients random one seeds running_time rw_ratio i
              configs
            ≡ some ts)
          × MadeFrom i configs ts
    unfolding create_clients
    create_clients-MadeFrom i [] no_more = ([], refl, λ j c e. absurd (cc))
    create_clients-MadeFrom i (c ∷ configs) (and_paged pos more) =
        let (t, e, made) = client-IsMade i c pos in
        let (ts, es, all) = create_clients-MadeFrom (i + 1) configs more in
        (t ∷ ts, rw (e, create_clients, es) refl, each t made ts all)
      where
        each :
            (t : Thread F Engine) (made : IsMade i c t) (ts : List (Thread F Engine))
            → MadeFrom (i + 1) configs ts
            → MadeFrom i (c ∷ configs) (t ∷ ts)
        each t made ts all zero d e =
            let same = some-injective c d e in
            (
              t,
              refl,
              subst (λ x. IsMade (i + 0) x t) same (subst (λ k. IsMade k c t) (omega arith) made),
            )
        each t made ts all (suc j) d e =
            let (u, at, m) = all j d e in (u, at, subst (λ k. IsMade k d u) (omega arith) m)

  pub length-base_page_ids :
      (t : ℕ) (clients : List (ClientConfig F)) (ids : List ℕ)
      → base_page_ids 3 t clients ≡ some ids
      → length ids ≡ length clients
  unfolding base_page_ids
  length-base_page_ids t [] ids e = ap (length {0}) (sym (some-injective [] ids e))
  length-base_page_ids t (c ∷ clients) ids e = elim (Option-cases (client_pages 3 c)) [
    | inl o ↦ absurd (ground arith)
    | inr (n, o) ↦ elim (Option-cases (base_page_ids 3 (add64 t n) clients)) [
      | inl o' ↦ absurd (ground arith)
      | inr (rest, o') ↦
          let same : t ∷ rest ≡ ids = some-injective (t ∷ rest) ids (ground arith) in
          omega (arith, ap (length {0}) same, length-base_page_ids (add64 t n) clients rest o')
    ]
  ]
