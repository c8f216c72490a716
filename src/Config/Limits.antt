-- ===== src/Config/Limits.antt =====
-- What the validation of the memory configuration accepts.
use memory_tiering.Base.{
  ℕ, ◌+◌, ◌<◌, ◌^◌, ◌≡◌, refl, ap, ◌∙◌, true, false, Option, none, some, List, [], ◌∷◌, arith,
  add64, leb, length, get_elem?, ◌&&◌, Bool-cases, Option-cases, inl, inr, ◌==◌,
}
use memory_tiering.Base.Run.{ok, Accepts, Accepts-run}
use memory_tiering.Common.{ClientConfig}
use memory_tiering.Config.{
  ConfigParser, sum_tiers, add_sizes, within_limits, validate_memory_configuration, ParseResult,
  parse_server_config, set_capacities,
}

-- Each client has as many sizes as there are tiers.
pub data AllSized {F : Type 0} (n : ℕ) : List (ClientConfig F) → Type 0 where
  no_clients : AllSized n []
  and_client :
      {c : ClientConfig F} {cs : List (ClientConfig F)}
      → length c.tier_sizes ≡ n
      → AllSized n cs
      → AllSized n (c ∷ cs)

abbrev or_zero : Option ℕ → ℕ
or_zero none = 0
or_zero (some n) = n

pub three_of : (xs : List ℕ) → length xs ≡ 3 → (a b d : ℕ) × (xs ≡ a ∷ b ∷ d ∷ [])
three_of [] h = absurd (omega (arith, h))
three_of (a ∷ []) h = absurd (omega (arith, h))
three_of (a ∷ (b ∷ [])) h = absurd (omega (arith, h))
three_of (a ∷ (b ∷ (d ∷ []))) h = (a, b, d, refl)
three_of (a ∷ (b ∷ (d ∷ (e ∷ xs)))) h = absurd (omega (arith, h))

pub two_of : (xs : List ℕ) → length xs ≡ 2 → (a b : ℕ) × (xs ≡ a ∷ b ∷ [])
two_of [] h = absurd (omega (arith, h))
two_of (a ∷ []) h = absurd (omega (arith, h))
two_of (a ∷ (b ∷ [])) h = (a, b, refl)
two_of (a ∷ (b ∷ (d ∷ xs))) h = absurd (omega (arith, h))

module _ {F : Type 0} where
  -- The pages that the clients ask for on a tier, in ℕ.
  unfoldable pub demand : ℕ → List (ClientConfig F) → ℕ
  demand i [] = 0
  demand i (c ∷ cs) = or_zero (get_elem? c.tier_sizes i) + demand i cs

  sum_three :
      (a b d : ℕ) (clients : List (ClientConfig F))
      → AllSized 3 clients
      → a + demand 0 clients < 2 ^ 64
      → b + demand 1 clients < 2 ^ 64
      → d + demand 2 clients < 2 ^ 64
      → sum_tiers (a ∷ b ∷ d ∷ []) clients
        ≡ some ((a + demand 0 clients) ∷ (b + demand 1 clients) ∷ (d + demand 2 clients) ∷ [])
  unfolding sum_tiers add_sizes demand
  sum_three a b d [] sized h h' h'' = ground arith
  sum_three a b d (c ∷ cs) (and_client l sized) h h' h'' =
      let (x, y, z, e) = three_of c.tier_sizes l in
      let p = ap (λ xs. or_zero (get_elem? xs 0)) e in
      let p' = ap (λ xs. or_zero (get_elem? xs 1)) e in
      let p'' = ap (λ xs. or_zero (get_elem? xs 2)) e in
      let add : (add64 a x ≡ a + x) = omega (arith, h, p) in
      let add' : (add64 b y ≡ b + y) = omega (arith, h', p') in
      let add'' : (add64 d z ≡ d + z) = omega (arith, h'', p'') in
      let rest =
        sum_three (a + x) (b + y) (d + z) cs sized (omega (arith, h, p)) (omega (arith, h', p'))
          (omega (arith, h'', p'')) in
      rw (e, add, add', add'', rest) (ground arith)

  sum_two :
      (a b : ℕ) (clients : List (ClientConfig F))
      → AllSized 2 clients
      → a + demand 0 clients < 2 ^ 64
      → b + demand 1 clients < 2 ^ 64
      → sum_tiers (a ∷ b ∷ []) clients ≡ some ((a + demand 0 clients) ∷ (b + demand 1 clients) ∷ [])
  unfolding sum_tiers add_sizes demand
  sum_two a b [] sized h h' = ground arith
  sum_two a b (c ∷ cs) (and_client l sized) h h' =
      let (x, y, e) = two_of c.tier_sizes l in
      let p = ap (λ xs. or_zero (get_elem? xs 0)) e in
      let p' = ap (λ xs. or_zero (get_elem? xs 1)) e in
      let add : (add64 a x ≡ a + x) = omega (arith, h, p) in
      let add' : (add64 b y ≡ b + y) = omega (arith, h', p') in
      let rest = sum_two (a + x) (b + y) cs sized (omega (arith, h, p)) (omega (arith, h', p')) in
      rw (e, add, add', rest) (ground arith)

  -- With three tiers, three sizes per client and totals below 2^64, the validation returns whether
  -- the pages asked for on each tier are at most its capacity, and changes nothing.
  pub validate-three_tiers :
      (s : ConfigParser F)
      → s.server_memory_config.num_tiers ≡ 3
      → AllSized 3 s.client_configs
      → demand 0 s.client_configs < 2 ^ 64
      → demand 1 s.client_configs < 2 ^ 64
      → demand 2 s.client_configs < 2 ^ 64
      → validate_memory_configuration s
        ≡ ok
            (leb (demand 0 s.client_configs) s.server_memory_config.local_numa.capacity
              && (leb (demand 1 s.client_configs) s.server_memory_config.remote_numa.capacity
                  && leb (demand 2 s.client_configs) s.server_memory_config.pmem.capacity))
            s
  unfolding validate_memory_configuration within_limits
  validate-three_tiers s n sized h h' h'' =
      rw
        (
          n,
          sum_three 0 0 0 s.client_configs sized (omega (arith, h)) (omega (arith, h'))
              (omega (arith, h'')),
        )
        (ground arith)

  validate_two :
      (s : ConfigParser F)
      → s.server_memory_config.num_tiers ≡ 2
      → AllSized 2 s.client_configs
      → demand 0 s.client_configs < 2 ^ 64
      → demand 1 s.client_configs < 2 ^ 64
      → validate_memory_configuration s
        ≡ ok
            (leb (demand 0 s.client_configs) s.server_memory_config.local_numa.capacity
              && leb (demand 1 s.client_configs) s.server_memory_config.remote_numa.capacity)
            s
  unfolding validate_memory_configuration within_limits
  validate_two s n sized h h' =
      rw (n, sum_two 0 0 s.client_configs sized (omega (arith, h)) (omega (arith, h')))
        (ground arith)

  -- What `_parseServerConfig` leaves behind.
  abbrev pub ServerParsed : ConfigParser F → ConfigParser F → Type 0
  ServerParsed s s' =
      (s'.server_memory_config.num_tiers ≡ s.server_memory_config.num_tiers)
      × (s.server_memory_config.num_tiers ≡ 2 → s'.server_memory_config.remote_numa.capacity ≡ 0)
      × (s'.client_configs ≡ s.client_configs)
      × (s'.policy_config ≡ s.policy_config)

  pub parse_server_config-Accepts :
      (o : ParseResult F) (s : ConfigParser F) → Accepts (ServerParsed s) (parse_server_config o s)
  unfolding parse_server_config set_capacities
  parse_server_config-Accepts o s = elim (Option-cases o.mem_sizes) [
    | inl h ↦ rw h tt
    | inr ([], h) ↦
        rw h (elim (Bool-cases (length {A = ℕ} [] == s.server_memory_config.num_tiers)) [
          | inl k ↦ rw k tt
          | inr k ↦ rw k tt
        ])
    | inr (m ∷ ms, h) ↦
        rw h (elim (Bool-cases (length (m ∷ ms) == s.server_memory_config.num_tiers)) [
          | inl k ↦ rw k (elim (Bool-cases (s.server_memory_config.num_tiers == 3)) [
            | inl q ↦
                rw (q, set_capacities)
                  (elim (Option-cases (get_elem? (m ∷ ms) 1)) [
                    | inl z ↦ rw (z, set_capacities) tt
                    | inr (r, z) ↦
                        rw (z, set_capacities)
                          (refl, λ n. absurd (ground (arith, q, n)), refl, refl)
                  ])
            | inr q ↦ rw (q, set_capacities) (refl, λ n. refl, refl, refl)
          ])
          | inr k ↦ rw k tt
        ])
  ]

  -- With two tiers, whatever sizes `_parseServerConfig` accepted, and for clients with two sizes each
  -- whose totals on each tier are below 2^64: if they ask for a page of the second tier, the
  -- validation rejects them.
  pub validate-two_tiers :
      (o : ParseResult F) (s s' : ConfigParser F) (clients : List (ClientConfig F))
      → s.server_memory_config.num_tiers ≡ 2
      → parse_server_config o s ≡ ok true s'
      → AllSized 2 clients
      → demand 0 clients < 2 ^ 64
      → demand 1 clients < 2 ^ 64
      → 0 < demand 1 clients
      → let v = record s' { client_configs = clients } in
        validate_memory_configuration v ≡ ok false v
  validate-two_tiers o s s' clients n e sized h h' pos =
      let (tiers, remote, _, _) =
        Accepts-run (ServerParsed s) s' (parse_server_config-Accepts o s) e in
      let v = record s' { client_configs = clients } in
      let cap = remote n in
      let none_fits : (leb (demand 1 clients) v.server_memory_config.remote_numa.capacity ≡ false) =
        ground arith in
      elim (Bool-cases (leb (demand 0 clients) v.server_memory_config.local_numa.capacity)) [
        | inl k ↦ rw k at (rw none_fits at (validate_two v (tiers ∙ n) sized h h'))
        | inr k ↦ rw k at (rw none_fits at (validate_two v (tiers ∙ n) sized h h'))
      ]
