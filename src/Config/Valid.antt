-- ===== src/Config/Valid.antt =====
-- What a configuration that `parse` accepts is known to be.
use text.Mathlib.Text.{◌==◌ as str_eq}
use text.Mathlib.TextEquality.{eq_iff}
use mathlib.Core.Option.{some-injective}
use memory_tiering.Base.{
  ℕ, suc, ◌≤◌, ◌≡◌, refl, sym, ap, ◌∙◌, true, Option, some, List, [], ◌∷◌, ◌++◌, arith, ltb, length,
  subst, Bool-cases, Option-cases, inl, inr, ◌==◌, ◌||◌, eq_of_==,
}
use Prim.Native.String.{String}
use memory_tiering.Base.Run.{ok, Accepts, Accepts-run, Accepts-and, Accepts-if, and_also}
use memory_tiering.Common.{ClientConfig, PolicyConfig, PolicyVariant, ServerMemoryConfig}
use memory_tiering.Scanner.Policy.{IsTyped, lru_typed, frequency_typed, hybrid_typed}
use memory_tiering.Config.{
  ConfigParser, ParseResult, parse_policy, parse_pattern, set_policy, parse_basic_config,
  parse_server_config, parse_sizes, parse_client, parse_clients, parse_client_configs,
  validate_memory_configuration, parse, sum_tiers, zeros, within_limits, capacities,
}
use memory_tiering.Config.Split.{split}
use memory_tiering.Config.Limits.{
  AllSized, no_clients, and_client, ServerParsed, parse_server_config-Accepts,
}

name_of : (s t : String) → str_eq s t ≡ true → s ≡ t
name_of s t h = let (to, from) = eq_iff s t in to h

module _ {F : Type 0} where
  -- Two or three tiers, a policy whose parameters are those of its name, and a size per tier for each
  -- client.
  pub record IsValid (s : ConfigParser F) : Type 0 where
    pub tiers_low : 2 ≤ s.server_memory_config.num_tiers
    pub tiers_high : s.server_memory_config.num_tiers ≤ 3
    pub typed : IsTyped s.policy_config
    pub sized : AllSized s.server_memory_config.num_tiers s.client_configs

  AllSized-append :
      (n : ℕ) (cs : List (ClientConfig F)) (c : ClientConfig F)
      → AllSized n cs
      → length c.tier_sizes ≡ n
      → AllSized n (cs ++ (c ∷ []))
  AllSized-append n [] c no_clients h = and_client h no_clients
  AllSized-append n (d ∷ cs) c (and_client l sized) h =
      and_client l (AllSized-append n cs c sized h)

  parse_policy-IsTyped :
      (o : ParseResult F) (v : PolicyVariant F) (p : PolicyConfig F)
      → parse_policy o ≡ some v
      → p.policy_type ≡ o.policy_type
      → p.config ≡ v
      → IsTyped p
  unfolding parse_policy
  parse_policy-IsTyped o v p e n c = elim (Bool-cases (str_eq o.policy_type "lru")) [
    | inl h ↦
        lru_typed _ (n ∙ name_of o.policy_type "lru" h) (c ∙ sym (some-injective _ _ (rw h at e)))
    | inr h ↦ elim (Bool-cases (str_eq o.policy_type "frequency")) [
      | inl k ↦
          frequency_typed _ (n ∙ name_of o.policy_type "frequency" k)
            (c ∙ sym (some-injective _ _ (rw (h, k) at e)))
      | inr k ↦ elim (Bool-cases (str_eq o.policy_type "hybrid")) [
        | inl l ↦
            hybrid_typed _ (n ∙ name_of o.policy_type "hybrid" l)
              (c ∙ sym (some-injective _ _ (rw (h, k, l) at e)))
        | inr l ↦ absurd (let e' = rw (h, k, l) at e in cc)
      ]
    ]
  ]

  -- What `_parseBasicConfig` leaves behind.
  abbrev BasicParsed : ConfigParser F → ConfigParser F → Type 0
  BasicParsed s s' =
      (2 ≤ s'.server_memory_config.num_tiers)
      × (s'.server_memory_config.num_tiers ≤ 3)
      × IsTyped s'.policy_config
      × (s'.client_configs ≡ s.client_configs)

  parse_basic_config-Accepts :
      (o : ParseResult F) (s : ConfigParser F) → Accepts (BasicParsed s) (parse_basic_config o s)
  unfolding parse_basic_config set_policy parse_policy
  parse_basic_config-Accepts o s = elim (Option-cases o.running_time) [
    | inl h ↦ rw h tt
    | inr (t, h) ↦ rw h (elim (Bool-cases (ltb o.num_tiers 2 || ltb 3 o.num_tiers)) [
      | inl k ↦ rw k tt
      | inr k ↦ rw k (elim (Option-cases (parse_policy o)) [
        | inl z ↦ rw (z, set_policy) tt
        | inr (v, z) ↦
            rw (z, set_policy)
              (ground (arith, k), ground (arith, k), parse_policy-IsTyped o v _ z refl refl, refl)
      ])
    ])
  ]

  module _ (stoul : List ℕ → Option ℕ) (o : ParseResult F) where
    length-parse_sizes :
        (texts : List (List ℕ)) (sizes : List ℕ)
        → parse_sizes stoul o texts ≡ some sizes
        → length sizes ≡ length texts
    unfolding parse_sizes
    length-parse_sizes [] sizes e = rw (sym (some-injective _ _ e)) refl
    length-parse_sizes (t ∷ texts) sizes e = elim (Option-cases (stoul t)) [
      | inl h ↦ absurd (let e' = rw (h, parse_sizes) at e in cc)
      | inr (n, h) ↦ elim (Option-cases (parse_sizes stoul o texts)) [
        | inl k ↦ absurd (let e' = rw (h, parse_sizes, k) at e in cc)
        | inr (ns, k) ↦
            let e' = some-injective _ _ (rw (h, parse_sizes, k) at e) in
            ap length (sym e') ∙ ap suc (length-parse_sizes texts ns k)
      ]
    ]

    module _ (m : ServerMemoryConfig) (policy : PolicyConfig F) where
      -- The loop of `_parseClientConfigs` leaves the rest alone and keeps the sizes right.
      abbrev pub Kept : ConfigParser F → Type 0
      Kept s =
          (s.server_memory_config ≡ m)
          × (s.policy_config ≡ policy)
          × AllSized m.num_tiers s.client_configs

      parse_client-Accepts :
          (pattern : String) (text : List ℕ) (s : ConfigParser F)
          → Kept s
          → Accepts Kept (parse_client stoul o pattern text s)
      unfolding parse_client
      parse_client-Accepts pattern text s (e, c, sized) =
          elim (Bool-cases (length (split 32 text) == s.server_memory_config.num_tiers)) [
            | inl h ↦ rw h (elim (Option-cases (parse_sizes stoul o (split 32 text))) [
              | inl k ↦ rw k tt
              | inr (sizes, k) ↦ rw k (elim (Option-cases (parse_pattern pattern)) [
                | inl z ↦ rw z tt
                | inr (p, z) ↦
                    let l =
                      length-parse_sizes (split 32 text) sizes k
                      ∙ eq_of_== _ _ h
                      ∙ ap (λ x. x.num_tiers) e in
                    rw z (e, c, AllSized-append m.num_tiers s.client_configs _ sized l)
              ])
            ])
            | inr h ↦ rw h tt
          ]

      parse_clients-Accepts :
          (patterns : List String) (texts : List (List ℕ)) (s : ConfigParser F)
          → Kept s
          → Accepts Kept (parse_clients stoul o patterns texts s)
      unfolding parse_clients
      parse_clients-Accepts [] texts s kept = kept
      parse_clients-Accepts (p ∷ patterns) [] s kept = kept
      parse_clients-Accepts (p ∷ patterns) (t ∷ texts) s kept =
          Accepts-and Kept Kept (parse_client stoul o p t s) _ (parse_client-Accepts p t s kept)
            (parse_clients-Accepts patterns texts)

      pub parse_client_configs-Accepts :
          (s : ConfigParser F) → Kept s → Accepts Kept (parse_client_configs stoul o s)
      unfolding parse_client_configs parse_clients parse_client parse_sizes
      parse_client_configs-Accepts s kept = elim (Option-cases o.patterns) [
        | inl h ↦ rw h tt
        | inr (ps, h) ↦ rw h (elim (Option-cases o.client_tier_sizes) [
          | inl k ↦ rw k tt
          | inr (ts, k) ↦ rw k (elim (Bool-cases (length ps == length ts)) [
            | inl z ↦ rw z (parse_all h k)
            | inr z ↦ rw z tt
          ])
        ])
      ]
        where
          parse_all :
              {ps : List String} {ts : List (List ℕ)}
              → o.patterns ≡ some ps
              → o.client_tier_sizes ≡ some ts
              → Accepts Kept (parse_clients stoul o ps ts s)
          parse_all {ps} {ts} h k = parse_clients-Accepts ps ts s kept

    validate-Accepts :
        (s : ConfigParser F) → IsValid s → Accepts IsValid (validate_memory_configuration s)
    unfolding validate_memory_configuration
    validate-Accepts s valid =
        elim (Option-cases (sum_tiers (zeros s.server_memory_config.num_tiers) s.client_configs)) [
          | inl h ↦ rw h tt
          | inr (totals, h) ↦
              rw h (elim (Bool-cases (within_limits totals (capacities s.server_memory_config))) [
                | inl k ↦ rw k valid
                | inr k ↦ rw k tt
              ])
        ]

    after_clients :
        (s s' : ConfigParser F)
        → 2 ≤ s.server_memory_config.num_tiers
        → s.server_memory_config.num_tiers ≤ 3
        → IsTyped s.policy_config
        → Kept s.server_memory_config s.policy_config s'
        → IsValid s'
    after_clients s s' low high typed (e, c, sized) = record {
      tiers_low = subst (λ m. 2 ≤ m.num_tiers) (sym e) low;
      tiers_high = subst (λ m. m.num_tiers ≤ 3) (sym e) high;
      typed = subst (λ p. IsTyped p) (sym c) typed;
      sized = subst (λ m. AllSized m.num_tiers s'.client_configs) (sym e) sized;
    }

    -- A parser without clients in which `parse` returned true has two or three tiers, a policy whose
    -- parameters are of the kind that its name says, and for each client a size per tier.
    pub parse-IsValid :
        (s s' : ConfigParser F) → s.client_configs ≡ [] → parse stoul o s ≡ ok true s' → IsValid s'
    unfolding parse
    parse-IsValid s s' fresh e =
        Accepts-run IsValid s'
          (Accepts-if IsValid o.help _ _ s tt (
            Accepts-and (BasicParsed s) IsValid (parse_basic_config o s) _
              (parse_basic_config-Accepts o s) then_server))
          e
      where
        then_clients :
            (v : ConfigParser F)
            → 2 ≤ v.server_memory_config.num_tiers
            → v.server_memory_config.num_tiers ≤ 3
            → IsTyped v.policy_config
            → v.client_configs ≡ []
            → Accepts IsValid
                (and_also (parse_client_configs stoul o) validate_memory_configuration v)
        then_clients v low high typed none_yet =
            Accepts-and (Kept v.server_memory_config v.policy_config) IsValid
              (parse_client_configs stoul o v) validate_memory_configuration
              (parse_client_configs-Accepts v.server_memory_config v.policy_config v (
                refl,
                refl,
                subst (λ cs. AllSized v.server_memory_config.num_tiers cs) (sym none_yet)
                    no_clients,
              ))
              (λ v' k. validate-Accepts v' (after_clients v v' low high typed k))

        then_server :
            (u : ConfigParser F)
            → BasicParsed s u
            → Accepts IsValid (
                and_also
                  (parse_server_config o)
                  (and_also (parse_client_configs stoul o) validate_memory_configuration)
                  u)
        then_server u (low, high, typed, same) =
            Accepts-and (ServerParsed u) IsValid (parse_server_config o u) _
              (parse_server_config-Accepts o u)
              (λ v (n, _, cs, p).
                then_clients v (subst (λ x. 2 ≤ x) (sym n) low) (subst (λ x. x ≤ 3) (sym n) high)
                  (subst (λ x. IsTyped x) (sym p) typed) (cs ∙ same ∙ fresh))
