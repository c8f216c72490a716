-- ===== src/Config/Printed.antt =====
-- What is printed of a configuration that `parse` accepts.
use memory_tiering.Base.{
  ℕ, zero, suc, ◌+◌, ◌≤◌, ◌≡◌, refl, ap, sym, true, some, Option, List, [], ◌∷◌, ◌++◌, arith,
  length, length-append, get_elem?-lt,
}
use memory_tiering.Base.Run.{ok, Returns, returns}
use memory_tiering.Common.{
  AccessPattern, uniform, hot, zipfian, ClientConfig, PolicyConfig, PolicyVariant, lru, frequency,
  hybrid, ServerMemoryConfig,
}
use memory_tiering.Scanner.Policy.{IsTyped, lru_typed, frequency_typed, hybrid_typed}
use memory_tiering.Logger.{LogLine}
use memory_tiering.Config.{ConfigParser, ParseResult, capacities, parse}
use memory_tiering.Config.Limits.{AllSized, no_clients, and_client}
use memory_tiering.Config.Valid.{IsValid, parse-IsValid}
use memory_tiering.Config.Print.{
  said, sized, lru_lines, frequency_lines, hybrid_lines, policy_lines, tier_lines, size_lines,
  zipf_lines, client_lines, first_lines, file_lines, last_lines, print_config,
}

-- A client with the Zipf pattern has one line more.
abbrev pub zipf_count : AccessPattern → ℕ
zipf_count uniform = 0
zipf_count hot = 0
zipf_count zipfian = 1

length-size_lines :
    (F : Type 0) (j n : ℕ) (sizes : List ℕ)
    → length {0} (size_lines {F = F} j n sizes) ≡ length sizes
unfolding size_lines
length-size_lines F j n [] = refl
length-size_lines F j n (size ∷ sizes) = ap suc (length-size_lines F (j + 1) n sizes)

module _ {F : Type 0} where
  -- The lines on the clients: two or three each, and one per tier.
  unfoldable pub client_count : (num_tiers : ℕ) → List (ClientConfig F) → ℕ
  client_count n [] = 0
  client_count n (c ∷ cs) = 2 + zipf_count c.pattern + n + client_count n cs

  length-zipf_lines : (p : AccessPattern) (s : F) → length {0} (zipf_lines p s) ≡ zipf_count p
  unfolding zipf_lines
  length-zipf_lines uniform s = refl
  length-zipf_lines hot s = refl
  length-zipf_lines zipfian s = refl

  length-client_lines :
      (i n : ℕ) (cs : List (ClientConfig F))
      → AllSized n cs
      → length {0} (client_lines i n cs) ≡ client_count n cs
  unfolding client_lines client_count
  length-client_lines i n [] no_clients = refl
  length-client_lines i n (c ∷ cs) (and_client size sized) = omega (
    arith,
    length-append {0} (zipf_lines c.pattern c.zipf_s)
        (size_lines 0 n c.tier_sizes ++ client_lines (i + 1) n cs),
    length-append {0} (size_lines 0 n c.tier_sizes) (client_lines (i + 1) n cs),
    length-zipf_lines c.pattern c.zipf_s,
    length-size_lines F 0 n c.tier_sizes,
    length-client_lines (i + 1) n cs sized,
    size,
  )

  abbrev pub policy_count : PolicyVariant F → ℕ
  policy_count (lru c) = 2
  policy_count (frequency c) = 2
  policy_count (hybrid c) = 6

  -- The parameters of a policy as the parser sets it.
  policy_lines-some :
      (p : PolicyConfig F)
      → IsTyped p
      → (ls : List (LogLine F)) × (policy_lines p ≡ some ls) × (length ls ≡ policy_count p.config)
  unfolding policy_lines lru_lines frequency_lines hybrid_lines
  policy_lines-some p (lru_typed c n e) =
      let at : policy_lines p ≡ lru_lines (lru c) = rw (n, e) refl in
      (_, at, ap policy_count (sym e))
  policy_lines-some p (frequency_typed c n e) =
      let at : policy_lines p ≡ frequency_lines (frequency c) = rw (n, e) refl in
      (_, at, ap policy_count (sym e))
  policy_lines-some p (hybrid_typed c n e) =
      let at : policy_lines p ≡ hybrid_lines (hybrid c) = rw (n, e) refl in
      (_, at, ap policy_count (sym e))

  -- No tier is out of range.
  tier_lines-some :
      (i n num_tiers : ℕ) (c : ServerMemoryConfig)
      → i + n ≤ 3
      → (ls : List (LogLine F)) × (tier_lines i n num_tiers c ≡ some ls) × (length ls ≡ n)
  unfolding tier_lines
  tier_lines-some i zero num_tiers c h = ([], refl, refl)
  tier_lines-some i (suc n) num_tiers c h =
      let (size, at) = get_elem?-lt (capacities c) i (omega (arith, h)) in
      let (ls, e, l) = tier_lines-some (i + 1) n num_tiers c (omega (arith, h)) in
      (sized "  - " i num_tiers size ∷ ls, rw (at, tier_lines, e) refl, ap suc l)

  -- How many lines are printed of a configuration.
  unfoldable pub line_count : ConfigParser F → ℕ
  line_count s =
      14
      + policy_count s.policy_config.config
      + s.server_memory_config.num_tiers
      + client_count s.server_memory_config.num_tiers s.client_configs

  print_config-Returns :
      (s : ConfigParser F)
      → IsValid s
      → Returns (λ ls s'. (s' ≡ s) × (length ls ≡ line_count s)) (print_config s)
  unfolding print_config line_count first_lines file_lines last_lines
  print_config-Returns s v =
      let (ps, e, l) = policy_lines-some s.policy_config v.typed in
      let (ts, e', l') =
        tier_lines-some 0 s.server_memory_config.num_tiers s.server_memory_config.num_tiers
          s.server_memory_config (omega (arith, v.tiers_high)) in
      let cs = client_lines 0 s.server_memory_config.num_tiers s.client_configs in
      rw (e, e')
        (returns (
          refl,
          omega (
            arith,
            l,
            l',
            length-append {0} ps (file_lines s ++ (ts ++ last_lines s)),
            length-append {0} ts (last_lines s),
            length-append {0} cs (said "==========================================" ∷ []),
            length-client_lines 0 s.server_memory_config.num_tiers s.client_configs v.sized,
          ),
        ))

  -- Once `parse` returns true, from a parser without clients, its printing of the configuration neither
  -- throws nor reads out of range, changes nothing, and logs 14 lines, those of the policy (two, or six
  -- for the hybrid one), one per tier, and for each client two, one more if its pattern is Zipf's, and
  -- one per tier.
  pub parse-prints :
      (stoul : List ℕ → Option ℕ) (o : ParseResult F) (s s' : ConfigParser F)
      → s.client_configs ≡ []
      → parse stoul o s ≡ ok true s'
      → Returns (λ ls s''. (s'' ≡ s') × (length ls ≡ line_count s')) (print_config s')
  parse-prints stoul o s s' fresh e = print_config-Returns s' (parse-IsValid stoul o s s' fresh e)
