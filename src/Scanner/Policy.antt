-- ===== src/Scanner/Policy.antt =====
-- What the policies decide, once the parser has set `policy_type` and the variant together.
use mathlib.Core.Path.{◌∙◌, ap}
use memory_tiering.Base.{
  ℕ, ◌+◌, ◌/◌, ◌≡◌, refl, Bool, true, false, some, leb, sub64, if◌then◌else◌, Bool-cases, inl, inr,
}
use memory_tiering.Base.Run.{ok, Returns, returns, Returns-bind, Returns-ok, ◌>>=◌, and_then, pure}
use memory_tiering.Common.{
  PolicyConfig, lru, frequency, hybrid, LruPolicyConfig, FrequencyPolicyConfig, HybridPolicyConfig,
}
use memory_tiering.Machine.{Machine}
use memory_tiering.PageTable.{World, now_ms, reading}
use memory_tiering.Scanner.{
  DoubleOps, PageStatus, hot, warm, cold, is_hot, is_cold, lru_hot, lru_cold, frequency_hot,
  frequency_cold, hybrid_hot, hybrid_cold, hybrid_test, classify_hot_page, classify_cold_page,
  classify_page,
}

-- The variant holds what the name says.
pub data IsTyped {F : Type 0} (p : PolicyConfig F) : Type 0 where
  lru_typed : (c : LruPolicyConfig) → p.policy_type ≡ "lru" → p.config ≡ lru c → IsTyped p
  frequency_typed :
      (c : FrequencyPolicyConfig) → p.policy_type ≡ "frequency" → p.config ≡ frequency c → IsTyped p
  hybrid_typed :
      (c : HybridPolicyConfig F) → p.policy_type ≡ "hybrid" → p.config ≡ hybrid c → IsTyped p

abbrev pub with_ticks : World → ℕ → World
with_ticks w n = record w { ticks = n }

module _ {F : Type 0} (ops : DoubleOps F) (p : PolicyConfig F) (since access_count : ℕ) where
  pub hot-lru :
      (c : LruPolicyConfig)
      → p.policy_type ≡ "lru"
      → p.config ≡ lru c
      → is_hot ops p since access_count ≡ some (leb since c.hot_threshold_ms)
  unfolding is_hot lru_hot
  hot-lru c n e = rw (n, e) refl

  pub cold-lru :
      (c : LruPolicyConfig)
      → p.policy_type ≡ "lru"
      → p.config ≡ lru c
      → is_cold ops p since access_count ≡ some (leb c.cold_threshold_ms since)
  unfolding is_cold lru_cold
  cold-lru c n e = rw (n, e) refl

  -- With a policy as the parser sets it, no test throws.
  pub is_hot-some : IsTyped p → (b : Bool) × (is_hot ops p since access_count ≡ some b)
  unfolding is_hot frequency_hot hybrid_hot
  is_hot-some (lru_typed c n e) = (_, hot-lru c n e)
  is_hot-some (frequency_typed c n e) = (leb c.hot_access_count access_count, rw (n, e) refl)
  is_hot-some (hybrid_typed c n e) = (
    hybrid_test ops c (leb since c.hot_threshold_ms) (leb c.hot_access_count access_count),
    rw (n, e) refl,
  )

  pub is_cold-some : IsTyped p → (b : Bool) × (is_cold ops p since access_count ≡ some b)
  unfolding is_cold frequency_cold hybrid_cold
  is_cold-some (lru_typed c n e) = (_, cold-lru c n e)
  is_cold-some (frequency_typed c n e) = (leb access_count c.cold_access_count, rw (n, e) refl)
  is_cold-some (hybrid_typed c n e) = (
    hybrid_test ops c (leb c.cold_threshold_ms since) (leb access_count c.cold_access_count),
    rw (n, e) refl,
  )

-- The reading of the clock in milliseconds, and the time since the last access, modulo 2^64.
abbrev pub since_at : Machine → ℕ → ℕ → ℕ
since_at machine n last_access_time = sub64 (machine.steady_clock n / 1_000_000) last_access_time

-- Only the clock has been read.
abbrev pub Ticked : World → World → Type 0
Ticked w w' = (n : ℕ) × (w' ≡ with_ticks w n)

module _ {F : Type 0} (ops : DoubleOps F) (machine : Machine) (p : PolicyConfig F)
    (last_access_time access_count : ℕ) (w : World) where
  classify_hot-ok :
      (b : Bool)
      → is_hot ops p (since_at machine w.ticks last_access_time) access_count ≡ some b
      → classify_hot_page ops machine p last_access_time access_count w
        ≡ ok b (with_ticks w (w.ticks + 1))
  unfolding classify_hot_page now_ms reading
  classify_hot-ok b e = rw e refl

  classify_cold-ok :
      (b : Bool)
      → is_cold ops p (since_at machine w.ticks last_access_time) access_count ≡ some b
      → classify_cold_page ops machine p last_access_time access_count w
        ≡ ok b (with_ticks w (w.ticks + 1))
  unfolding classify_cold_page now_ms reading
  classify_cold-ok b e = rw e refl

module _ {F : Type 0} (ops : DoubleOps F) (machine : Machine) (p : PolicyConfig F)
    (typed : IsTyped p) (last_access_time access_count : ℕ) (w : World) where
  pub classify_hot-Ticked :
      Returns
        (λ b w'. Ticked w w')
        (classify_hot_page ops machine p last_access_time access_count w)
  classify_hot-Ticked =
      let (b, e) =
        is_hot-some ops p (since_at machine w.ticks last_access_time) access_count typed in
      Returns-ok b _ (classify_hot-ok ops machine p last_access_time access_count w b e) (_, refl)

  pub classify_cold-Ticked :
      Returns
        (λ b w'. Ticked w w')
        (classify_cold_page ops machine p last_access_time access_count w)
  classify_cold-Ticked =
      let (b, e) =
        is_cold-some ops p (since_at machine w.ticks last_access_time) access_count typed in
      Returns-ok b _ (classify_cold-ok ops machine p last_access_time access_count w b e) (_, refl)

-- The status of a page under the LRU policy: hot within the hot threshold, else cold from the cold
-- threshold on, else warm. The clock is read once for the first test, and again for the second.
unfoldable pub lru_status : LruPolicyConfig → (since since' : ℕ) → PageStatus
lru_status c since since' =
    if leb since c.hot_threshold_ms
    then hot
    else if leb c.cold_threshold_ms since'
    then cold
    else warm

Ticked-trans : (w v u : World) → Ticked w v → Ticked v u → Ticked w u
Ticked-trans w v u (n, e) (m, d) = (m, d ∙ ap (λ x. with_ticks x m) e)

module _ {F : Type 0} (ops : DoubleOps F) (machine : Machine) (p : PolicyConfig F)
    (last_access_time access_count : ℕ) where
  pub classify_page-Ticked :
      IsTyped p
      → (w : World)
      → Returns (λ s w'. Ticked w w') (classify_page ops machine p last_access_time access_count w)
  unfolding classify_page
  classify_page-Ticked typed w =
      Returns-bind (classify_hot-Ticked ops machine p typed last_access_time access_count w)
        after_hot
    where
      cold_only :
          (v : World)
          → Ticked w v
          → Returns
              (λ s w'. Ticked w w')
              (and_then
                (classify_cold_page ops machine p last_access_time access_count v)
                (λ b. if b then pure cold else pure warm))
      cold_only v t =
          Returns-bind (classify_cold-Ticked ops machine p typed last_access_time access_count v)
            (elim [
              | true ↦ λ u t'. returns (Ticked-trans w v u t t')
              | false ↦ λ u t'. returns (Ticked-trans w v u t t')
            ])

      after_hot :
          (b : Bool) (v : World)
          → Ticked w v
          → Returns
              (λ s w'. Ticked w w')
              ((if b
                  then pure hot
                  else (classify_cold_page ops machine p last_access_time access_count >>= λ b'.
                      if b' then pure cold else pure warm))
                v)
      after_hot true v t = returns t
      after_hot false v t = cold_only v t

  -- Under the LRU policy `classifyPage` is `lru_status` of the two times since the last access, and only
  -- reads the clock.
  pub classify_page-lru :
      (c : LruPolicyConfig)
      → p.policy_type ≡ "lru"
      → p.config ≡ lru c
      → (w : World)
      → Returns
          (λ s w'.
            (s
              ≡ lru_status c
                  (since_at machine w.ticks last_access_time)
                  (since_at machine (w.ticks + 1) last_access_time))
            × Ticked w w')
          (classify_page ops machine p last_access_time access_count w)
  unfolding classify_page lru_status
  classify_page-lru c n e w =
      let s = since_at machine w.ticks last_access_time in
      let s' = since_at machine (w.ticks + 1) last_access_time in
      let v = with_ticks w (w.ticks + 1) in
      let hot_run =
        classify_hot-ok ops machine p last_access_time access_count w _
          (hot-lru ops p s access_count c n e) in
      let cold_run =
        classify_cold-ok ops machine p last_access_time access_count v _
          (cold-lru ops p s' access_count c n e) in
      elim (Bool-cases (leb s c.hot_threshold_ms)) [
        | inl h ↦ rw (hot_run, h) (returns (refl, (_, refl)))
        | inr h ↦
            rw (hot_run, h, cold_run)
              (elim (Bool-cases (leb c.cold_threshold_ms s')) [
                | inl k ↦ rw k (returns (refl, (_, refl)))
                | inr k ↦ rw k (returns (refl, (_, refl)))
              ])
      ]
