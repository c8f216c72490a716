-- ===== src/Startup.antt =====
-- The part of main.cpp that gives each client its memory and its thread.
pub mod Found
pub mod Launched
pub mod Runs
pub mod Ending
use memory_tiering.Base.{ℕ, ◌+◌, Option, none, some, List, [], ◌∷◌, add64}
use memory_tiering.Common.{ClientConfig}
use memory_tiering.Generator.{Random}
use memory_tiering.Client
use memory_tiering.Client.{Thread}

-- `clientPageSize += tierSize`, from what is counted so far.
unfoldable pub add_tier_sizes : (client_page_size : ℕ) → List ℕ → ℕ
add_tier_sizes client_page_size [] = client_page_size
add_tier_sizes client_page_size (tier_size ∷ tier_sizes) =
    add_tier_sizes (add64 client_page_size tier_size) tier_sizes

unfoldable pub client_page_size : List ℕ → ℕ
client_page_size tier_sizes = add_tier_sizes 0 tier_sizes

-- The loop that creates the clients, from the i-th on: `i` is a client's id, and `seeds` what the
-- random device gives to each. The constructor takes no skew, so that this is `one`. `none` is a
-- read out of range.
module _ {F Engine : Type 0} (random : Random F Engine) (one : F) (seeds : ℕ → Engine)
    (running_time : ℕ) (rw_ratio : F) where
  unfoldable pub create_clients : ℕ → List (ClientConfig F) → Option (List (Thread F Engine))
  create_clients i [] = some []
  create_clients i (c ∷ configs) =
      elim (Client.create random one i running_time (client_page_size c.tier_sizes) c.pattern
        rw_ratio (seeds i)) [
          | none ↦ none
          | some client ↦ elim (create_clients (i + 1) configs) [
            | none ↦ none
            | some clients ↦ some (client ∷ clients)
          ]
        ]
