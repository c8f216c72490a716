-- ===== src/Server/Shutdown.antt =====
-- The server shuts down exactly when every client has sent END.
use memory_tiering.Base.{
  ℕ, zero, suc, ◌<◌, ◌≡◌, refl, sym, subst, ap, ◌∙◌, Bool, true, false, List, [], ◌∷◌, ◌⊎◌, some,
  arith, Bool-cases, inl, inr, length, get_elem?, set, length-set, get_elem?-lt,
}
use memory_tiering.Base.Run.{Cmd, ok, Returns, returns, Returns-bind, Returns-mono, pure, ◌>>◌}
use memory_tiering.Server.{Server, all_done, signal_shutdown, mark_done, handle_end}

-- The flags of the threads agree, and are set exactly when all clients are done.
pub record Inv (s : Server) : Type 0 where
  pub together : s.scanner_shutdown_flag ≡ s.manager_shutdown_flag
  pub exact : s.manager_shutdown_flag ≡ all_done s.client_done_flags

-- The flags after an END: the client's is set, and the others are as they were.
abbrev pub EndSpec : Server → ℕ → Server → Type 0
EndSpec s client_id s' =
    (s'.client_done_flags ≡ set s.client_done_flags client_id true)
    × (s'.world ≡ s.world)
    × (s'.base_page_id ≡ s.base_page_id)

-- A client that was done stays done, so `all_done` never falls.
all_done-set : (ds : List Bool) (i : ℕ) → all_done ds ≡ true → all_done (set ds i true) ≡ true
unfolding all_done
all_done-set [] i h = refl
all_done-set (d ∷ ds) zero h = ground arith
all_done-set (d ∷ ds) (suc i) h = ground (arith, all_done-set ds i)

mark_done-ok :
    (s : Server) (client_id : ℕ) (d : Bool)
    → get_elem? s.client_done_flags client_id ≡ some d
    → mark_done client_id s
      ≡ ok tt (record s { client_done_flags = set s.client_done_flags client_id true })
unfolding mark_done
mark_done-ok s client_id d e = rw (e, mark_done) refl

-- An END of a known client sets its flag, and signals the shutdown exactly if it was the last one.
pub handle_end-Inv :
    (s : Server) (client_id : ℕ)
    → client_id < length s.client_done_flags
    → Inv s
    → Returns (λ u s'. Inv s' × EndSpec s client_id s') (handle_end client_id s)
unfolding handle_end signal_shutdown
handle_end-Inv s client_id h v =
    let (d, e) = get_elem?-lt s.client_done_flags client_id h in
    let flags = set s.client_done_flags client_id true in
    rw (mark_done-ok s client_id d e) (elim (Bool-cases (all_done flags)) [
      | inl q ↦ rw q (returns (record { together = refl; exact = sym q }, (refl, refl, refl)))
      | inr q ↦ rw q (
          returns (
            record {
              together = v.together;
              exact = v.exact ∙ still (Bool-cases (all_done s.client_done_flags)) q ∙ sym q;
            },
            (refl, refl, refl),
          ))
    ])
  where
    still :
        (all_done s.client_done_flags ≡ true) ⊎ (all_done s.client_done_flags ≡ false)
        → all_done (set s.client_done_flags client_id true) ≡ false
        → all_done s.client_done_flags ≡ false
    still (inl t) q = let z = all_done-set s.client_done_flags client_id t in cc
    still (inr f) q = f

-- ENDs in a row.
unfoldable pub handle_ends : List ℕ → Cmd Server (Unit {0})
handle_ends [] = pure tt
handle_ends (i ∷ is) = handle_end i >> handle_ends is

abbrev pub AllBelow : ℕ → List ℕ → Type 0
AllBelow n [] = Unit {0}
AllBelow n (i ∷ is) = (i < n) × AllBelow n is

-- The flags after the ENDs of some clients.
unfoldable pub set_all : List ℕ → List Bool → List Bool
set_all [] ds = ds
set_all (i ∷ is) ds = set_all is (set ds i true)

-- After any ENDs of known clients, from a state in order, both threads are told to stop exactly if
-- every client is done, and the flags are those of these clients set.
pub handle_ends-Inv :
    (is : List ℕ) (s : Server)
    → AllBelow (length s.client_done_flags) is
    → Inv s
    → Returns
        (λ u s'. Inv s' × (s'.client_done_flags ≡ set_all is s.client_done_flags))
        (handle_ends is s)
unfolding handle_ends set_all
handle_ends-Inv [] s b v = returns (v, refl)
handle_ends-Inv (i ∷ is) s b v = Returns-bind (handle_end-Inv s i b.0 v) λ u s1 (v1, (f, w, p)).
    Returns-mono
      (handle_ends-Inv is s1
        (subst (λ n. AllBelow n is)
          (sym (ap (length {0}) f ∙ length-set s.client_done_flags i true)) b.1)
        v1)
      λ u' s2 (v2, g). (v2, g ∙ ap (set_all is) f)
