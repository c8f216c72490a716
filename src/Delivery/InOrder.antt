-- ===== src/Delivery/InOrder.antt =====
-- A message that the manager handles leaves the page table in order.
use memory_tiering.Base.{ℕ, Bool, ◌<◌, ◌≡◌, sym, ap, ◌∙◌, subst, length, get_elem?-lt, add64, arith}
use memory_tiering.Base.Run.{Run, Cmd, Returns, returns, Returns-mono}
use memory_tiering.Common.{OperationType, read, write, end, ClientMessage}
use memory_tiering.Machine.{Machine}
use memory_tiering.Metrics.Periodic.{DoubleArith, periodical_metrics}
use memory_tiering.PageTable.{World}
use memory_tiering.Scanner.Invariant.{Inv as ScanInv, Inv-metrics}
use memory_tiering.Scanner.Accesses.{access-Inv}
use memory_tiering.Server.{
  Server, on_world_of, on_world, handle_access, handle_end, handle_client_message, report_period,
}
use memory_tiering.Server.Shutdown
use memory_tiering.Server.Shutdown.{handle_end-Inv}

module _ (num_tiers n : ℕ) where
  -- The page table is in order, and there is a first page id for each of `n` clients.
  pub record InOrder (s : Server) : Type 0 where
    pub world : ScanInv num_tiers s.world
    pub bases : length s.base_page_id ≡ n

  abbrev Keeps : Run Server (Unit {0}) → Type 0
  Keeps = Returns (λ u s'. InOrder s')

  -- The metrics are no part of it.
  pub report-InOrder :
      {F : Type 0} (double : DoubleArith F) (opens : Bool) (interval : ℕ) (s : Server)
      → InOrder s
      → InOrder (report_period double opens interval s).0
  unfolding report_period periodical_metrics
  report-InOrder double opens interval s v = record {
    world = Inv-metrics num_tiers s.world _ v.world;
    bases = v.bases;
  }

  on_world-InOrder :
      (s : Server) (r : Run World (Unit {0}))
      → length s.base_page_id ≡ n
      → Returns (λ u w. ScanInv num_tiers w) r
      → Keeps (on_world_of r s)
  on_world-InOrder s r b (returns v) = returns (record { world = v; bases = b })

  module _ (machine : Machine) (msg : ClientMessage) (s : Server) (v : InOrder s) where
    handle_access-InOrder : msg.client_id < n → Keeps (handle_access machine msg s)
    unfolding handle_access on_world
    handle_access-InOrder known =
        let (base, e) = get_elem?-lt s.base_page_id msg.client_id (omega (arith, known, v.bases)) in
        rw e (
          on_world-InOrder s _ v.bases
            (access-Inv num_tiers machine (add64 base msg.pid) s.world v.world))

    -- Any message of a known client is handled, and the page table stays in order.
    pub handle-InOrder :
        msg.client_id < n
        → msg.client_id < length s.client_done_flags
        → Shutdown.Inv s
        → Keeps (handle_client_message machine msg s)
    unfolding handle_client_message
    handle-InOrder known flag shut = by_type msg.op_type
      where
        by_type :
            (op : OperationType)
            → Keeps (
                elim op as (λ x. Cmd Server (Unit {0})) [
                  | end ↦ handle_end msg.client_id
                  | _ ↦ handle_access machine msg
                ]
                  s)
        by_type read = handle_access-InOrder known
        by_type write = handle_access-InOrder known
        by_type end =
            Returns-mono (handle_end-Inv s msg.client_id flag shut)
              λ u s' (inv, (flags, same_world, same_bases)). record {
                world = subst (ScanInv num_tiers) (sym same_world) v.world;
                bases = ap (length {0}) same_bases ∙ v.bases;
              }
