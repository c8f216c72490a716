-- ===== src/Delivery/Drained.antt =====
-- What the order of the steps never changes: messages are handled in the order in which they were
-- sent, and the server shuts down once nothing is left to handle.
use memory_tiering.Base.{
  ℕ, zero, suc, ◌<◌, ◌≡◌, refl, sym, ap, ◌∙◌, subst, Bool, true, false, some, List, [], ◌∷◌, ◌++◌,
  append-nil, length, get_elem?, arith,
}
use mathlib.Core.Option.{some-injective}
use memory_tiering.Common.{ClientMessage, PolicyConfig}
use memory_tiering.Machine.{Machine}
use memory_tiering.PageTable.{World}
use memory_tiering.RingBuffer
use memory_tiering.RingBuffer.{CircularBuffer}
use memory_tiering.Generator.{Random}
use memory_tiering.Client.{Client}
use memory_tiering.Scanner.{DoubleOps}
use memory_tiering.Server
use memory_tiering.Server.{all_done, no_flags}
use memory_tiering.Delivery.{System, start, Reach}
use memory_tiering.Delivery.Messages.{
  ended, Closed, AllKnown, AllKnown-rest, silent_after, none_left,
}
use memory_tiering.Delivery.Effects.{is_finished}
use memory_tiering.Delivery.Invariant.{Inv, Reach-Inv}

length-no_flags : (n : ℕ) → length (no_flags n) ≡ n
unfolding no_flags
length-no_flags zero = refl
length-no_flags (suc n) = ap suc (length-no_flags n)

get-no_flags : (n i : ℕ) → i < n → get_elem? (no_flags n) i ≡ some false
unfolding no_flags
get-no_flags zero i h = absurd (omega (arith, h))
get-no_flags (suc n) zero h = refl
get-no_flags (suc n) (suc i) h = get-no_flags n i (omega (arith, h))

some_not_done : (n : ℕ) → 0 < n → all_done (no_flags n) ≡ false
unfolding no_flags all_done
some_not_done zero h = absurd (omega (arith, h))
some_not_done (suc n) h = refl

-- `all_done` is a test of each flag.
all_done-get :
    (ds : List Bool) (i : ℕ) (d : Bool) → all_done ds ≡ true → get_elem? ds i ≡ some d → d ≡ true
unfolding all_done
all_done-get [] i d h e = absurd (cc)
all_done-get (x ∷ ds) zero d h e = let same = some-injective x d e in ground arith
all_done-get (x ∷ ds) (suc i) d h e = all_done-get ds i d (ground arith) e

get-all_done :
    (ds : List Bool) → ((i : ℕ) → i < length ds → get_elem? ds i ≡ some true) → all_done ds ≡ true
unfolding all_done
get-all_done [] h = refl
get-all_done (x ∷ ds) h =
    let first : x ≡ true = some-injective x true (h 0 (omega arith)) in
    let rest : all_done ds ≡ true = get-all_done ds (λ i l. h (suc i) (omega (arith, l))) in
    rw (first, rest) refl

module _ {F Engine : Type 0} (machine : Machine) (random : Random F Engine)
    (lib : CircularBuffer ClientMessage) (ops : DoubleOps F) (policy : PolicyConfig F)
    (num_tiers : ℕ) where
  pub start-Inv :
      (n capacity : ℕ) (clients : ℕ → Client F Engine) (base_page_id : List ℕ) (world : World)
      → 0 < n
      → ((i : ℕ) → i < n → (clients i).client_id ≡ i)
      → Inv random lib n (start lib n capacity clients base_page_id world)
  unfolding start RingBuffer.create Server.create ended
  start-Inv n capacity clients base_page_id world pos named = record {
    order = sym (lib.contents_new capacity);
    ids = named;
    own = λ i h. tt;
    known = tt;
    closed = tt;
    done = λ i h. refl;
    size = length-no_flags n;
    flags = get-no_flags n;
    server = record { together = refl; exact = sym (some_not_done n pos) };
  }

  module _ (n : ℕ) (s : System F Engine lib.Buffer) (v : Inv random lib n s) where
    -- At the shutdown every client's END has been handled, so nothing is left.
    pub shutdown-done :
        s.server.manager_shutdown_flag ≡ true
        → (lib.contents s.buffer ≡ [])
          × (s.handled ≡ s.sent)
          × ((i : ℕ) → i < n → is_finished (s.threads i).phase ≡ true)
    shutdown-done down =
        let all : all_done s.server.client_done_flags ≡ true = sym v.server.exact ∙ down in
        let said : (i : ℕ) → i < n → ended i s.handled ≡ true =
          λ i h. all_done-get s.server.client_done_flags i (ended i s.handled) all (v.flags i h) in
        let drained : lib.contents s.buffer ≡ [] =
          none_left n (lib.contents s.buffer)
            (AllKnown-rest n s.handled (lib.contents s.buffer) (subst (AllKnown n) v.order v.known))
            (λ i h.
              silent_after i s.handled (lib.contents s.buffer) (subst Closed v.order v.closed)
                (said i h)) in
        let same : s.sent ≡ s.handled =
          v.order ∙ ap (λ l. s.handled ++ l) drained ∙ append-nil s.handled in
        (drained, sym same, λ i h. v.done i h ∙ ap (ended i) same ∙ said i h)

    pub done-shutdown :
        lib.contents s.buffer ≡ []
        → ((i : ℕ) → i < n → is_finished (s.threads i).phase ≡ true)
        → s.server.manager_shutdown_flag ≡ true
    done-shutdown drained over =
        let same : s.sent ≡ s.handled =
          v.order ∙ ap (λ l. s.handled ++ l) drained ∙ append-nil s.handled in
        v.server.exact
        ∙ get-all_done s.server.client_done_flags (λ i h.
          let lt : i < n = omega (arith, h, v.size) in
          v.flags i lt
          ∙ ap (λ l. some (ended i l)) (sym same)
          ∙ ap some (sym (v.done i lt) ∙ over i lt))

  module _ (n capacity : ℕ) (clients : ℕ → Client F Engine) (base_page_id : List ℕ)
      (world : World) where
    module _ {s : System F Engine lib.Buffer} (pos : 0 < n)
        (named : (i : ℕ) → i < n → (clients i).client_id ≡ i)
        (r : Reach machine random lib ops policy num_tiers n
          (start lib n capacity clients base_page_id world)
          s) where
      invariant : Inv random lib n s
      invariant =
          Reach-Inv machine random lib ops policy num_tiers n
            (start-Inv n capacity clients base_page_id world pos named) r

      -- With one client or more, each with its place as its id, and in every state that the threads
      -- reach from the start: the messages that were sent are those handled, in the order handled,
      -- and after them those in the ring buffer, from its front on.
      pub handled_in_order : s.sent ≡ s.handled ++ lib.contents s.buffer
      handled_in_order = invariant.order

      -- With one client or more, each with its place as its id, and in every state that the threads
      -- reach from the start, if the flag that stops the manager is set, then the ring buffer is
      -- empty, all that was sent was handled, and every client has finished.
      pub shutdown-drained :
          s.server.manager_shutdown_flag ≡ true
          → (lib.contents s.buffer ≡ [])
            × (s.handled ≡ s.sent)
            × ((i : ℕ) → i < n → is_finished (s.threads i).phase ≡ true)
      shutdown-drained = shutdown-done n s invariant
