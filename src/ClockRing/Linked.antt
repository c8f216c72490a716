-- ===== src/ClockRing/Linked.antt =====
-- Doubly linked segments of the heap, and circles.
use memory_tiering.Base.{
  ◌≡◌, ◌≢◌, ◌∙◌, subst, true, false, Option, some, List, [], ◌∷◌, ◌++◌, append_assoc, append-nil,
  arith,
}
use memory_tiering.ClockRing.{Ptr, nullptr, ClockRingNode, Heap, write}
use memory_tiering.ClockRing.Cells.{
  Cell, has, Distinct, first, last, ne_of_has, has-last, last-append, first-append,
}

pub write_self : (h : Heap) (a : Ptr) (c : Option ClockRingNode) → write h a c a ≡ c
unfolding write
write_self h a c = ground arith

pub write_ne : (h : Heap) (a p : Ptr) (c : Option ClockRingNode) → a ≢ p → write h p c a ≡ h a
unfolding write
write_ne h a p c ne = ground arith

-- The node that stands for a cell between two others.
abbrev pub node_of : Cell → Ptr → Ptr → ClockRingNode
node_of c p n = record { page_id = c.page_id; ref_bit = c.ref_bit; prev = p; next = n }

-- From the address `b` on, the nodes of `xs` follow one another, and the last leads to `s`.
abbrev pub Linked : Heap → Ptr → List Cell → Ptr → Type 0
Linked h b [] s = Unit {0}
Linked h b (c ∷ xs) s =
    (c.addr ≢ nullptr) × (h c.addr ≡ some (node_of c b (first xs s))) × Linked h c.addr xs s

-- The nodes of `xs` make a circle.
abbrev pub Circle : Heap → List Cell → Type 0
Circle h xs = Linked h (last nullptr xs) xs (first xs nullptr)

-- A segment survives a change that spares its addresses.
pub frame :
    (h g : Heap) (b : Ptr) (xs : List Cell) (s : Ptr)
    → Linked h b xs s
    → ((a : Ptr) → has a xs ≡ true → g a ≡ h a)
    → Linked g b xs s
frame h g b [] s l same = tt
frame h g b (c ∷ xs) s (ne, e, l) same =
    (ne, same c.addr (ground arith) ∙ e, frame h g c.addr xs s l (λ a i. same a (ground arith)))

pub frame-write :
    (h : Heap) (b : Ptr) (xs : List Cell) (s a : Ptr) (c : Option ClockRingNode)
    → Linked h b xs s
    → has a xs ≡ false
    → Linked (write h a c) b xs s
unfolding write
frame-write h b xs s a c l out = frame h (write h a c) b xs s l (λ a' i. ground arith)

pub Linked-append :
    (h : Heap) (b : Ptr) (xs ys : List Cell) (s : Ptr)
    → Linked h b xs (first ys s)
    → Linked h (last b xs) ys s
    → Linked h b (xs ++ ys) s
Linked-append h b [] ys s l m = m
Linked-append h b (c ∷ xs) ys s (ne, e, l) m =
    (ne, rw (first-append xs ys s) e, Linked-append h c.addr xs ys s l m)

-- Walking one node on, the circle starts at the next one.
pub Circle-rotate :
    (h : Heap) (c : Cell) (xs : List Cell) → Circle h (c ∷ xs) → Circle h (xs ++ c ∷ [])
Circle-rotate h c [] l = l
Circle-rotate h c (d ∷ ys) (ne, e, l) =
    rw (last-append d.addr ys (c ∷ []))
      (Linked-append h c.addr (d ∷ ys) (c ∷ []) d.addr l (ne, e, tt))

pub Circle-turn : (h : Heap) (ys zs : List Cell) → Circle h (ys ++ zs) → Circle h (zs ++ ys)
Circle-turn h [] zs l = rw (append-nil zs) l
Circle-turn h (c ∷ ys) zs l = subst (Circle h) (append_assoc zs (c ∷ []) ys) (
    Circle-turn h ys (zs ++ c ∷ [])
      (subst (Circle h) (append_assoc ys zs (c ∷ [])) (Circle-rotate h c (ys ++ zs) l)))

pub Linked-last :
    (h : Heap) (b : Ptr) (c : Cell) (xs : List Cell) (s : Ptr)
    → Linked h b (c ∷ xs) s
    → (n : ClockRingNode) × (h (last c.addr xs) ≡ some n)
Linked-last h b c [] s (ne, e, l) = (node_of c b s, e)
Linked-last h b c (d ∷ xs) s (ne, e, l) = Linked-last h c.addr d xs s l

pub Linked-not_null :
    (h : Heap) (b : Ptr) (c : Cell) (xs : List Cell) (s : Ptr)
    → Linked h b (c ∷ xs) s
    → last c.addr xs ≢ nullptr
Linked-not_null h b c [] s (ne, e, l) = ne
Linked-not_null h b c (d ∷ xs) s (ne, e, l) = Linked-not_null h c.addr d xs s l

-- A segment of at least one node, led to another successor.
pub redirect_last :
    (h : Heap) (b : Ptr) (xs : List Cell) (s t : Ptr) {n : ClockRingNode}
    → Linked h b xs s
    → Distinct xs
    → h (last b xs) ≡ some n
    → Linked (write h (last b xs) (some (record n { next = t }))) b xs t
unfolding write
redirect_last h b [] s t l d e = tt
redirect_last h b (c ∷ []) s t (ne, e', l) d e = (ne, ground arith, tt)
redirect_last h b (c ∷ d' ∷ ys) s t (ne, e', l) (o, d) e = (
  ne,
  write_ne h c.addr (last d'.addr ys) _ (ne_of_has c.addr _ (d' ∷ ys) o (has-last d' ys)) ∙ e',
  redirect_last h c.addr (d' ∷ ys) s t l d e,
)

-- A segment of at least one node, led from another predecessor.
pub redirect_first :
    (h : Heap) (b b' : Ptr) (c : Cell) (xs : List Cell) (s : Ptr) {n : ClockRingNode}
    → Linked h b (c ∷ xs) s
    → Distinct (c ∷ xs)
    → h c.addr ≡ some n
    → Linked (write h c.addr (some (record n { prev = b' }))) b' (c ∷ xs) s
unfolding write
redirect_first h b b' c xs s (ne, e, l) (o, d) e' =
    (ne, ground arith, frame-write h c.addr xs s c.addr _ l o)
