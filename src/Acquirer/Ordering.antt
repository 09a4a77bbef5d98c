-- ===== src/Acquirer/Ordering.antt =====
-- The order of the acquirers in a router.
use payment_gateway_in_rust.Prelude.{ℕ, ◌≤◌, inl, inr, Bool-cases, List, [], ◌∷◌, arith, All, ltb}
use payment_gateway_in_rust.Acquirer.Router.{
  AcquirerAdapter, AcquirerEntry, AcquirerRouter, register, insert_by_priority,
}

-- The router that `register` builds is in the order of the priorities.
abbrev pub IsOrdered : AcquirerRouter → Type 0
IsOrdered [] = Unit
IsOrdered (e ∷ es) = All (λ f. e.priority ≤ f.priority) es × IsOrdered es

All-insert :
    (P : AcquirerEntry → Type 0) (e : AcquirerEntry) (es : AcquirerRouter)
    → P e
    → All P es
    → All P (insert_by_priority e es)
All-insert P e [] h k = (h, tt)
All-insert P e (f ∷ fs) h k = elim (Bool-cases (ltb e.priority f.priority)) [
  | inl before ↦ rw before (h, (k.0, k.1))
  | inr after ↦ rw after (k.0, All-insert P e fs h k.1)
]

All-weaken :
    (n m : ℕ) (es : AcquirerRouter)
    → n ≤ m
    → All (λ f. m ≤ f.priority) es
    → All (λ f. n ≤ f.priority) es
All-weaken n m [] h k = tt
All-weaken n m (f ∷ fs) h k = (omega (arith, h, k.0), All-weaken n m fs h k.1)

insert-IsOrdered :
    (e : AcquirerEntry) (es : AcquirerRouter) → IsOrdered es → IsOrdered (insert_by_priority e es)
insert-IsOrdered e [] h = (tt, tt)
insert-IsOrdered e (f ∷ fs) h = elim (Bool-cases (ltb e.priority f.priority)) [
  | inl before ↦
      let less : e.priority ≤ f.priority = ground (arith, before) in
      rw before ((less, All-weaken e.priority f.priority fs less h.0), (h.0, h.1))
  | inr after ↦ rw after (All-insert _ e fs (ground (arith, after)) h.0, insert-IsOrdered e fs h.1)
]

-- The adapters and their priorities, registered one after the other.
abbrev pub register_all : List (AcquirerAdapter × ℕ) → AcquirerRouter → AcquirerRouter
register_all [] es = es
register_all ((adapter, priority) ∷ rest) es = register_all rest (register adapter priority es)

register_all-IsOrdered_from :
    (adapters : List (AcquirerAdapter × ℕ)) (es : AcquirerRouter)
    → IsOrdered es
    → IsOrdered (register_all adapters es)
unfolding register
register_all-IsOrdered_from [] es h = h
register_all-IsOrdered_from ((adapter, priority) ∷ rest) es h =
    register_all-IsOrdered_from rest _ (insert-IsOrdered _ es h)

-- A router is in the order of its priority numbers, whatever the order of the registrations.
pub register_all-IsOrdered :
    (adapters : List (AcquirerAdapter × ℕ)) → IsOrdered (register_all adapters [])
register_all-IsOrdered adapters = register_all-IsOrdered_from adapters [] tt
