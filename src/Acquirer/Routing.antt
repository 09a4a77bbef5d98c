-- ===== src/Acquirer/Routing.antt =====
-- What the router answers, and which breakers it touches.
use payment_gateway_in_rust.Prelude.{
  ap, sym, subst, ◌⊎◌, All, ◌≡◌, refl, Bool, true, false, inl, inr, Bool-cases, List, [], ◌∷◌, map,
  keep, arith, find, is_some, Option, none, some, if◌then◌else◌,
}
use payment_gateway_in_rust.Common.{Timestamp, AppError, AppResult, ok, err, all_acquirers_failed}
use payment_gateway_in_rust.Acquirer.CircuitBreaker.{CircuitBreaker, allow_request, is_open}
use payment_gateway_in_rust.Acquirer.Router.{
  Charged, is_decline, ChargeRequest, ChargeResponse, AcquirerAdapter, AcquirerEntry,
  AcquirerRouter, Reply, after_reply, charge_loop, candidate, charge, ask_first,
}

-- The answer among the replies of the candidates in their order: the first that is a response or a
-- decline, or the last error.
unfoldable pub first_answer : AppError → List (AppResult ChargeResponse) → AppResult ChargeResponse
first_answer last_err [] = err last_err
first_answer last_err (ok response ∷ rs) = ok response
first_answer last_err (err x ∷ rs) =
    let rest = first_answer x rs in if is_decline x then err x else rest

-- What the candidates reply to a request.
abbrev pub replies : ChargeRequest → List AcquirerEntry → List (AppResult ChargeResponse)
replies request es = map (λ e. (e.adapter.charge request).0) (keep candidate es)

closed_allows :
    (now : Timestamp) (b : CircuitBreaker) → is_open b ≡ false → allow_request now b ≡ (true, b)
unfolding allow_request is_open
closed_allows now b h = ground (arith, h)

after_reply-answer :
    (e : AcquirerEntry) (b : CircuitBreaker) (es : List AcquirerEntry) (now : Timestamp)
    (r : AppResult ChargeResponse) (rs : List (AppResult ChargeResponse))
    (later : AppError → Charged) (last_err : AppError)
    → ((x : AppError) → (later x).0 ≡ first_answer x rs)
    → (after_reply e b es now r later).0 ≡ first_answer last_err (r ∷ rs)
unfolding after_reply first_answer
after_reply-answer e b es now (ok response) rs later last_err h = refl
after_reply-answer e b es now (err x) rs later last_err h = elim (Bool-cases (is_decline x)) [
  | inl d ↦ rw d refl
  | inr n ↦ rw n (h x)
]

charge_loop-answer :
    (request : ChargeRequest) (es : List AcquirerEntry) (now : Timestamp) (last_err : AppError)
    → (charge_loop request es now last_err).0 ≡ first_answer last_err (replies request es)
unfolding charge_loop first_answer
charge_loop-answer request [] now last_err = refl
charge_loop-answer request (e ∷ es) now last_err = elim (Bool-cases (is_open e.circuit_breaker)) [
  | inl o ↦ rw o (charge_loop-answer request es now last_err)
  | inr c ↦
      rw (c, closed_allows now e.circuit_breaker c)
        (after_reply-answer e e.circuit_breaker es _ _ (replies request es) _ last_err
          λ x. charge_loop-answer request es _ x)
]

no_candidate :
    (es : List AcquirerEntry) → is_some (find candidate es) ≡ false → keep candidate es ≡ []
no_candidate [] h = refl
no_candidate (e ∷ es) h = ground (arith, h, no_candidate es)

-- A reply after which no other acquirer is asked.
abbrev pub is_final : AppResult ChargeResponse → Bool
is_final (ok response) = true
is_final (err x) = is_decline x

-- The acquirers up to the first one with a final reply, this one included.
abbrev pub until_final : ChargeRequest → List AcquirerEntry → List AcquirerAdapter
until_final request [] = []
until_final request (e ∷ es) =
    let rest = until_final request es in
    e.adapter ∷ (if is_final (e.adapter.charge request).0 then [] else rest)

after_reply-asked :
    (e : AcquirerEntry) (b : CircuitBreaker) (es : List AcquirerEntry) (now : Timestamp)
    (r : AppResult ChargeResponse) (later : AppError → Charged) (rest : List AcquirerAdapter)
    → ((x : AppError) → (later x).2 ≡ rest)
    → (after_reply e b es now r later).2 ≡ e.adapter ∷ (if is_final r then [] else rest)
unfolding after_reply
after_reply-asked e b es now (ok response) later rest h = refl
after_reply-asked e b es now (err x) later rest h = elim (Bool-cases (is_decline x)) [
  | inl d ↦ rw d refl
  | inr n ↦ rw n (ap (λ l. e.adapter ∷ l) (h x))
]

charge_loop-asked :
    (request : ChargeRequest) (es : List AcquirerEntry) (now : Timestamp) (last_err : AppError)
    → (charge_loop request es now last_err).2 ≡ until_final request (keep candidate es)
unfolding charge_loop
charge_loop-asked request [] now last_err = refl
charge_loop-asked request (e ∷ es) now last_err = elim (Bool-cases (is_open e.circuit_breaker)) [
  | inl o ↦ rw o (charge_loop-asked request es now last_err)
  | inr c ↦
      rw (c, closed_allows now e.circuit_breaker c)
        (after_reply-asked e e.circuit_breaker es _ _ _ (until_final request (keep candidate es))
          λ x. charge_loop-asked request es _ x)
]

-- Whatever the time, a charge asks the acquirers whose breakers are not open, in the order of their
-- priorities, up to the first one that accepts or declines it, and no other one. It is answered by
-- that one, or else by the last error, or by `AllAcquirersFailed` where every breaker is open.
pub charge-first_answer :
    (request : ChargeRequest) (now : Timestamp) (es : AcquirerRouter)
    → ((charge request now es).0 ≡ first_answer all_acquirers_failed (replies request es))
      × ((charge request now es).2 ≡ until_final request (keep candidate es))
unfolding charge first_answer
charge-first_answer request now es = elim (Bool-cases (is_some (find candidate es))) [
  | inl some_left ↦ rw some_left (
    charge_loop-answer request es now all_acquirers_failed,
    charge_loop-asked request es now all_acquirers_failed,
  )
  | inr none_left ↦ rw (none_left, no_candidate es none_left) (refl, refl)
]

-- The same acquirers in both, and every breaker that was open is as it was.
abbrev pub KeepsOpen : AcquirerRouter → AcquirerRouter → Type 0
KeepsOpen [] [] = Unit
KeepsOpen (e ∷ es) (f ∷ fs) =
    ((f.adapter ≡ e.adapter) × (is_open e.circuit_breaker ≡ true → f ≡ e)) × KeepsOpen es fs
KeepsOpen _ _ = ⊥

KeepsOpen-refl : (es : AcquirerRouter) → KeepsOpen es es
KeepsOpen-refl [] = tt
KeepsOpen-refl (e ∷ es) = ((refl, λ o. refl), KeepsOpen-refl es)

after_reply-KeepsOpen :
    (e : AcquirerEntry) (b : CircuitBreaker) (es : List AcquirerEntry) (now : Timestamp)
    (r : AppResult ChargeResponse) (later : AppError → Charged)
    → is_open e.circuit_breaker ≡ false
    → ((x : AppError) → KeepsOpen es (later x).1)
    → KeepsOpen (e ∷ es) (after_reply e b es now r later).1
unfolding after_reply
after_reply-KeepsOpen e b es now (ok response) later c h =
    ((refl, λ o. absurd (ground (arith, c, o))), KeepsOpen-refl es)
after_reply-KeepsOpen e b es now (err x) later c h = elim (Bool-cases (is_decline x)) [
  | inl d ↦ rw d ((refl, λ o. absurd (ground (arith, c, o))), KeepsOpen-refl es)
  | inr n ↦ rw n ((refl, λ o. absurd (ground (arith, c, o))), h x)
]

charge_loop-KeepsOpen :
    (request : ChargeRequest) (es : List AcquirerEntry) (now : Timestamp) (last_err : AppError)
    → KeepsOpen es (charge_loop request es now last_err).1
unfolding charge_loop
charge_loop-KeepsOpen request [] now last_err = tt
charge_loop-KeepsOpen request (e ∷ es) now last_err =
    elim (Bool-cases (is_open e.circuit_breaker)) [
      | inl o ↦ rw o ((refl, λ _. refl), charge_loop-KeepsOpen request es now last_err)
      | inr c ↦
          rw (c, closed_allows now e.circuit_breaker c)
            (after_reply-KeepsOpen e e.circuit_breaker es _ _ _ c
              λ x. charge_loop-KeepsOpen request es _ x)
    ]

-- The adapter of an acquirer whose breaker is not open.
abbrev pub IsOfCandidate : AcquirerRouter → AcquirerAdapter → Type 0
IsOfCandidate [] a = ⊥
IsOfCandidate (e ∷ es) a =
    ((e.adapter ≡ a) × (is_open e.circuit_breaker ≡ false)) ⊎ IsOfCandidate es a

All-later :
    (e : AcquirerEntry) (es : AcquirerRouter) (asked : List AcquirerAdapter)
    → All (IsOfCandidate es) asked
    → All (IsOfCandidate (e ∷ es)) asked
All-later e es [] h = tt
All-later e es (a ∷ asked) h = (inr h.0, All-later e es asked h.1)

until_final-candidates :
    (request : ChargeRequest) (es : AcquirerRouter)
    → All (IsOfCandidate es) (until_final request (keep candidate es))
until_final-candidates request [] = tt
until_final-candidates request (e ∷ es) = elim (Bool-cases (is_open e.circuit_breaker)) [
  | inl o ↦
      rw o (
        All-later e es (until_final request (keep candidate es))
          (until_final-candidates request es))
  | inr c ↦
      let rest =
        All-later e es (until_final request (keep candidate es))
          (until_final-candidates request es) in
      elim (Bool-cases (is_final (e.adapter.charge request).0)) [
        | inl last ↦ rw (c, last) (inl (refl, c), tt)
        | inr more ↦ rw (c, more) (inl (refl, c), rest)
      ]
]

-- A charge at any time, also long after the deadlines, leaves every open breaker open as it was, and
-- asks only acquirers whose breakers are not open: charges alone never half-open a breaker, so an
-- acquirer that tripped is not charged again.
pub charge-KeepsOpen :
    (request : ChargeRequest) (now : Timestamp) (es : AcquirerRouter)
    → KeepsOpen es (charge request now es).1 × All (IsOfCandidate es) (charge request now es).2
unfolding charge
charge-KeepsOpen request now es = (
  elim (Bool-cases (is_some (find candidate es))) [
    | inl some_left ↦ rw some_left (charge_loop-KeepsOpen request es now all_acquirers_failed)
    | inr none_left ↦ rw none_left (KeepsOpen-refl es)
  ],
  subst (All (IsOfCandidate es)) (sym (charge-first_answer request now es).1)
      (until_final-candidates request es),
)

abbrev pub allows : Timestamp → AcquirerEntry → Bool
allows now e = (allow_request now e.circuit_breaker).0

-- The answer of the acquirer that is asked, if there is one.
abbrev pub answer_of :
    {A : Type 0} → (AcquirerAdapter → Reply A) → Option AcquirerEntry → AppResult A
answer_of ask none = err all_acquirers_failed
answer_of ask (some e) = (ask e.adapter).0

-- A capture or a refund, or any other call of their loop, is answered by the first acquirer in the
-- order of priorities whose breaker allows a request at that time, and by no other one, also where
-- that answer is an error and where another acquirer has made the charge; where none allows it, the
-- answer is `AllAcquirersFailed`.
pub ask_first-answer :
    {A : Type 0} (ask : AcquirerAdapter → Reply A) (now : Timestamp) (es : AcquirerRouter)
    → (ask_first ask now es).0 ≡ answer_of ask (find (allows now) es)
unfolding ask_first
ask_first-answer ask now [] = refl
ask_first-answer ask now (e ∷ es) = elim (Bool-cases (allow_request now e.circuit_breaker).0) [
  | inl asked ↦ rw asked refl
  | inr passed ↦ rw passed (ask_first-answer ask now es)
]
