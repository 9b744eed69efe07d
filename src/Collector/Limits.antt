-- ===== src/Collector/Limits.antt =====
-- agent.rs: the accounting of `StreamCollector`, that is the bytes and the number of the calls
-- that it holds, complete or not, against its limits.
use h_agent_core.Base.{
  ℕ, ◌+◌, ◌≤◌, String, Bool, true, false, List, [], ◌∷◌, length, byte_len, str_eq, ◌≡◌, refl, arith,
  Bool-cases, inl, inr, All,
}
use h_agent_core.Collector.{PartialToolCall, find_slot, put_slot, take_partial, or_default, is_none}

abbrev pub Partials : Type 0
Partials = List (String × PartialToolCall)

abbrev pub partial_bytes : Partials → ℕ
partial_bytes [] = 0
partial_bytes ((s, p) ∷ ps) = byte_len p.arguments + partial_bytes ps

abbrev pub Fits : ℕ → String × PartialToolCall → Type 0
Fits m (s, p) = byte_len p.arguments ≤ m

pub put_slot-bytes :
    (slot : String) (q : PartialToolCall) (ps : Partials)
    → partial_bytes (put_slot slot q ps) + byte_len (or_default (find_slot slot ps)).arguments
      ≡ partial_bytes ps + byte_len q.arguments
unfolding put_slot find_slot
put_slot-bytes slot q [] = omega arith
put_slot-bytes slot q ((s, p) ∷ ps) =
    let ih = put_slot-bytes slot q ps in
    elim (Bool-cases (str_eq s slot)) [
      | inl e ↦ rw e (omega arith)
      | inr e ↦ rw e (omega (arith, ih))
    ]

abbrev one_if : Bool → ℕ
one_if true = 1
one_if false = 0

pub put_slot-length :
    (slot : String) (q : PartialToolCall) (ps : Partials)
    → length (put_slot slot q ps) ≡ length ps + one_if (is_none (find_slot slot ps))
unfolding put_slot find_slot
put_slot-length slot q [] = refl
put_slot-length slot q ((s, p) ∷ ps) =
    let ih = put_slot-length slot q ps in
    elim (Bool-cases (str_eq s slot)) [
      | inl e ↦ rw e (omega arith)
      | inr e ↦ rw e (omega (arith, ih))
    ]

pub put_slot-Fits :
    (m : ℕ) (slot : String) (q : PartialToolCall) (ps : Partials)
    → byte_len q.arguments ≤ m
    → All (Fits m) ps
    → All (Fits m) (put_slot slot q ps)
unfolding put_slot
put_slot-Fits m slot q [] h all = (h, tt)
put_slot-Fits m slot q ((s, p) ∷ ps) h (fits, all) =
    let ih = put_slot-Fits m slot q ps h all in
    elim (Bool-cases (str_eq s slot)) [ inl e ↦ rw e (h, all) | inr e ↦ rw e (fits, ih) ]

pub find_slot-Fits :
    (m : ℕ) (slot : String) (ps : Partials)
    → All (Fits m) ps
    → byte_len (or_default (find_slot slot ps)).arguments ≤ m
unfolding find_slot
find_slot-Fits m slot [] all = omega arith
find_slot-Fits m slot ((s, p) ∷ ps) (fits, all) =
    let ih = find_slot-Fits m slot ps all in
    elim (Bool-cases (str_eq s slot)) [ inl e ↦ rw e fits | inr e ↦ rw e ih ]

pub take_partial-bytes :
    (id : String) (ps : Partials)
    → (take_partial id ps).0 + partial_bytes (take_partial id ps).1 ≡ partial_bytes ps
unfolding take_partial
take_partial-bytes id [] = refl
take_partial-bytes id ((s, p) ∷ ps) =
    let ih = take_partial-bytes id ps in
    elim (Bool-cases (str_eq p.id id)) [ inl e ↦ rw e refl | inr e ↦ rw e (omega (arith, ih)) ]

pub take_partial-length : (id : String) (ps : Partials) → length (take_partial id ps).1 ≤ length ps
unfolding take_partial
take_partial-length id [] = omega arith
take_partial-length id ((s, p) ∷ ps) =
    let ih = take_partial-length id ps in
    elim (Bool-cases (str_eq p.id id)) [
      | inl e ↦ rw e (omega arith)
      | inr e ↦ rw e (omega (arith, ih))
    ]

pub take_partial-Fits :
    (m : ℕ) (id : String) (ps : Partials) → All (Fits m) ps → All (Fits m) (take_partial id ps).1
unfolding take_partial
take_partial-Fits m id [] all = all
take_partial-Fits m id ((s, p) ∷ ps) (fits, all) =
    let ih = take_partial-Fits m id ps all in
    elim (Bool-cases (str_eq p.id id)) [ inl e ↦ rw e all | inr e ↦ rw e (fits, ih) ]
