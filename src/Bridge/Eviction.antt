-- ===== src/Bridge/Eviction.antt =====
-- The eviction loop of `push` (bridge.rs).
use h_agent_core.Base.{
  ℕ, ◌+◌, ◌-◌, ◌≤◌, ◌≡◌, refl, ap, inl, inr, ◌||◌, List, [], ◌∷◌, ◌++◌, arith, ltb, length,
  length-append, Bool-cases,
}
use h_agent_core.Protocol.{Json, Envelope}
use h_agent_core.Bridge.{envelope_bytes, evict}

module _ {V : Type 0} ⦃j : Json V⦄ where
  abbrev pub total : List (Envelope V) → ℕ
  total [] = 0
  total (e ∷ es) = envelope_bytes e + total es

  pub total-append : (xs ys : List (Envelope V)) → total (xs ++ ys) ≡ total xs + total ys
  total-append [] ys = omega arith
  total-append (x ∷ xs) ys = omega (arith, total-append xs ys)

module _ {V : Type 0} ⦃j : Json V⦄ (most_events most_bytes : ℕ) where
  -- The loop drops a front part of the list, and keeps the byte count exact.
  pub evict_split :
      (es : List (Envelope V)) (bytes : ℕ)
      → bytes ≡ total es
      → (gone : List (Envelope V)) × (es ≡ gone ++ (evict most_events most_bytes es bytes).0)
        × ((evict most_events most_bytes es bytes).1
            ≡ total (evict most_events most_bytes es bytes).0)
  unfolding evict
  evict_split [] bytes h = ([], refl, h)
  evict_split (e ∷ es) bytes h =
      elim (Bool-cases (ltb most_events (length (e ∷ es)) || ltb most_bytes bytes)) [
        | inl over ↦
            let (gone, split, exact) = evict_split es (bytes - envelope_bytes e) (omega arith) in
            rw over (e ∷ gone, ap (λ t. e ∷ t) split, exact)
        | inr fits ↦ rw fits ([], refl, h)
      ]

  -- When the loop ends both limits hold.
  pub evict_bounds :
      (es : List (Envelope V)) (bytes : ℕ)
      → bytes ≡ total es
      → (length (evict most_events most_bytes es bytes).0 ≤ most_events)
        × ((evict most_events most_bytes es bytes).1 ≤ most_bytes)
  unfolding evict
  evict_bounds [] bytes h = omega arith
  evict_bounds (e ∷ es) bytes h = ground (arith, evict_bounds es (bytes - envelope_bytes e))

  -- The loop stops at once at a list that meets the limits.
  evict_within :
      (es : List (Envelope V)) (bytes : ℕ)
      → length es ≤ most_events
      → bytes ≤ most_bytes
      → evict most_events most_bytes es bytes ≡ (es, bytes)
  unfolding evict
  evict_within [] bytes h k = refl
  evict_within (e ∷ es) bytes h k = ground arith

  -- No longer rest of the list meets the limits: what is kept is the longest one that does.
  pub evict_longest :
      (pre suf : List (Envelope V)) (bytes : ℕ)
      → bytes ≡ total (pre ++ suf)
      → length suf ≤ most_events
      → total suf ≤ most_bytes
      → length suf ≤ length (evict most_events most_bytes (pre ++ suf) bytes).0
  unfolding evict
  evict_longest [] suf bytes h k m = rw (evict_within suf bytes k (omega arith)) (omega arith)
  evict_longest (e ∷ pre) suf bytes h k m =
      ground (arith, evict_longest pre suf (bytes - envelope_bytes e), length-append pre suf)
