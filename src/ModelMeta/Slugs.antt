-- ===== src/ModelMeta/Slugs.antt =====
-- model_meta.rs: the order of the providers of the community database.
use h_agent_core.Base.{ℕ, ◌≤◌, String, List, [], ◌∷◌, leb, All, Bool-cases, inl, inr, arith}
use h_agent_core.ModelMeta.{community_slug_priority, insert_by_priority, sort_by_priority}

module _ {A : Type 0} where
  -- The providers stand in the order of their priorities.
  abbrev pub InOrder : List (String × A) → Type 0
  InOrder [] = Unit
  InOrder (p ∷ ps) =
      All (λ q. community_slug_priority p.0 ≤ community_slug_priority q.0) ps × InOrder ps

  insert_by_priority-All :
      (P : String × A → Type 0) (p : String × A) (ps : List (String × A))
      → P p
      → All P ps
      → All P (insert_by_priority p ps)
  unfolding insert_by_priority
  insert_by_priority-All P p [] h k = (h, tt)
  insert_by_priority-All P p (q ∷ ps) h (a, k) =
      elim (Bool-cases (leb (community_slug_priority p.0) (community_slug_priority q.0))) [
        | inl e ↦ rw e (h, (a, k))
        | inr e ↦ rw e (a, insert_by_priority-All P p ps h k)
      ]

  All-le :
      (m l : ℕ) (ps : List (String × A))
      → m ≤ l
      → All (λ q. l ≤ community_slug_priority q.0) ps
      → All (λ q. m ≤ community_slug_priority q.0) ps
  All-le m l [] h k = tt
  All-le m l (p ∷ ps) h (a, k) = (omega arith, All-le m l ps h k)

  insert_by_priority-InOrder :
      (p : String × A) (ps : List (String × A)) → InOrder ps → InOrder (insert_by_priority p ps)
  unfolding insert_by_priority
  insert_by_priority-InOrder p [] h = (tt, tt)
  insert_by_priority-InOrder p (q ∷ ps) (a, h) =
      elim (Bool-cases (leb (community_slug_priority p.0) (community_slug_priority q.0))) [
        | inl e ↦
            let le : community_slug_priority p.0 ≤ community_slug_priority q.0 = ground arith in
            rw e ((le, All-le _ _ ps le a), (a, h))
        | inr e ↦ rw e (
          insert_by_priority-All (λ r. community_slug_priority q.0 ≤ community_slug_priority r.0) p
              ps (ground arith) a,
          insert_by_priority-InOrder p ps h,
        )
      ]

  pub sort_by_priority-InOrder : (ps : List (String × A)) → InOrder (sort_by_priority ps)
  unfolding sort_by_priority
  sort_by_priority-InOrder [] = tt
  sort_by_priority-InOrder (p ∷ ps) =
      insert_by_priority-InOrder p (sort_by_priority ps) (sort_by_priority-InOrder ps)
