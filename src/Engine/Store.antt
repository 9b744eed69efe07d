-- ===== src/Engine/Store.antt =====
-- service/engine.rs and app.rs: what a lookup finds after a change of the maps, and which runtime a
-- change through `runtime_mut` reaches.
use mathlib.Core.Bool.{true≢false}
use text.Mathlib.TextEquality.{eq_iff}
use text.Mathlib.TextPositions.{eq_refl}
use h_agent_core.Base.{
  String, true, false, List, [], ◌∷◌, ◌++◌, none, some, if◌then◌else◌, str_eq, lookup, ◌≡◌, refl,
  sym, ap, ◌∙◌, arith, Bool-cases, inl, inr,
}
use h_agent_core.App.{App, Runtime}
use h_agent_core.Engine.{remove_key, insert_key, update_key, runtime, runtime_mut}
use h_agent_core.Engine.Routing.{map_option}

pub str_eq_refl : (s : String) → str_eq s s ≡ true
str_eq_refl s = eq_refl s

pub str_eq_sound : (s t : String) → str_eq s t ≡ true → s ≡ t
str_eq_sound s t h = (eq_iff s t).0 h

-- No entry's key is both of two keys that differ.
only_one : (key a b : String) → str_eq a b ≡ false → str_eq key b ≡ true → str_eq key a ≡ false
only_one key a b h k = elim (Bool-cases (str_eq key a)) [
  | inl e ↦ absurd (
      true≢false (
        sym (str_eq_refl b)
        ∙ ap (λ x. str_eq x b) (sym (str_eq_sound key b k) ∙ str_eq_sound key a e)
        ∙ h))
  | inr e ↦ e
]

module _ {ℓ} {A : Type ℓ} where
  pub lookup-remove_same :
      (key : String) (es : List (String × A)) → lookup key (remove_key key es) ≡ none
  lookup-remove_same key [] = refl
  lookup-remove_same key ((k, v) ∷ es) = elim (Bool-cases (str_eq k key)) [
    | inl e ↦ rw e (lookup-remove_same key es)
    | inr e ↦ rw e (rw e (lookup-remove_same key es))
  ]

  pub lookup-remove_other :
      (a b : String) (es : List (String × A))
      → str_eq a b ≡ false
      → lookup a (remove_key b es) ≡ lookup a es
  lookup-remove_other a b [] h = refl
  lookup-remove_other a b ((k, v) ∷ es) h = elim (Bool-cases (str_eq k b)) [
    | inl e ↦ rw e (rw (only_one k a b h e) (lookup-remove_other a b es h))
    | inr e ↦ rw e (ap (λ o. if str_eq k a then some v else o) (lookup-remove_other a b es h))
  ]

  lookup-append_missing :
      (key : String) (es : List (String × A)) (v : A)
      → lookup key es ≡ none
      → lookup key (es ++ (key, v) ∷ []) ≡ some v
  lookup-append_missing key [] v h = rw (str_eq_refl key) refl
  lookup-append_missing key ((k, w) ∷ es) v h = elim (Bool-cases (str_eq k key)) [
    | inl e ↦ absurd (ground arith)
    | inr e ↦
        rw e (
          lookup-append_missing key es v
            (sym (ap (λ b. if b then some w else lookup key es) e) ∙ h))
  ]

  pub lookup-insert_same :
      (key : String) (v : A) (es : List (String × A)) → lookup key (insert_key key v es) ≡ some v
  lookup-insert_same key v es =
      lookup-append_missing key (remove_key key es) v (lookup-remove_same key es)

  lookup-append_other :
      (a b : String) (es : List (String × A)) (v : A)
      → str_eq b a ≡ false
      → lookup a (es ++ (b, v) ∷ []) ≡ lookup a es
  lookup-append_other a b [] v h = rw h refl
  lookup-append_other a b ((k, w) ∷ es) v h =
      ap (λ o. if str_eq k a then some w else o) (lookup-append_other a b es v h)

  pub lookup-insert_other :
      (a b : String) (v : A) (es : List (String × A))
      → str_eq a b ≡ false
      → str_eq b a ≡ false
      → lookup a (insert_key b v es) ≡ lookup a es
  lookup-insert_other a b v es h k =
      lookup-append_other a b (remove_key b es) v k ∙ lookup-remove_other a b es h

  pub lookup-update_same :
      (key : String) (f : A → A) (es : List (String × A))
      → lookup key (update_key key f es) ≡ map_option f (lookup key es)
  unfolding update_key
  lookup-update_same key f [] = refl
  lookup-update_same key f ((k, v) ∷ es) = elim (Bool-cases (str_eq k key)) [
    | inl e ↦ rw e (rw e refl)
    | inr e ↦ rw e (rw e (lookup-update_same key f es))
  ]

  pub lookup-update_other :
      (a b : String) (f : A → A) (es : List (String × A))
      → str_eq a b ≡ false
      → lookup a (update_key b f es) ≡ lookup a es
  unfolding update_key
  lookup-update_other a b f [] h = refl
  lookup-update_other a b f ((k, v) ∷ es) h = elim (Bool-cases (str_eq k b)) [
    | inl e ↦ rw e (rw (only_one k a b h e) refl)
    | inr e ↦ rw e (ap (λ o. if str_eq k a then some v else o) (lookup-update_other a b f es h))
  ]

module _ {V F : Type 0} where
  pub runtime-runtime_mut :
      (app : App V F) (id : String) (f : Runtime V F → Runtime V F)
      → runtime (runtime_mut app id f) id ≡ map_option f (runtime app id)
  unfolding runtime runtime_mut
  runtime-runtime_mut app id f = elim (Bool-cases (str_eq id app.active_session)) [
    | inl e ↦ rw e (rw e refl)
    | inr e ↦ rw e (rw e (lookup-update_same id f app.background))
  ]

  pub runtime-runtime_mut_other :
      (app : App V F) (other id : String) (f : Runtime V F → Runtime V F)
      → str_eq other id ≡ false
      → runtime (runtime_mut app id f) other ≡ runtime app other
  unfolding runtime runtime_mut
  runtime-runtime_mut_other app other id f h = elim (Bool-cases (str_eq id app.active_session)) [
    | inl e ↦
        (let n : str_eq other app.active_session ≡ false =
            ap (λ x. str_eq other x) (sym (str_eq_sound id app.active_session e)) ∙ h in
          rw e (rw n refl))
    | inr e ↦ rw e (
        ap (λ o. if str_eq other app.active_session then some app.current else o)
          (lookup-update_other other id f app.background h))
  ]
