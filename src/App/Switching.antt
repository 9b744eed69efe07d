-- ===== src/App/Switching.antt =====
-- app/runtime.rs: what `activate_session` does to the background.
use h_agent_core.Base.{
  ℕ, suc, ◌+◌, ◌≤◌, ◌<◌, String, ◌≡◌, refl, sym, ap, ◌∙◌, inl, inr, Bool, true, false, [], ◌∷◌,
  Option, none, some, arith, leb, length, str_eq, Bool-cases, Option-cases,
}
use h_agent_core.App.{
  App, Background, Runtime, take_oldest_idle, take_key, put_key, make_room, contains_key,
  activate_session,
}
use h_agent_core.App.Capacity.{
  Taken, AllAtWork, take_oldest_idle-Taken, evict_background_overflow-IsEvicted,
}

abbrev one_if : Bool → ℕ
one_if true = 1
one_if false = 0

reached : (m n : ℕ) → leb m n ≡ true → m ≤ n
reached m n h = ground arith

below : (m n : ℕ) → leb m n ≡ false → n < m
below m n h = ground arith

none_of {ℓ} : {A : Type ℓ} (a b : A) → some a ≡ some b → a ≡ b
none_of a b h = cc

module _ {V F : Type 0} where
  put_key-length :
      (id : String) (r : Runtime V F) (bg : Background V F)
      → length (put_key id r bg) ≤ suc (length bg)
  unfolding put_key
  put_key-length id r [] = omega arith
  put_key-length id r (e ∷ es) =
      let ih = put_key-length id r es in
      elim (Bool-cases (str_eq (e.0) id)) [
        | inl h ↦ rw h (omega arith)
        | inr h ↦ rw h (omega (arith, ih))
      ]

  take_key-length :
      (id : String) (built : Runtime V F) (bg : Background V F)
      → length bg ≡ length (take_key id built bg).1 + one_if (contains_key id bg)
  unfolding take_key
  take_key-length id built [] = omega arith
  take_key-length id built (e ∷ es) =
      let ih = take_key-length id built es in
      elim (Bool-cases (str_eq (e.0) id)) [
        | inl h ↦ rw h (omega arith)
        | inr h ↦ rw h (omega (arith, ih))
      ]

  unloaded-length :
      (capacity : ℕ) (bg room : Background V F)
      (found : Option ((String × Runtime V F) × Background V F))
      → Taken bg found
      → length bg ≤ capacity
      → (elim found [ none ↦ none | some (oldest, rest) ↦ some rest ]) ≡ some room
      → length room < capacity
  unloaded-length capacity bg room none taken h e = cc
  unloaded-length capacity bg room (some (oldest, rest)) (i, count, same, first) h e =
      omega (arith, count, ap length (none_of rest room e))

  -- Once there is room, the background is below its capacity when the target has left it.
  make_room-length :
      (capacity : ℕ) (id : String) (built : Runtime V F) (bg room : Background V F)
      → length bg ≤ capacity
      → make_room capacity id bg ≡ some room
      → length (take_key id built room).1 < capacity
  unfolding make_room
  make_room-length capacity id built bg room h =
      let k = take_key-length id built room in
      elim (Bool-cases (contains_key id bg)) [
        | inl c ↦ rw c (λ e.
            let same = none_of bg room e in
            let present : contains_key id room ≡ true = ap (contains_key id) (sym same) ∙ c in
            omega (arith, k, ap one_if present, ap length same))
        | inr c ↦ rw c (elim (Bool-cases (leb capacity (length bg))) [
          | inl full ↦ rw full (λ e.
              let u =
                unloaded-length capacity bg room (take_oldest_idle bg) (take_oldest_idle-Taken bg) h
                  e in
              omega (arith, u, k))
          | inr free ↦ rw free (λ e.
              let same = none_of bg room e in omega (arith, below _ _ free, k, ap length same))
        ])
      ]

  none_idle :
      (bg : Background V F) (found : Option ((String × Runtime V F) × Background V F))
      → Taken bg found
      → (elim found [ none ↦ none | some (oldest, rest) ↦ some rest ]) ≡ none
      → AllAtWork bg
  none_idle bg none taken e = taken
  none_idle bg (some (oldest, rest)) taken e = cc

  make_room-AllAtWork :
      (capacity : ℕ) (id : String) (bg : Background V F)
      → make_room capacity id bg ≡ none
      → (contains_key id bg ≡ false) × (capacity ≤ length bg) × AllAtWork bg
  unfolding make_room
  make_room-AllAtWork capacity id bg = elim (Bool-cases (contains_key id bg)) [
    | inl c ↦ rw c (λ e. cc)
    | inr c ↦ rw c (elim (Bool-cases (leb capacity (length bg))) [
      | inl full ↦ rw full (λ e. (
        refl,
        reached _ _ full,
        none_idle bg (take_oldest_idle bg) (take_oldest_idle-Taken bg) e,
      ))
      | inr free ↦ rw free (λ e. cc)
    ])
  ]

  -- Switching to another session is refused only if that session is not in the background, the
  -- background has reached its capacity, and every runtime in it is at work.
  pub activate_session-AllAtWork :
      (app : App V F) (built : Runtime V F) (now : ℕ) (id : String)
      → activate_session app built now id ≡ none
      → (contains_key id app.background ≡ false)
        × (app.max_background_sessions ≤ length app.background)
        × AllAtWork app.background
  unfolding activate_session
  activate_session-AllAtWork app built now id = elim (Bool-cases (str_eq id app.active_session)) [
    | inl same ↦ rw same (λ e. cc)
    | inr other ↦
        rw other (elim (Option-cases (make_room app.max_background_sessions id app.background)) [
          | inl none_left ↦
              λ e. make_room-AllAtWork app.max_background_sessions id app.background none_left
          | inr (room, made) ↦ rw made (λ e. cc)
        ])
  ]

  -- Switching keeps a background that is within its capacity within it.
  activate_session-le :
      (app after : App V F) (built : Runtime V F) (now : ℕ) (id : String)
      → length app.background ≤ app.max_background_sessions
      → activate_session app built now id ≡ some after
      → length after.background ≤ app.max_background_sessions
  unfolding activate_session
  activate_session-le app after built now id h = elim (Bool-cases (str_eq id app.active_session)) [
    | inl same ↦ rw same (λ e. omega (arith, ap (λ a. length a.background) (none_of app after e)))
    | inr other ↦
        rw other (elim (Option-cases (make_room app.max_background_sessions id app.background)) [
          | inl none_left ↦ rw none_left (λ e. cc)
          | inr (room, made) ↦
              let l =
                make_room-length app.max_background_sessions id built app.background room h made in
              let rest = (take_key id built room).1 in
              let parked =
                put_key app.active_session (record app.current { parked_at = now }) rest in
              let p =
                put_key-length app.active_session (record app.current { parked_at = now }) rest in
              let v = evict_background_overflow-IsEvicted app.max_background_sessions parked in
              rw made (λ e.
                omega (arith, l, p, v.fewer, ap (λ a. length a.background) (none_of _ after e)))
        ])
  ]
