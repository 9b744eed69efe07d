-- ===== src/Config/Profiles.antt =====
-- config.rs: the list of saved profiles has one profile of an id, the one that was stored last.
use h_agent_core.Base.{
  String, Bool, true, false, not, ◌&&◌, List, [], ◌∷◌, ◌++◌, Option, none, some, if◌then◌else◌,
  str_eq, trim, is_empty, trim-trim, All, trim_start, trim_end_by, is_whitespace, Bool-cases,
  append-nil, append_assoc, ◌≡◌, refl, ap, sym, ◌∙◌, arith, inl, inr,
}
use text.Mathlib.TextEquality.{eq_iff}
use text.Mathlib.TextPositions.{eq_refl}
use h_agent_core.Config.Types.{ProviderPreset, key_id}
use h_agent_core.Config.Profile.{ProviderConfig, ensure_id, id_of}
use h_agent_core.Config.Settings.{
  Config, put_profile, find_profile, drop_profile, unique_profiles, saved_profiles, upsert_provider,
  remove_provider_by_id, ensure_provider_profiles,
}

pub find_profile-put_profile :
    (id : String) (p : ProviderConfig) (l : List ProviderConfig)
    → find_profile id (put_profile p l)
      ≡ (if str_eq (id_of p) id then some p else find_profile id l)
unfolding find_profile put_profile
find_profile-put_profile id p [] = refl
find_profile-put_profile id p (q ∷ l) = ground (
  arith,
  eq_iff (id_of p) id,
  eq_iff (id_of q) id,
  eq_iff (id_of q) (id_of p),
  find_profile-put_profile id p l,
)

-- No two profiles of the list have the same id.
abbrev pub Distinct : List ProviderConfig → Type 0
Distinct [] = Unit
Distinct (p ∷ ps) = (find_profile (id_of p) ps ≡ none) × Distinct ps

put_profile-Distinct :
    (p : ProviderConfig) (l : List ProviderConfig) → Distinct l → Distinct (put_profile p l)
unfolding put_profile find_profile
put_profile-Distinct p [] d = (refl, tt)
put_profile-Distinct p (q ∷ l) (n, d) = elim (Bool-cases (str_eq (id_of q) (id_of p))) [
  | inl e ↦ rw e (rw ((eq_iff (id_of q) (id_of p)).0 e) at n, d)
  | inr e ↦ rw e (
    ground (
      arith,
      find_profile-put_profile (id_of q) p l,
      eq_iff (id_of p) (id_of q),
      eq_iff (id_of q) (id_of p),
    ),
    put_profile-Distinct p l d,
  )
]

unique_profiles-Distinct :
    (unique ps : List ProviderConfig) → Distinct unique → Distinct (unique_profiles unique ps)
unfolding unique_profiles
unique_profiles-Distinct unique [] d = d
unique_profiles-Distinct unique (p ∷ ps) d =
    unique_profiles-Distinct (put_profile (ensure_id p) unique) ps
      (put_profile-Distinct (ensure_id p) unique d)

drop_profile-find :
    (id j : String) (l : List ProviderConfig)
    → Distinct l
    → find_profile j (drop_profile id l) ≡ (if str_eq id j then none else find_profile j l)
unfolding drop_profile find_profile
drop_profile-find id j [] d = ground arith
drop_profile-find id j (q ∷ l) (n, d) =
    ground (arith, eq_iff (id_of q) id, eq_iff (id_of q) j, eq_iff id j, drop_profile-find id j l d)

drop_profile-Distinct :
    (id : String) (l : List ProviderConfig) → Distinct l → Distinct (drop_profile id l)
unfolding drop_profile
drop_profile-Distinct id [] d = tt
drop_profile-Distinct id (q ∷ l) (n, d) = elim (Bool-cases (str_eq (id_of q) id)) [
  | inl e ↦ rw e d
  | inr e ↦
      rw e (ground (arith, drop_profile-find id (id_of q) l d, n), drop_profile-Distinct id l d)
]

-- The profile of an id that stands last in a list, after its id is stamped.
abbrev pub newest : String → List ProviderConfig → Option ProviderConfig
newest id [] = none
newest id (p ∷ ps) = elim (newest id ps) [
  | some q ↦ some q
  | none ↦ if str_eq (id_of (ensure_id p)) id then some (ensure_id p) else none
]

abbrev first_of : Option ProviderConfig → Option ProviderConfig → Option ProviderConfig
first_of none o = o
first_of (some p) o = some p

unique_profiles-newest :
    (id : String) (unique ps : List ProviderConfig)
    → find_profile id (unique_profiles unique ps) ≡ first_of (newest id ps) (find_profile id unique)
unfolding unique_profiles
unique_profiles-newest id unique [] = refl
unique_profiles-newest id unique (p ∷ ps) = ground (
  arith,
  unique_profiles-newest id (put_profile (ensure_id p) unique) ps,
  find_profile-put_profile id (ensure_id p) unique,
)

key_id-IsStamped :
    (preset : ProviderPreset)
    → (is_empty (key_id preset) ≡ false) × (trim (key_id preset) ≡ key_id preset)
unfolding key_id trim trim_start trim_end_by is_whitespace
key_id-IsStamped ProviderPreset.open_ai = (refl, refl)
key_id-IsStamped ProviderPreset.deep_seek = (refl, refl)
key_id-IsStamped ProviderPreset.qwen = (refl, refl)
key_id-IsStamped ProviderPreset.volcano = (refl, refl)
key_id-IsStamped ProviderPreset.custom = (refl, refl)

-- An id that `ensure_id` leaves as it is.
abbrev pub IsStamped : ProviderConfig → Type 0
IsStamped p = (is_empty p.id ≡ false) × (trim p.id ≡ p.id)

ensure_id-IsStamped : (p : ProviderConfig) → IsStamped (ensure_id p)
unfolding ensure_id
ensure_id-IsStamped p = elim (Bool-cases (is_empty (trim p.id))) [
  | inl e ↦ rw e (key_id-IsStamped p.preset)
  | inr e ↦ rw e (e, trim-trim p.id)
]

ensure_id_fixed : (p : ProviderConfig) → IsStamped p → ensure_id p ≡ p
unfolding ensure_id
ensure_id_fixed p (e, t) =
    let same : (if is_empty (trim p.id) then key_id p.preset else trim p.id) ≡ p.id = rw (t, e) in
    ap (λ i. record p { id = i }) same

put_profile-All :
    (P : ProviderConfig → Type 0) (p : ProviderConfig) (l : List ProviderConfig)
    → P p
    → All P l
    → All P (put_profile p l)
unfolding put_profile
put_profile-All P p [] h k = (h, tt)
put_profile-All P p (q ∷ l) h (a, k) = elim (Bool-cases (str_eq (id_of q) (id_of p))) [
  | inl e ↦ rw e (h, k)
  | inr e ↦ rw e (a, put_profile-All P p l h k)
]

unique_profiles-IsStamped :
    (unique ps : List ProviderConfig)
    → All IsStamped unique
    → All IsStamped (unique_profiles unique ps)
unfolding unique_profiles
unique_profiles-IsStamped unique [] h = h
unique_profiles-IsStamped unique (p ∷ ps) h =
    unique_profiles-IsStamped (put_profile (ensure_id p) unique) ps
      (put_profile-All IsStamped (ensure_id p) unique (ensure_id-IsStamped p) h)

put_profile_new :
    (p : ProviderConfig) (l : List ProviderConfig)
    → find_profile (id_of p) l ≡ none
    → put_profile p l ≡ l ++ p ∷ []
unfolding put_profile find_profile
put_profile_new p [] h = refl
put_profile_new p (q ∷ l) h = elim (Bool-cases (str_eq (id_of q) (id_of p))) [
  | inl e ↦ let h' : some q ≡ none = rw e at h in cc
  | inr e ↦ rw e (ap (λ t. q ∷ t) (put_profile_new p l (rw e at h)))
]

-- None of the ids of the second list is in the first.
abbrev Fresh : List ProviderConfig → List ProviderConfig → Type 0
Fresh unique l = All (λ q. find_profile (id_of q) unique ≡ none) l

Fresh-put_profile :
    (unique : List ProviderConfig) (p : ProviderConfig) (l : List ProviderConfig)
    → find_profile (id_of p) l ≡ none
    → Fresh unique l
    → Fresh (put_profile p unique) l
unfolding find_profile
Fresh-put_profile unique p [] n h = tt
Fresh-put_profile unique p (q ∷ l) n (a, h) = elim (Bool-cases (str_eq (id_of q) (id_of p))) [
  | inl e ↦ let n' : some q ≡ none = rw e at n in cc
  | inr e ↦ (
    ground (
      arith,
      find_profile-put_profile (id_of q) p unique,
      eq_iff (id_of p) (id_of q),
      eq_iff (id_of q) (id_of p),
    ),
    Fresh-put_profile unique p l (rw e at n) h,
  )
]

unique_profiles_fixed :
    (unique l : List ProviderConfig)
    → All IsStamped l
    → Distinct l
    → Fresh unique l
    → unique_profiles unique l ≡ unique ++ l
unfolding unique_profiles
unique_profiles_fixed unique [] s d f = sym (append-nil unique)
unique_profiles_fixed unique (p ∷ l) (s, ss) (n, d) (f, fs) = rw (ensure_id_fixed p s) (
    unique_profiles_fixed (put_profile p unique) l ss d (Fresh-put_profile unique p l n fs)
    ∙ (ap (λ u. u ++ l) (put_profile_new p unique f) ∙ append_assoc unique (p ∷ []) l))

Fresh-nil : (l : List ProviderConfig) → Fresh [] l
unfolding find_profile
Fresh-nil [] = tt
Fresh-nil (q ∷ l) = (refl, Fresh-nil l)

ensure_id_idem : (p : ProviderConfig) → ensure_id (ensure_id p) ≡ ensure_id p
ensure_id_idem p = ensure_id_fixed (ensure_id p) (ensure_id-IsStamped p)

saved_profiles-Distinct :
    (b : Bool) (active : ProviderConfig) (ps : List ProviderConfig)
    → Distinct (saved_profiles b active ps)
unfolding saved_profiles
saved_profiles-Distinct true active ps = unique_profiles-Distinct [] ps tt
saved_profiles-Distinct false active ps =
    put_profile-Distinct _ _ (unique_profiles-Distinct [] ps tt)

saved_profiles-IsStamped :
    (b : Bool) (active : ProviderConfig) (ps : List ProviderConfig)
    → All IsStamped (saved_profiles b active ps)
unfolding saved_profiles
saved_profiles-IsStamped true active ps = unique_profiles-IsStamped [] ps tt
saved_profiles-IsStamped false active ps =
    put_profile-All IsStamped _ _ (ensure_id-IsStamped (ensure_id active))
      (unique_profiles-IsStamped [] ps tt)

saved_profiles_fixed :
    (active : ProviderConfig) (l : List ProviderConfig)
    → All IsStamped l
    → Distinct l
    → saved_profiles true active l ≡ l
unfolding saved_profiles
saved_profiles_fixed active l s d = unique_profiles_fixed [] l s d (Fresh-nil l)

saved_profiles-newest :
    (b : Bool) (active : ProviderConfig) (ps : List ProviderConfig) (id : String)
    → find_profile id (saved_profiles b active ps) ≡ (
        if not b && str_eq (id_of (ensure_id active)) id
        then some (ensure_id active)
        else newest id ps)
unfolding saved_profiles find_profile
saved_profiles-newest true active ps id = ground (arith, unique_profiles-newest id [] ps)
saved_profiles-newest false active ps id = rw (ensure_id_idem active) (
    ground (
      arith,
      find_profile-put_profile id (ensure_id active) (unique_profiles [] ps),
      unique_profiles-newest id [] ps,
    ))

module _ {F : Type 0} where
  -- Once the ids are stamped, the list has no two profiles of the same id, every id is one that
  -- stamping leaves as it is, and doing it again changes nothing.
  pub ensure_provider_profiles-Distinct :
      (c : Config F)
      → Distinct (ensure_provider_profiles c).providers
        × All IsStamped (ensure_provider_profiles c).providers
        × (ensure_provider_profiles (ensure_provider_profiles c) ≡ ensure_provider_profiles c)
  unfolding ensure_provider_profiles
  ensure_provider_profiles-Distinct c =
      let b = c.provider_profiles_initialized in
      let d = saved_profiles-Distinct b c.provider c.providers in
      let s = saved_profiles-IsStamped b c.provider c.providers in
      (
        d,
        s,
        rw (ensure_id_idem c.provider) (
            rw (
              saved_profiles_fixed (ensure_id c.provider) (saved_profiles b c.provider c.providers)
                s d)),
      )

  -- A configuration finds, by an id, the active profile if it was never initialized and its
  -- profile has this id, and otherwise the last profile in the file that has it.
  pub ensure_provider_profiles-newest :
      (c : Config F) (id : String)
      → find_profile id (ensure_provider_profiles c).providers ≡ (
          if not c.provider_profiles_initialized && str_eq (id_of (ensure_id c.provider)) id
          then some (ensure_id c.provider)
          else newest id c.providers)
  unfolding ensure_provider_profiles
  ensure_provider_profiles-newest c id =
      saved_profiles-newest c.provider_profiles_initialized c.provider c.providers id

  -- After a profile is stored in a list without two profiles of the same id, removing its id
  -- gives it back as stored, leaves no profile of the id saved, and every other as it was.
  pub remove_provider_by_id-upsert_provider :
      (c : Config F) (p : ProviderConfig) (j : String)
      → Distinct c.providers
      → ((remove_provider_by_id (upsert_provider c p) (id_of (ensure_id p))).1 ≡ some (ensure_id p))
        × (find_profile j
              (remove_provider_by_id (upsert_provider c p) (id_of (ensure_id p))).0.providers
            ≡ (if str_eq (id_of (ensure_id p)) j then none else find_profile j c.providers))
        × Distinct (remove_provider_by_id (upsert_provider c p) (id_of (ensure_id p))).0.providers
  unfolding remove_provider_by_id upsert_provider
  remove_provider_by_id-upsert_provider c p j d =
      let s : Distinct (put_profile (ensure_id p) c.providers) =
        put_profile-Distinct (ensure_id p) c.providers d in
      (
        ground (
          arith,
          find_profile-put_profile (id_of (ensure_id p)) (ensure_id p) c.providers,
          eq_refl (id_of (ensure_id p)),
        ),
        ground (
          arith,
          drop_profile-find (id_of (ensure_id p)) j (put_profile (ensure_id p) c.providers) s,
          find_profile-put_profile j (ensure_id p) c.providers,
        ),
        drop_profile-Distinct (id_of (ensure_id p)) (put_profile (ensure_id p) c.providers) s,
      )
