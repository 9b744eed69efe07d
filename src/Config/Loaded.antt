-- ===== src/Config/Loaded.antt =====
-- config.rs: that `load` does not panic, and what becomes of the saved profiles.
use h_agent_core.Base.{
  ℕ, String, Bool, true, false, List, Option, none, some, Result, ok, err, ◌≡◌, ◌≢◌, refl, sym, ap,
  arith,
}
use h_agent_core.Limits.{
  F32, MemoryConfig, CompactionConfig, memory_normalize, compaction_normalize,
}
use h_agent_core.Limits.Memory.{memory_normalize_total}
use h_agent_core.Limits.Compaction.{compaction_normalize_total}
use mathlib.Core.Path.{subst}
use h_agent_core.Config.Types.{ProviderKind}
use h_agent_core.Config.Profile.{ProviderConfig, Url, validate}
use h_agent_core.Config.Settings.{Config, BrowserConfig, ensure_provider_profiles, saved_profiles}
use h_agent_core.Config.Load.{
  LoadError, bail, panic, ◌>>=◌, or_panic, or_bail, overridden, kind_override, bounded_window,
  bounded_provider, bounded_browser, checked_permissions, load,
}
use h_agent_core.Config.Profiles.{Distinct, ensure_provider_profiles-Distinct}
use h_agent_core.Config.Bounds.{bind_ok, ok_inj}

-- The step does not panic.
abbrev is_calm : {A : Type 0} → Result LoadError A → Bool
is_calm (ok a) = true
is_calm (err (bail message)) = true
is_calm (err panic) = false

abbrev Calm : {A : Type 0} → Result LoadError A → Type 0
Calm r = is_calm r ≡ true

then_Calm :
    {A B : Type 0} (m : Result LoadError A) (f : A → Result LoadError B)
    → Calm m
    → ((a : A) → Calm (f a))
    → Calm (m >>= f)
then_Calm (ok a) f h k = k a
then_Calm (err (bail message)) f h k = refl
then_Calm (err panic) f h k = cc

or_bail-Calm : {A : Type 0} (r : Result String A) → Calm (or_bail r)
or_bail-Calm (ok a) = refl
or_bail-Calm (err e) = refl

kind_override-Calm : (o : Option String) (k : ProviderKind) → Calm (kind_override o k)
kind_override-Calm none k = refl
kind_override-Calm (some v) k = ground arith

bounded_window-Calm : (limit : Option ℕ) → Calm (bounded_window limit)
bounded_window-Calm none = refl
bounded_window-Calm (some n) = ground arith

overridden-Calm : (env : String → Option String) (p : ProviderConfig) → Calm (overridden env p)
unfolding overridden
overridden-Calm env p =
    then_Calm (kind_override (env "AGENT_PROVIDER") p.kind) _
      (kind_override-Calm (env "AGENT_PROVIDER") p.kind) (λ _. refl)

bounded_provider-Calm : (p : ProviderConfig) → Calm (bounded_provider p)
unfolding bounded_provider
bounded_provider-Calm p =
    then_Calm (bounded_window p.context_window_tokens) _
      (bounded_window-Calm p.context_window_tokens) (λ _. refl)

bounded_browser-Calm : (b : BrowserConfig) → Calm (bounded_browser b)
unfolding bounded_browser
bounded_browser-Calm b = ground arith

checked_permissions-Calm : (tools : List (String × String)) → Calm (checked_permissions tools)
checked_permissions-Calm tools = ground arith

memory-Calm : (m : MemoryConfig) → Calm (or_panic (memory_normalize m))
memory-Calm m = let (n, e, _) = memory_normalize_total m in rw e

module _ {F : Type 0} ⦃f : F32 F⦄ (env : String → Option String) (parse_url : String → Option Url)
    (join : String → String → String) (local : Option String) (workspace : String)
    (path : Option String) where
  compaction-Calm : (c : CompactionConfig F) → Calm (or_panic (compaction_normalize c))
  compaction-Calm c = let (n, e, _) = compaction_normalize_total c in rw e

  load-Calm :
      (file : Result String (Config F)) → Calm (load env parse_url join local workspace path file)
  unfolding load
  load-Calm file = then_Calm (or_bail file) _ (or_bail-Calm file) λ parsed.
      let s = ensure_provider_profiles parsed in
      then_Calm (or_panic (memory_normalize s.memory)) _ (memory-Calm s.memory) λ memory.
        then_Calm (or_panic (compaction_normalize s.compaction)) _ (compaction-Calm s.compaction)
          λ compaction.
            then_Calm (overridden env s.provider) _ (overridden-Calm env s.provider) λ chosen.
              then_Calm (or_bail (validate parse_url chosen)) _ (or_bail-Calm _) λ valid.
                then_Calm (bounded_provider valid) _ (bounded_provider-Calm valid) λ provider.
                  then_Calm (bounded_browser s.browser) _ (bounded_browser-Calm s.browser)
                    λ browser.
                      then_Calm (checked_permissions s.permissions) _
                        (checked_permissions-Calm s.permissions) λ checked. refl

  -- Loading does not panic, whatever the file and the environment say: it returns a configuration
  -- or an error with a message.
  pub load_never_panics :
      (file : Result String (Config F))
      → load env parse_url join local workspace path file ≢ err panic
  load_never_panics file h =
      let calm : ◌≡◌ {A = Bool} false true = subst Calm h (load-Calm file) in cc

  -- The saved profiles of a loaded configuration are those of the file, without repeated ids and
  -- with the active profile of the file if they were never initialized: the environment does not
  -- change them, and neither are their limits put in range.
  pub load-saved_profiles :
      (parsed c : Config F)
      → load env parse_url join local workspace path (ok parsed) ≡ ok c
      → (c.providers
          ≡ saved_profiles parsed.provider_profiles_initialized parsed.provider parsed.providers)
        × Distinct c.providers
  unfolding load ensure_provider_profiles
  load-saved_profiles parsed c h =
      let settled = ensure_provider_profiles parsed in
      let (memory, _, h2) = bind_ok (or_panic (memory_normalize settled.memory)) _ h in
      let (compaction, _, h3) = bind_ok (or_panic (compaction_normalize settled.compaction)) _ h2 in
      let (chosen, _, h4) = bind_ok (overridden env settled.provider) _ h3 in
      let (valid, _, h5) = bind_ok (or_bail (validate parse_url chosen)) _ h4 in
      let (provider, _, h6) = bind_ok (bounded_provider valid) _ h5 in
      let (browser, _, h7) = bind_ok (bounded_browser settled.browser) _ h6 in
      let (checked, _, h8) = bind_ok (checked_permissions settled.permissions) _ h7 in
      let same : settled.providers ≡ c.providers = ap (λ (c : Config F). c.providers) (ok_inj h8) in
      (sym same, subst Distinct same (ensure_provider_profiles-Distinct parsed).0)
