-- ===== src/App/Tests.antt =====
-- Tests and examples for the background of app/runtime.rs.
use h_agent_core.Base.{ℕ, ◌≡◌, refl, true, false, [], ◌∷◌, none, some}
use h_agent_core.Policy.{build, plan}
use h_agent_core.Samples.{Sample, streaming}
use h_agent_core.Session.Events.{idle}
use h_agent_core.App.{
  App, Background, Runtime, take_oldest_idle, make_room, evict_rounds, evict_background_overflow,
  activate_session,
}
use h_agent_core.App.Capacity.{IsEvicted, evict_background_overflow-IsEvicted}

abbrev at_work_session : Runtime Sample ℕ
at_work_session = record {
  session = streaming;
  mode = build;
  has_runner = true;
  parked_at = 1;
  request_seq = 7;
}

abbrev at_rest : ℕ → Runtime Sample ℕ
at_rest t = record {
  session = record streaming { busy = false; active_task = false; pending_approval = none };
  mode = plan;
  has_runner = true;
  parked_at = t;
  request_seq = 0;
}

-- Two runtimes that rest and one at work, for a capacity of one.
abbrev crowded : Background Sample ℕ
crowded = ("a", at_rest 5) ∷ ("b", at_work_session) ∷ ("c", at_rest 3) ∷ []

the_earlier_goes_first :
    evict_background_overflow 2 crowded ≡ ("a", at_rest 5) ∷ ("b", at_work_session) ∷ []
unfolding evict_background_overflow evict_rounds take_oldest_idle idle
the_earlier_goes_first = refl

abbrev full : App Sample ℕ
full = record {
  active_session = "s1";
  current = at_rest 0;
  background = ("b", at_work_session) ∷ [];
  registry = record { mode = build; permissions = []; session_allows = [] };
  input = "draft";
  max_background_sessions = 1;
}

refused : activate_session full (at_rest 0) 9 "d" ≡ none
unfolding activate_session make_room take_oldest_idle idle
refused = refl

back_to_b : (after : App Sample ℕ) × (activate_session full (at_rest 0) 9 "b" ≡ some after)
unfolding activate_session make_room
back_to_b = (_, refl)

evict_background_overflow-IsEvicted_example :
    IsEvicted 1 crowded (evict_background_overflow 1 crowded)
evict_background_overflow-IsEvicted_example = evict_background_overflow-IsEvicted 1 crowded
