-- ===== src/Tests/Profiles.antt =====
-- A profile with an entry for the tag "A" that has one call, and one for "B".
use new_name_auction.Prelude.{
  ℕ, ◌+◌, ◌≡◌, ◌≢◌, ◌%◌, ◌^◌, refl, arith, true, false, List, [], ◌∷◌, length, some, ok,
}
use new_name_auction.Profiler.{Profile, Entry, ThreadProfile, profile_rounds}
use new_name_auction.Profiler.Rounds.{entry_of, sum_periods, IsShown, profile_rounds_lem}

abbrev measured_once : Profile
measured_once = record {
  flag = true;
  name = 65 ∷ [];
  start_time = 0;
  total_time = 12;
  least = 12;
  most = 12;
  calls = 1;
  is_error = false;
}

abbrev entry_a : Entry
entry_a = record { own = measured_once; shown = measured_once }

abbrev entry_b : Entry
entry_b = record {
  own = record measured_once { name = 66 ∷ [] };
  shown = record measured_once { name = 66 ∷ [] };
}

abbrev profile : ThreadProfile
profile = record { allocated = true; entries = entry_b ∷ entry_a ∷ []; thread_id = 4 }

abbrev readings : List (ℕ × ℕ)
readings = (20, 25) ∷ (40, 41) ∷ []

profile-entry : entry_of (65 ∷ []) profile.entries ≡ some entry_a
unfolding entry_of
profile-entry = refl

profile_rounds_lem_example :
    (t' : ThreadProfile) × (e' : Entry) × (profile_rounds 4 (65 ∷ []) readings profile ≡ ok t')
    × (entry_of (65 ∷ []) t'.entries ≡ some e')
    × (e'.own.total_time ≡ (12 + sum_periods readings) % 2 ^ 64)
    × (e'.own.calls ≡ (1 + length readings) % 2 ^ 64)
    × IsShown e'
    × ((tag' : List ℕ) → 65 ∷ [] ≢ tag' → entry_of tag' t'.entries ≡ entry_of tag' profile.entries)
profile_rounds_lem_example =
    profile_rounds_lem 4 (65 ∷ []) readings profile entry_a refl profile-entry (omega arith)
      (omega arith) (refl, refl) ((omega arith, omega arith), ((omega arith, omega arith), tt))
