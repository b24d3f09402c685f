-- ===== src/Profiler/Rounds.antt =====
-- What ProfileBegin and ProfileEnd (profiler.cpp) of a tag leave in its entry and in the others.
use new_name_auction.Prelude.{
  ℕ, ◌+◌, ◌-◌, ◌≤◌, ◌<◌, ◌^◌, ◌%◌, ◌≡◌, ◌≢◌, str_beq_iff, refl, sym, ap, ◌∙◌, inl, inr, true, false,
  ◌&&◌, List, [], ◌∷◌, arith, ◌==◌, length, if◌then◌else◌, Bool-cases, All, Option, some, none, ok,
  ◌>>=◌, str_beq,
}
use new_name_auction.Profiler.{
  Entry, ThreadProfile, begin_known, profile_begin, measured, end_entries, profile_end,
  profile_rounds,
}

-- The entry of a tag, the first that has it.
unfoldable pub entry_of : List ℕ → List Entry → Option Entry
entry_of tag [] = none
entry_of tag (e ∷ es) =
    let rest = entry_of tag es in if e.own.flag && str_beq e.own.name tag then some e else rest

-- An entry whose time runs.
abbrev begun : ℕ → Entry → Entry
begun now e = record e {
  own = record e.own {
    is_error = if e.own.start_time == 0 then e.own.is_error else true;
    start_time = now;
  };
}

head_entry : (x e : Entry) → some x ≡ some e → x ≡ e
head_entry x e h = cc

begin_known-entry_of :
    (tag : List ℕ) (now : ℕ) (es : List Entry) (e : Entry)
    → entry_of tag es ≡ some e
    → ((begin_known tag now es).0 ≡ true)
      × (entry_of tag (begin_known tag now es).1 ≡ some (begun now e))
unfolding begin_known entry_of
begin_known-entry_of tag now [] e h = absurd (ground (arith, h))
begin_known-entry_of tag now (x ∷ es) e h =
    elim (Bool-cases (x.own.flag && str_beq x.own.name tag)) [
      | inl has ↦
          let same : x ≡ e = head_entry x e (simp has at h) in
          simp has (refl, ap (λ x. some (begun now x)) same)
      | inr other ↦
          let (found, rest) = begin_known-entry_of tag now es e (simp other at h) in
          simp (other, found) (refl, rest)
    ]

end_entries-entry_of :
    (tag : List ℕ) (now : ℕ) (es : List Entry) (e : Entry)
    → entry_of tag es ≡ some e
    → entry_of tag (end_entries tag now es) ≡ some (measured now e)
unfolding end_entries entry_of
end_entries-entry_of tag now [] e h = absurd (ground (arith, h))
end_entries-entry_of tag now (x ∷ es) e h =
    elim (Bool-cases (x.own.flag && str_beq x.own.name tag)) [
      | inl has ↦
          let same : x ≡ e = head_entry x e (simp has at h) in
          simp has (ap (λ x. some (measured now x)) same)
      | inr other ↦ simp other (end_entries-entry_of tag now es e (simp other at h))
    ]

-- The other tags.
other_tag :
    (x : Entry) (tag tag' : List ℕ)
    → tag ≢ tag'
    → (x.own.flag && str_beq x.own.name tag) ≡ true
    → (x.own.flag && str_beq x.own.name tag') ≡ false
other_tag x tag tag' differ has = elim (Bool-cases (x.own.flag && str_beq x.own.name tag')) [
  | inr no_tag ↦ no_tag
  | inl has' ↦
      let mine : str_beq x.own.name tag ≡ true = ground (arith, has) in
      let mine' : str_beq x.own.name tag' ≡ true = ground (arith, has') in
      absurd
        (differ (sym ((str_beq_iff x.own.name tag).0 mine) ∙ (str_beq_iff x.own.name tag').0 mine'))
]

begin_known-other :
    (tag tag' : List ℕ) (now : ℕ) (es : List Entry)
    → tag ≢ tag'
    → entry_of tag' (begin_known tag now es).1 ≡ entry_of tag' es
unfolding begin_known entry_of
begin_known-other tag tag' now [] differ = refl
begin_known-other tag tag' now (x ∷ es) differ =
    elim (Bool-cases (x.own.flag && str_beq x.own.name tag)) [
      | inl has ↦ simp (has, other_tag x tag tag' differ has) refl
      | inr other ↦ simp (other, begin_known-other tag tag' now es differ) refl
    ]

end_entries-other :
    (tag tag' : List ℕ) (now : ℕ) (es : List Entry)
    → tag ≢ tag'
    → entry_of tag' (end_entries tag now es) ≡ entry_of tag' es
unfolding end_entries entry_of
end_entries-other tag tag' now [] differ = refl
end_entries-other tag tag' now (x ∷ es) differ =
    elim (Bool-cases (x.own.flag && str_beq x.own.name tag)) [
      | inl has ↦ simp (has, other_tag x tag tag' differ has) refl
      | inr other ↦ simp (other, end_entries-other tag tag' now es differ) refl
    ]

-- A period that does not run backwards.
abbrev pub InOrder : ℕ × ℕ → Type 0
InOrder r = (r.0 ≤ r.1) × (r.1 < 2 ^ 63)

unfoldable pub sum_periods : List (ℕ × ℕ) → ℕ
sum_periods [] = 0
sum_periods ((start, stop) ∷ rs) = stop - start + sum_periods rs

-- What is shown of an entry is what the thread has.
abbrev pub IsShown : Entry → Type 0
IsShown e = (e.shown.total_time ≡ e.own.total_time) × (e.shown.calls ≡ e.own.calls)

profile_begin-known :
    (thread start : ℕ) (tag : List ℕ) (t : ThreadProfile)
    → t.allocated ≡ true
    → (begin_known tag start t.entries).0 ≡ true
    → profile_begin thread tag start t
      ≡ ok (record t { entries = (begin_known tag start t.entries).1 })
unfolding profile_begin
profile_begin-known thread start tag t there found = simp (there, found) refl

-- A thread that has an entry for a tag measures it in rounds of ProfileBegin and ProfileEnd, on a counter
-- that does not run backwards and stays below 2 ^ 63: none aborts, the total time of the entry grows by the
-- sum of the periods and its calls by their number, modulo 2 ^ 64, the table that shows the results has the
-- same if it had before, and the entries of all other tags stay.
pub profile_rounds_lem :
    (thread : ℕ) (tag : List ℕ) (rs : List (ℕ × ℕ)) (t : ThreadProfile) (e : Entry)
    → t.allocated ≡ true
    → entry_of tag t.entries ≡ some e
    → e.own.total_time < 2 ^ 64
    → e.own.calls < 2 ^ 64
    → IsShown e
    → All InOrder rs
    → (t' : ThreadProfile) × (e' : Entry) × (profile_rounds thread tag rs t ≡ ok t')
      × (entry_of tag t'.entries ≡ some e')
      × (e'.own.total_time ≡ (e.own.total_time + sum_periods rs) % 2 ^ 64)
      × (e'.own.calls ≡ (e.own.calls + length rs) % 2 ^ 64)
      × IsShown e'
      × ((tag' : List ℕ) → tag ≢ tag' → entry_of tag' t'.entries ≡ entry_of tag' t.entries)
unfolding profile_rounds sum_periods
profile_rounds_lem thread tag [] t e there has low low' shown in_order =
    (t, e, refl, has, omega (arith, low), omega (arith, low'), shown, λ tag' differ. refl)
profile_rounds_lem thread tag ((start, stop) ∷ rs) t e there has low low' shown
      ((le, small), in_order) =
    let (found, begun_has) = begin_known-entry_of tag start t.entries e has in
    let es = end_entries tag stop (begin_known tag start t.entries).1 in
    let after =
      end_entries-entry_of tag stop (begin_known tag start t.entries).1 (begun start e) begun_has in
    let (t', e', run, has', total, calls, shown', others) =
      profile_rounds_lem thread tag rs (record t { entries = es }) (measured stop (begun start e))
        there after (omega arith) (omega arith) (refl, refl) in_order in
    (
      t',
      e',
      ap (λ o. o >>= λ t1. profile_rounds thread tag rs (profile_end tag stop t1))
            (profile_begin-known thread start tag t there found)
          ∙ run,
      has',
      omega (arith, total, le, small),
      omega (arith, calls),
      shown',
      λ tag' differ.
          others tag' differ
          ∙ end_entries-other tag tag' stop (begin_known tag start t.entries).1 differ
          ∙ begin_known-other tag tag' start t.entries differ,
    )
