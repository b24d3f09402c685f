-- ===== src/Auction/OwnList/Slots.antt =====
-- The slots of an account: OwnList_CheckAndInsert and the loop of EN_JOB_NICKNAME_CHANGE_ABLE.
use new_name_auction.Prelude.{
  ℕ, zero, suc, ◌+◌, ◌-◌, ◌/◌, ◌≤◌, ◌≡◌, ◌∙◌, ◌==◌, refl, inl, inr, Bool, true, false, List, [],
  ◌∷◌, ◌++◌, some, arith, length, length-append, get_elem?, get_elem?_of_lt, ok, if◌then◌else◌,
  Bool-cases, Dict, find, insert, update, nat_eq, str_beq, ltb, str_beq_iff, ==_iff,
  find-insert_new, find-insert_ne, find-update_self, find-update_ne,
}
use new_name_auction.Auction.Text.{Text}
use new_name_auction.Auction.State.{NickNameList, Server}
use new_name_auction.Auction.OwnList.{
  empty_entry, own_entry, listed, push_name, own_list_check_and_insert, erase_at, release_round,
  release_slots,
}

-- The count is the size of the vector.
pub record IsCounted (l : NickNameList) : Type 0 where
  pub counted : l.count ≡ length l.nick_names

abbrev pub has_name : List Text → Text → Bool
has_name [] name = false
has_name (x ∷ xs) name = if str_beq x name then true else has_name xs name

length-erase_at : (i : ℕ) (xs : List Text) → length xs ≤ length (erase_at i xs) + 1
unfolding erase_at
length-erase_at i [] = omega arith
length-erase_at zero (x ∷ xs) = omega arith
length-erase_at (suc i) (x ∷ xs) = omega (arith, length-erase_at i xs)

release_slots-round :
    (fuel i : ℕ) (l : NickNameList) (name : Text)
    → ltb i l.count ≡ true
    → get_elem? l.nick_names i ≡ some name
    → release_slots (suc fuel) i l ≡ release_slots fuel (i + 1) (release_round i name l)
unfolding release_slots
release_slots-round fuel i l name more e = rw (more, release_slots) (rw e)

release_slots-end :
    (fuel i : ℕ) (l : NickNameList) → ltb i l.count ≡ false → release_slots (suc fuel) i l ≡ ok l
unfolding release_slots
release_slots-end fuel i l done = rw (done, release_slots)

-- The loop from index `i` on.
abbrev Released : ℕ → ℕ → NickNameList → Type 0
Released fuel i l =
    (l' : NickNameList) × (release_slots fuel i l ≡ ok l')
    × (l'.count ≡ l.count - (l.count - i + 1) / 2)

release_from :
    (fuel i : ℕ) (l : NickNameList)
    → l.count ≤ length l.nick_names
    → l.count ≤ i + fuel
    → Released fuel i l
unfolding release_slots
release_from zero i l room fuelled = (l, refl, omega arith)
release_from (suc fuel) i l room fuelled = elim (Bool-cases (ltb i l.count)) [
  | inr done ↦ (l, release_slots-end fuel i l done, ground arith)
  | inl more ↦
      let (name, e) = get_elem?_of_lt l.nick_names i (ground arith) in
      let (l', run, halved) =
        release_from fuel (i + 1) (release_round i name l)
          (ground (arith, length-erase_at i l.nick_names)) (ground arith) in
      (l', release_slots-round fuel i l name more e ∙ run, ground arith)
]

-- EN_JOB_NICKNAME_CHANGE_ABLE on an account whose count is the size of its vector: the loop ends
-- within its fuel without a fault and leaves half of the slots, rounded down, whatever name was
-- requested.
pub release_slots_halves :
    (l : NickNameList)
    → IsCounted l
    → (l' : NickNameList) × (release_slots l.count 0 l ≡ ok l') × (l'.count ≡ l.count / 2)
release_slots_halves l v =
    let (l', run, halved) = release_from l.count 0 l (omega (arith, v.counted)) (omega arith) in
    (l', run, omega arith)

listed-has_name :
    (xs : List Text) (name : Text) → listed (length xs) xs name ≡ ok (has_name xs name)
unfolding listed
listed-has_name [] name = refl
listed-has_name (x ∷ xs) name = elim (Bool-cases (str_beq x name)) [
  | inl hit ↦ rw (hit, listed)
  | inr miss ↦ rw (miss, listed) (listed-has_name xs name)
]

has_name-push : (xs : List Text) (name : Text) → has_name (xs ++ (name ∷ [])) name ≡ true
has_name-push [] name = ground (arith, str_beq_iff name name)
has_name-push (x ∷ xs) name = ground (arith, has_name-push xs name)

-- The entry that a name leaves behind.
abbrev pub entered : Text → NickNameList → NickNameList
entered name l = if has_name l.nick_names name then l else push_name name l

entered-IsCounted : (name : Text) (l : NickNameList) → IsCounted l → IsCounted (entered name l)
entered-IsCounted name l v = ground (arith, v.counted, length-append l.nick_names (name ∷ []))

entered-has_name :
    (name : Text) (l : NickNameList) → has_name (entered name l).nick_names name ≡ true
entered-has_name name l = ground (arith, has_name-push l.nick_names name)

pub find-own_entry :
    (account : ℕ) (own : Dict ℕ NickNameList)
    → find (insert account empty_entry own) account ≡ some (own_entry account own)
unfolding own_entry
find-own_entry account own = ground (arith, find-insert_new account empty_entry own)

pub own_entry-insert :
    (account : ℕ) (own : Dict ℕ NickNameList)
    → own_entry account (insert account empty_entry own) ≡ own_entry account own
unfolding own_entry
own_entry-insert account own = ground (arith, find-insert_new account empty_entry own)

-- OwnList_CheckAndInsert on an account whose count is the size of its vector (or that has no entry):
-- it returns; then the account's entry has the name and is counted right, a name that was there is
-- not entered again, and every other account `k` has the entry that it had.
pub check_and_insert_lem :
    (account : ℕ) (name : Text) (s : Server) (k : ℕ)
    → IsCounted (own_entry account s.own_list)
    → (s' : Server) × (own_list_check_and_insert account name s ≡ ok s')
      × (find s'.own_list k ≡ (
          if account == k
          then some (entered name (own_entry account s.own_list))
          else find s.own_list k))
      × IsCounted (entered name (own_entry account s.own_list))
      × (has_name (entered name (own_entry account s.own_list)).nick_names name ≡ true)
unfolding own_list_check_and_insert
check_and_insert_lem account name s k v =
    let own = insert account empty_entry s.own_list in
    let entry = own_entry account s.own_list in
    let own' =
      if has_name entry.nick_names name then own else update account (push_name name entry) own in
    let hit : find own' account ≡ some (entered name entry) = ground (
      arith,
      find-own_entry account s.own_list,
      find-update_self account (push_name name entry) entry own,
    ) in
    let miss : (account == k) ≡ false → find own' k ≡ find s.own_list k = λ ne. ground (
      arith,
      find-insert_ne account k empty_entry s.own_list,
      find-update_ne account k (push_name name entry) own,
    ) in
    (
      record s { own_list = own' },
      rw (own_entry-insert account s.own_list, v.counted, listed-has_name entry.nick_names name),
      elim (Bool-cases (account == k)) [
        | inl same ↦ let e : account ≡ k = (==_iff account k).0 same in rw same (rw (← e) hit)
        | inr other ↦ rw other (miss other)
      ],
      entered-IsCounted name entry v,
      entered-has_name name entry,
    )
