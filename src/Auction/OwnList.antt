-- ===== src/Auction/OwnList.antt =====
-- OwnList: the nicknames in the slots of each account.
pub mod Slots
use new_name_auction.Prelude.{
  ℕ, zero, suc, ◌+◌, ◌-◌, Bool, true, false, List, [], ◌∷◌, ◌++◌, none, some, Outcome, ok, fault,
  ◌>>=◌, ltb, if◌then◌else◌, str_beq, nat_eq, Dict, find, insert, update, get_elem?, need,
}
use new_name_auction.Auction.Text.{Text, null_name}
use new_name_auction.Auction.State.{NickNameList, Server}

-- A new entry: `clear` sets the count, the strings are empty.
abbrev pub empty_entry : NickNameList
empty_entry = record { count = 0; request_nick_name = []; nick_names = [] }

-- The entry of an account, made where there is none.
unfoldable pub own_entry : ℕ → Dict ℕ NickNameList → NickNameList
own_entry account own = elim (find own account) [ none ↦ empty_entry | some l ↦ l ]

-- The loop over the first `count` names; past the end of the vector it reads what is not there.
unfoldable pub listed : ℕ → List Text → Text → Outcome Bool
listed zero names name = ok false
listed (suc n) [] name = fault
listed (suc n) (x ∷ xs) name = elim (str_beq x name) [ true ↦ ok true | false ↦ listed n xs name ]

-- A name pushed behind the vector, and the count raised.
abbrev pub push_name : Text → NickNameList → NickNameList
push_name name l = record l { count = l.count + 1; nick_names = l.nick_names ++ (name ∷ []) }

-- OwnList_CheckAndInsert
unfoldable pub own_list_check_and_insert : ℕ → Text → Server → Outcome Server
own_list_check_and_insert account name s = do
  let own = insert account empty_entry s.own_list
  let entry = own_entry account own
  there ← listed entry.count entry.nick_names name
  ok (record s { own_list = if there then own else update account (push_name name entry) own })

-- `NickNames.erase(NickNames.begin() + i)`
unfoldable pub erase_at : ℕ → List Text → List Text
erase_at i [] = []
erase_at zero (x ∷ xs) = xs
erase_at (suc i) (x ∷ xs) = x ∷ erase_at i xs

-- One round of the loop of EN_JOB_NICKNAME_CHANGE_ABLE, at index `i`, which holds `name`: the name is
-- erased if it is the requested one, the count falls and the request is reset either way.
abbrev pub release_round : ℕ → Text → NickNameList → NickNameList
release_round i name l = record l {
  count = l.count - 1;
  request_nick_name = null_name;
  nick_names = if str_beq name l.request_nick_name then erase_at i l.nick_names else l.nick_names;
}

-- The loop from index `i`. The fuel is the count, which falls in each round.
unfoldable pub release_slots : ℕ → ℕ → NickNameList → Outcome NickNameList
release_slots zero i l = ok l
release_slots (suc fuel) i l = elim (ltb i l.count) [
  | true ↦ need (get_elem? l.nick_names i) >>= λ name.
      release_slots fuel (i + 1) (release_round i name l)
  | false ↦ ok l
]
