-- ===== src/RouteRecord/Texts.antt =====
-- What uniqueAddresses returns, by the texts of the addresses.
use p2p_netcat_go_wrk.Common.{
  ◌≤◌, ◌≡◌, ◌∙◌, sym, ap, refl, Bool, true, false, Bool-cases, inl, inr, Option, none, some, List,
  [], ◌∷◌, Bytes, length, All, arith,
}
use p2p_netcat_go_wrk.Common.Text.{bytes_eq, bytes_eq_iff, bytes_eq_self}
use p2p_netcat_go_wrk.Common.Maps.{find}
use p2p_netcat_go_wrk.Common.Sorted.{
  sort, member, bytes_before, Ascending, length-sort, member-sort, Ascending-sort, Ascending-unique,
  bytes_before-StrictOrder,
}
use p2p_netcat_go_wrk.RouteRecord.{
  Addresses, seen_addresses, names_of, look_up, unique_addresses, address_strings,
}
use p2p_netcat_go_wrk.Common.{ok}
use p2p_netcat_go_wrk.RouteRecord.{parse_addresses}
use p2p_netcat_go_wrk.RouteRecord.Seen.{
  Keyed, lists, Keyed-seen_addresses, Apart-seen_addresses, member-seen_addresses,
  length-seen_addresses,
}

-- What the program relies on of go-multiaddr: the text of an address is parsed back to it.
pub record AddressLaws {Addr : Type 0} (lib : Addresses Addr) : Type 0 where
  pub new_multiaddr-address_string : (a : Addr) → lib.new_multiaddr (lib.address_string a) ≡ some a

abbrev pub is_present {ℓ} : {A : Type ℓ} → Option A → Bool
is_present none = false
is_present (some a) = true

module _ {Addr : Type 0} (lib : Addresses Addr) where
  open lib use {address_string, new_multiaddr}

  -- No address is nil.
  abbrev pub Present : List (Option Addr) → Type 0
  Present values = All (λ (o : Option Addr). is_present o ≡ true) values

  member-find :
      (name : Bytes) (seen : List (Bytes × Addr))
      → member bytes_eq name (names_of lib seen) ≡ true
      → (a : Addr) × (find name seen ≡ some a)
  unfolding member find
  member-find name [] m = cc
  member-find name ((k, a) ∷ seen) m = elim (Bool-cases (bytes_eq k name)) [
    | inl e ↦ (a, rw e refl)
    | inr e ↦ let (b, h) = member-find name seen (rw e at m) in (b, rw e h)
  ]

  address_strings-look_up :
      (seen : List (Bytes × Addr)) (names : List Bytes)
      → Keyed lib seen
      → All (λ (n : Bytes). member bytes_eq n (names_of lib seen) ≡ true) names
      → (address_strings lib (look_up lib seen names) ≡ names)
        × Present (look_up lib seen names)
        × (length (look_up lib seen names) ≡ length names)
  address_strings-look_up seen [] k h = (refl, tt, refl)
  address_strings-look_up seen (n ∷ names) k (h, hs) =
      let (a, found) = member-find n seen h in
      let (texts, present, long) = address_strings-look_up seen names k hs in
      (rw (found, k n a found, texts), rw found (refl, present), omega (arith, long))

  All-members :
      (xs ys : List Bytes)
      → ((n : Bytes) → member bytes_eq n xs ≡ true → member bytes_eq n ys ≡ true)
      → All (λ (n : Bytes). member bytes_eq n ys ≡ true) xs
  unfolding member
  All-members [] ys h = tt
  All-members (x ∷ xs) ys h =
      (h x (ground (arith, bytes_eq_self x)), All-members xs ys (λ n m. h n (ground arith)))

  lists-address_strings :
      (values : List (Option Addr)) (name : Bytes)
      → lists lib values name ≡ member bytes_eq name (address_strings lib values)
  unfolding member
  lists-address_strings [] name = refl
  lists-address_strings (none ∷ values) name = lists-address_strings values name
  lists-address_strings (some a ∷ values) name = rw (lists-address_strings values name)

  -- The addresses of a record, each text once in ascending order: an address of a text is among them when
  -- one was listed, none is nil, and they are no more than were listed.
  pub unique_addresses_lem :
      (values : List (Option Addr)) (name : Bytes)
      → Ascending bytes_before (address_strings lib (unique_addresses lib values))
        × (lists lib (unique_addresses lib values) name ≡ lists lib values name)
        × Present (unique_addresses lib values)
        × (length (unique_addresses lib values) ≤ length values)
  unfolding unique_addresses member find
  unique_addresses_lem values name =
      let seen = seen_addresses lib values [] in
      let names = names_of lib seen in
      let sorted = sort bytes_before names in
      let keyed : Keyed lib seen = Keyed-seen_addresses lib values [] (λ n a h. cc) in
      let (texts, present, long) =
        address_strings-look_up seen sorted keyed
          (All-members sorted names (λ n m. sym (member-sort bytes_eq bytes_before n names) ∙ m)) in
      let result = look_up lib seen sorted in
      let ascends =
        Ascending-sort bytes_before bytes_before-StrictOrder names
          (Apart-seen_addresses lib values [] tt) in
      (
        rw texts ascends,
        lists-address_strings result name
            ∙ ap (λ (ts : List Bytes). member bytes_eq name ts) texts
            ∙ member-sort bytes_eq bytes_before name names
            ∙ member-seen_addresses lib name values []
            ∙ ground arith,
        present,
        ground (
          arith,
          long,
          length-sort bytes_eq bytes_before names,
          length-seen_addresses lib values [],
        ),
      )

  module _ (laws : AddressLaws lib) where
    pub parse_addresses-address_strings :
        (values : List (Option Addr))
        → Present values
        → parse_addresses lib (address_strings lib values) ≡ ok values
    parse_addresses-address_strings [] p = refl
    parse_addresses-address_strings (none ∷ values) p = cc (p.0)
    parse_addresses-address_strings (some a ∷ values) (p, ps) =
        rw (laws.new_multiaddr-address_string a, parse_addresses-address_strings values ps)

    pub unique_addresses_again :
        (values : List (Option Addr))
        → unique_addresses lib (unique_addresses lib values) ≡ unique_addresses lib values
    unique_addresses_again values =
        let once = unique_addresses lib values in
        let twice = unique_addresses lib once in
        let texts : address_strings lib twice ≡ address_strings lib once =
          Ascending-unique bytes_before bytes_eq bytes_before-StrictOrder bytes_eq_iff
            (address_strings lib twice) (address_strings lib once) (unique_addresses_lem once []).0
            (unique_addresses_lem values []).0
            (λ n.
              sym (lists-address_strings twice n)
              ∙ (unique_addresses_lem once n).1
              ∙ lists-address_strings once n) in
        let first = parse_addresses-address_strings twice (unique_addresses_lem once []).2 in
        let second = parse_addresses-address_strings once (unique_addresses_lem values []).2 in
        cc (first, second, texts)
