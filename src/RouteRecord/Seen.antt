-- ===== src/RouteRecord/Seen.antt =====
-- The map that uniqueAddresses builds.
use p2p_netcat_go_wrk.Common.{
  ◌+◌, ◌≤◌, ◌≡◌, ◌∙◌, sym, ap, Bool, true, false, ◌||◌, ◌&&◌, not, Bool-cases, inl, inr, Option,
  none, some, List, [], ◌∷◌, Bytes, length, arith,
}
use p2p_netcat_go_wrk.Common.Text.{bytes_eq, bytes_eq_iff, bytes_eq_self}
use p2p_netcat_go_wrk.Common.Maps.{find, delete, insert, find-insert}
use p2p_netcat_go_wrk.Common.Sorted.{
  member, bytes_before, Distinct, Differs, bytes_before-StrictOrder,
}
use p2p_netcat_go_wrk.RouteRecord.{Addresses, seen_addresses, names_of}

module _ {Addr : Type 0} (lib : Addresses Addr) where
  open lib use {address_string, new_multiaddr}

  -- Each address of the map stands at its own text.
  abbrev pub Keyed : List (Bytes × Addr) → Type 0
  Keyed seen = (name : Bytes) (a : Addr) → find name seen ≡ some a → address_string a ≡ name

  abbrev pub at_some : Option Addr → Bytes → Bool
  at_some none name = false
  at_some (some a) name = bytes_eq (address_string a) name

  -- Whether an address of this text is listed.
  abbrev pub lists : List (Option Addr) → Bytes → Bool
  lists [] name = false
  lists (o ∷ values) name = at_some o name || lists values name

  Keyed-insert :
      (a : Addr) (seen : List (Bytes × Addr))
      → Keyed seen
      → Keyed (insert (address_string a) a seen)
  Keyed-insert a seen k name b h = elim (Bool-cases (bytes_eq (address_string a) name)) [
    | inl e ↦
        let same : some a ≡ some b =
          ground (arith, e, find-insert name (address_string a) a seen) in
        let ab : a ≡ b = cc (same) in
        sym (ap address_string ab) ∙ (bytes_eq_iff (address_string a) name).0 e
    | inr e ↦ k name b (ground (arith, find-insert name (address_string a) a seen))
  ]

  pub Keyed-seen_addresses :
      (values : List (Option Addr)) (seen : List (Bytes × Addr))
      → Keyed seen
      → Keyed (seen_addresses lib values seen)
  Keyed-seen_addresses [] seen k = k
  Keyed-seen_addresses (none ∷ values) seen k = Keyed-seen_addresses values seen k
  Keyed-seen_addresses (some a ∷ values) seen k =
      Keyed-seen_addresses values (insert (address_string a) a seen) (Keyed-insert a seen k)

  member-delete :
      (name key : Bytes) (seen : List (Bytes × Addr))
      → member bytes_eq name (names_of lib (delete key seen))
        ≡ (not (bytes_eq key name) && member bytes_eq name (names_of lib seen))
  unfolding delete member
  member-delete name key [] = ground arith
  member-delete name key ((k, a) ∷ seen) =
      let moved : bytes_eq key name ≡ true → bytes_eq k name ≡ bytes_eq k key =
        λ e. ap (λ (x : Bytes). bytes_eq k x) (sym ((bytes_eq_iff key name).0 e)) in
      let same : bytes_eq k key ≡ true → bytes_eq k name ≡ bytes_eq key name =
        λ e. ap (λ (x : Bytes). bytes_eq x name) ((bytes_eq_iff k key).0 e) in
      elim (Bool-cases (bytes_eq k key)) [
        | inl e ↦ rw e (ground (arith, same e, member-delete name key seen))
        | inr e ↦ rw e (ground (arith, moved, member-delete name key seen))
      ]

  length-delete :
      (key : Bytes) (seen : List (Bytes × Addr))
      → length (names_of lib (delete key seen)) ≤ length (names_of lib seen)
  unfolding delete
  length-delete key [] = omega arith
  length-delete key ((k, a) ∷ seen) = ground (arith, length-delete key seen)

  abbrev pub Apart : List Bytes → Type 0
  Apart names = Distinct bytes_before bytes_before-StrictOrder names

  abbrev pub ApartFrom : Bytes → List Bytes → Type 0
  ApartFrom name names = Differs bytes_before bytes_before-StrictOrder name names

  ApartFrom-member :
      (name : Bytes) (names : List Bytes)
      → member bytes_eq name names ≡ false
      → ApartFrom name names
  unfolding member
  ApartFrom-member name [] h = tt
  ApartFrom-member name (n ∷ names) h =
      let differ : bytes_eq n name ≡ false = ground arith in
      (
        λ e. cc (differ, (bytes_eq_iff n name).1 (sym e)),
        ApartFrom-member name names (ground arith),
      )

  ApartFrom-delete :
      (name key : Bytes) (seen : List (Bytes × Addr))
      → ApartFrom name (names_of lib seen)
      → ApartFrom name (names_of lib (delete key seen))
  unfolding delete
  ApartFrom-delete name key [] d = tt
  ApartFrom-delete name key ((k, a) ∷ seen) (d, ds) = elim (Bool-cases (bytes_eq k key)) [
    | inl e ↦ rw e (ApartFrom-delete name key seen ds)
    | inr e ↦ rw e (d, ApartFrom-delete name key seen ds)
  ]

  Apart-delete :
      (key : Bytes) (seen : List (Bytes × Addr))
      → Apart (names_of lib seen)
      → Apart (names_of lib (delete key seen))
  unfolding delete
  Apart-delete key [] d = tt
  Apart-delete key ((k, a) ∷ seen) (d, ds) = elim (Bool-cases (bytes_eq k key)) [
    | inl e ↦ rw e (Apart-delete key seen ds)
    | inr e ↦ rw e (ApartFrom-delete k key seen d, Apart-delete key seen ds)
  ]

  pub Apart-seen_addresses :
      (values : List (Option Addr)) (seen : List (Bytes × Addr))
      → Apart (names_of lib seen)
      → Apart (names_of lib (seen_addresses lib values seen))
  Apart-seen_addresses [] seen d = d
  Apart-seen_addresses (none ∷ values) seen d = Apart-seen_addresses values seen d
  Apart-seen_addresses (some a ∷ values) seen d =
      let key = address_string a in
      let gone : member bytes_eq key (names_of lib (delete key seen)) ≡ false =
        ground (arith, member-delete key key seen, bytes_eq_self key) in
      Apart-seen_addresses values (insert key a seen)
        (ApartFrom-member key (names_of lib (delete key seen)) gone, Apart-delete key seen d)

  pub member-seen_addresses :
      (name : Bytes) (values : List (Option Addr)) (seen : List (Bytes × Addr))
      → member bytes_eq name (names_of lib (seen_addresses lib values seen))
        ≡ (lists values name || member bytes_eq name (names_of lib seen))
  unfolding member
  member-seen_addresses name [] seen = ground arith
  member-seen_addresses name (none ∷ values) seen =
      ground (arith, member-seen_addresses name values seen)
  member-seen_addresses name (some a ∷ values) seen =
      let key = address_string a in
      ground
        (arith, member-seen_addresses name values (insert key a seen), member-delete name key seen)

  pub length-seen_addresses :
      (values : List (Option Addr)) (seen : List (Bytes × Addr))
      → length (names_of lib (seen_addresses lib values seen))
        ≤ length values + length (names_of lib seen)
  length-seen_addresses [] seen = omega arith
  length-seen_addresses (none ∷ values) seen = omega (arith, length-seen_addresses values seen)
  length-seen_addresses (some a ∷ values) seen =
      let key = address_string a in
      omega (arith, length-seen_addresses values (insert key a seen), length-delete key seen)
