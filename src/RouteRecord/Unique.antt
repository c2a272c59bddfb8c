-- ===== src/RouteRecord/Unique.antt =====
-- The services and addresses of a normalized record.
use p2p_netcat_go_wrk.Common.{
  ℕ, ◌+◌, ◌≤◌, ◌≡◌, ◌≢◌, ◌∙◌, sym, ap, refl, true, false, ◌||◌, ◌&&◌, not, Bool-cases, inl, inr,
  List, [], ◌∷◌, ◌++◌, ltb, ◌==◌, ==_iff, length, length-append, arith,
}
use p2p_netcat_go_wrk.Common.Sorted.{
  sort, member, Ascending, Distinct, Differs, length-sort, member-append, member-sort,
  Ascending-sort, Ascending-unique, ltb-StrictOrder,
}
use p2p_netcat_go_wrk.RouteRecord.{unique_loop, unique_services, contains_service}

-- A number is in what the loop returns when it was there, or is not zero and in the list.
member-unique_loop :
    (x : ℕ) (values result : List ℕ)
    → member ◌==◌ x (unique_loop values result)
      ≡ (member ◌==◌ x result || (not (x == 0) && contains_service values x))
unfolding contains_service member
member-unique_loop x [] result = ground arith
member-unique_loop x (v ∷ values) result =
    let moved : (v == x) ≡ true → member ◌==◌ v result ≡ member ◌==◌ x result =
      λ e. ap (λ (y : ℕ). member ◌==◌ y result) ((==_iff v x).0 e) in
    elim (Bool-cases ((v == 0) || member ◌==◌ v result)) [
      | inl skip ↦ rw skip (ground (arith, moved, member-unique_loop x values result))
      | inr new ↦ rw new (
          ground (
            arith,
            member-unique_loop x values (result ++ v ∷ []),
            member-append ◌==◌ x result (v ∷ []),
          ))
    ]

length-unique_loop :
    (values result : List ℕ) → length (unique_loop values result) ≤ length values + length result
length-unique_loop [] result = omega arith
length-unique_loop (v ∷ values) result = ground (
  arith,
  length-unique_loop values result,
  length-unique_loop values (result ++ v ∷ []),
  length-append result (v ∷ []),
)

Differs-append :
    (a v : ℕ) (xs : List ℕ)
    → Differs ltb ltb-StrictOrder a xs
    → a ≢ v
    → Differs ltb ltb-StrictOrder a (xs ++ v ∷ [])
Differs-append a v [] d h = (h, tt)
Differs-append a v (x ∷ xs) (d, ds) h = (d, Differs-append a v xs ds h)

Distinct-append :
    (xs : List ℕ) (v : ℕ)
    → member ◌==◌ v xs ≡ false
    → Distinct ltb ltb-StrictOrder xs
    → Distinct ltb ltb-StrictOrder (xs ++ v ∷ [])
unfolding member
Distinct-append [] v h d = (tt, tt)
Distinct-append (x ∷ xs) v h (d, ds) =
    (Differs-append x v xs d (ground arith), Distinct-append xs v (ground arith) ds)

Distinct-unique_loop :
    (values result : List ℕ)
    → Distinct ltb ltb-StrictOrder result
    → Distinct ltb ltb-StrictOrder (unique_loop values result)
Distinct-unique_loop [] result d = d
Distinct-unique_loop (v ∷ values) result d = elim (Bool-cases ((v == 0) || member ◌==◌ v result)) [
  | inl skip ↦ rw skip (Distinct-unique_loop values result d)
  | inr new ↦
      rw new
        (Distinct-unique_loop values (result ++ v ∷ []) (Distinct-append result v (ground arith) d))
]

contains_service-member :
    (values : List ℕ) (x : ℕ) → contains_service values x ≡ member ◌==◌ x values
unfolding contains_service member
contains_service-member [] x = refl
contains_service-member (v ∷ values) x = rw (contains_service-member values x)

-- The services of a record, once each in ascending order: a service is among them when it was listed
-- and is not zero, and they are no more than were listed.
pub unique_services_lem :
    (values : List ℕ) (x : ℕ)
    → Ascending ltb (unique_services values)
      × (contains_service (unique_services values) x ≡ (not (x == 0) && contains_service values x))
      × (length (unique_services values) ≤ length values)
unfolding unique_services member
unique_services_lem values x =
    let looped = unique_loop values [] in
    (
      Ascending-sort ltb ltb-StrictOrder looped (Distinct-unique_loop values [] tt),
      contains_service-member (sort ltb looped) x
          ∙ member-sort ◌==◌ ltb x looped
          ∙ member-unique_loop x values [],
      ground (arith, length-sort ◌==◌ ltb looped, length-unique_loop values []),
    )

pub unique_services_again :
    (values : List ℕ) → unique_services (unique_services values) ≡ unique_services values
unique_services_again values =
    let once = unique_services values in
    Ascending-unique ltb ◌==◌ ltb-StrictOrder ==_iff (unique_services once) once
      (unique_services_lem once 0).0 (unique_services_lem values 0).0
      (λ x.
        sym (contains_service-member (unique_services once) x)
        ∙ (unique_services_lem once x).1
        ∙ ground (arith, (unique_services_lem values x).1)
        ∙ contains_service-member once x)
