-- ===== src/Pairing/Valid.antt =====
-- Which pairing tokens are valid.
use p2p_netcat_go_wrk.Common.{
  ℕ, ◌≤◌, ◌≡◌, ◌≢◌, ◌↔◌, ap, refl, inl, inr, Bool-cases, Option, none, some, true, false, not, List,
  [], ◌∷◌, Bytes, length, All, arith, ltb, ◌==◌, ok, fail_if, fail_if_iff, then_iff,
}
use p2p_netcat_go_wrk.Common.Text.{bytes_eq, bytes_eq→eq, bytes_eq_self}
use p2p_netcat_go_wrk.Pairing.{
  Token, Primitives, token_version, max_relay_hints, seen_before, check_hints, check_expiration,
  validate, unsupported_token, bad_peer_id, zero_port, too_many_hints, bad_hint, unnamed_hint,
  duplicate_hint, zero_expiration,
}

-- Hints that are all different from one text.
abbrev pub Fresh : Bytes → List (Option Bytes) → Type 0
Fresh hint hints = All (λ (h : Option Bytes). h ≢ some hint) hints

abbrev pub Distinct : List (Option Bytes) → Type 0
Distinct [] = Unit
Distinct (none ∷ hints) = Distinct hints
Distinct (some h ∷ hints) = Fresh h hints × Distinct hints

-- Not expired at a time, if one is given; the last second still counts.
abbrev pub IsCurrent : Option ℕ → Option ℕ → Type 0
IsCurrent now none = Unit
IsCurrent none (some at) = at ≢ 0
IsCurrent (some now) (some at) = (at ≢ 0) × (now ≤ at)

module _ (lib : Primitives) where
  abbrev pub IsHint : Option Bytes → Type 0
  IsHint none = ⊥
  IsHint (some h) = (length h ≤ 2048) × (lib.names_peer h ≡ true)

  abbrev pub IsValid : Option ℕ → Token → Type 0
  IsValid now t =
      (t.version ≡ token_version)
      × (lib.peer_decodes (lib.peer_string t.peer_id) ≡ true)
      × (t.service ≢ 0)
      × (length t.relay_hints ≤ max_relay_hints)
      × All IsHint t.relay_hints
      × Distinct t.relay_hints
      × IsCurrent now t.expires_at

  abbrev Unseen : List Bytes → List (Option Bytes) → Type 0
  Unseen seen [] = Unit
  Unseen seen (none ∷ hints) = Unseen seen hints
  Unseen seen (some h ∷ hints) = (seen_before h seen ≡ false) × Unseen seen hints

  seen_before_iff :
      (h g : Bytes) (seen : List Bytes)
      → (seen_before h (g ∷ seen) ≡ false) ↔ ((some h ≢ some g) × (seen_before h seen ≡ false))
  unfolding seen_before
  seen_before_iff h g seen = elim (Bool-cases (bytes_eq g h)) [
    | inl same ↦ (
      λ e. cc (rw same at e),
      λ (apart, _). elim (apart (ap (λ (x : Bytes). some x) (cc (bytes_eq→eq g h same)))) [ ],
    )
    | inr differ ↦
        (λ e. (λ same. cc (bytes_eq_self h, same, differ), rw differ at e), λ (_, e). rw differ e)
  ]

  Unseen-more :
      (g : Bytes) (seen : List Bytes) (hints : List (Option Bytes))
      → Unseen (g ∷ seen) hints ↔ (Fresh g hints × Unseen seen hints)
  Unseen-more g seen [] = (λ h. (tt, tt), λ h. tt)
  Unseen-more g seen (none ∷ hints) =
      let rest = Unseen-more g seen hints in
      (λ h. ((λ e. cc, (rest.0 h).0), (rest.0 h).1), λ ((_, f), u). rest.1 (f, u))
  Unseen-more g seen (some h ∷ hints) =
      let here = seen_before_iff h g seen in
      let rest = Unseen-more g seen hints in
      (
        λ (e, u). (((here.0 e).0, (rest.0 u).0), ((here.0 e).1, (rest.0 u).1)),
        λ ((apart, f), (e, u)). (here.1 (apart, e), rest.1 (f, u)),
      )

  check_hints_parts :
      (seen : List Bytes) (hints : List (Option Bytes))
      → check_hints lib seen hints ≡ ok tt
      → All IsHint hints × Unseen seen hints × Distinct hints
  unfolding check_hints
  check_hints_parts seen [] h = (tt, tt, tt)
  check_hints_parts seen (none ∷ hints) h = cc
  check_hints_parts seen (some hint ∷ hints) h =
      let (short, h1) = (then_iff (fail_if (ltb 2048 (length hint)) bad_hint) _).0 h in
      let (named, h2) = (then_iff (fail_if (not (lib.names_peer hint)) unnamed_hint) _).0 h1 in
      let (new, h3) = (then_iff (fail_if (seen_before hint seen) duplicate_hint) _).0 h2 in
      let (good, unseen, distinct) = check_hints_parts (hint ∷ seen) hints h3 in
      let (fresh, unseen') = (Unseen-more hint seen hints).0 unseen in
      let short' : length hint ≤ 2048 = ground (arith, (fail_if_iff _ _).0 short) in
      let named' : lib.names_peer hint ≡ true = ground (arith, (fail_if_iff _ _).0 named) in
      (((short', named'), good), ((fail_if_iff _ _).0 new, unseen'), (fresh, distinct))

  check_hints_whole :
      (seen : List Bytes) (hints : List (Option Bytes))
      → All IsHint hints
      → Unseen seen hints
      → Distinct hints
      → check_hints lib seen hints ≡ ok tt
  unfolding check_hints
  check_hints_whole seen [] _ _ _ = refl
  check_hints_whole seen (none ∷ hints) (bad, _) _ _ = elim bad [ ]
  check_hints_whole seen (some hint ∷ hints) ((short, named), good) (new, unseen)
        (fresh, distinct) =
      let short' : ltb 2048 (length hint) ≡ false = ground arith in
      rw (
        short',
        named,
        new,
        check_hints_whole (hint ∷ seen) hints good ((Unseen-more hint seen hints).1 (fresh, unseen))
            distinct,
      )

  all-Unseen : (hints : List (Option Bytes)) → Unseen [] hints
  unfolding seen_before
  all-Unseen [] = tt
  all-Unseen (none ∷ hints) = all-Unseen hints
  all-Unseen (some h ∷ hints) = (refl, all-Unseen hints)

  check_expiration_iff :
      (now at : Option ℕ) → (check_expiration lib now at ≡ ok tt) ↔ IsCurrent now at
  check_expiration_iff none none = (λ h. tt, λ h. refl)
  check_expiration_iff (some now) none = (λ h. tt, λ h. refl)
  check_expiration_iff none (some at) = (λ h. ground arith, λ h. ground arith)
  check_expiration_iff (some now) (some at) = (
    λ h.
        let (nonzero, later) = (then_iff (fail_if (at == 0) zero_expiration) _).0 h in
        let positive : at ≢ 0 = ground (arith, (fail_if_iff _ _).0 nonzero) in
        (positive, ground (arith, (fail_if_iff _ _).0 later)),
    λ (positive, current).
        let nonzero : (at == 0) ≡ false = ground arith in
        let later : ltb at now ≡ false = ground arith in rw (nonzero, later),
  )

  -- A token is valid at a time exactly when its version is 1, its PeerId decodes, its port is not 0,
  -- its at most 16 relay hints are texts of at most 2048 bytes that name a peer and are all different,
  -- and it has no expiration or a positive one that has not passed.
  pub IsValid-iff : (now : Option ℕ) (t : Token) → (validate lib now t ≡ ok tt) ↔ IsValid now t
  unfolding validate
  IsValid-iff now t = (
    λ h.
        let (v, h1) =
          (then_iff (fail_if (not (t.version == token_version)) unsupported_token) _).0 h in
        let (p, h2) =
          (then_iff (fail_if (not (lib.peer_decodes (lib.peer_string t.peer_id))) bad_peer_id) _).0
            h1 in
        let (z, h3) = (then_iff (fail_if (t.service == 0) zero_port) _).0 h2 in
        let (m, h4) =
          (then_iff (fail_if (ltb max_relay_hints (length t.relay_hints)) too_many_hints) _).0 h3 in
        let (c, e) = (then_iff (check_hints lib [] t.relay_hints) _).0 h4 in
        let (good, _, distinct) = check_hints_parts [] t.relay_hints c in
        let version_is : t.version ≡ token_version = ground (arith, (fail_if_iff _ _).0 v) in
        let decodes : lib.peer_decodes (lib.peer_string t.peer_id) ≡ true =
          ground (arith, (fail_if_iff _ _).0 p) in
        let port : t.service ≢ 0 = ground (arith, (fail_if_iff _ _).0 z) in
        let few : length t.relay_hints ≤ max_relay_hints = ground (arith, (fail_if_iff _ _).0 m) in
        (
          version_is,
          decodes,
          port,
          few,
          good,
          distinct,
          (check_expiration_iff now t.expires_at).0 e,
        ),
    λ (version_is, decodes, port, few, good, distinct, current).
        let v : (t.version == token_version) ≡ true = ground arith in
        let z : (t.service == 0) ≡ false = ground arith in
        let m : ltb max_relay_hints (length t.relay_hints) ≡ false = ground arith in
        rw (
          v,
          decodes,
          z,
          m,
          check_hints_whole [] t.relay_hints good (all-Unseen t.relay_hints) distinct,
          (check_expiration_iff now t.expires_at).1 current,
        ),
  )
