-- ===== src/TunnelConfig/Names.antt =====
-- What `check_tunnels` refuses: names that repeat, and servers that share a logical port.
use p2p_netcat_go_wrk.Common.{
  ℕ, ◌≡◌, ◌≢◌, ◌↔◌, ap, refl, inl, inr, Bool-cases, true, none, List, [], ◌∷◌, arith, Bytes, All,
  length, ok, if◌then◌else◌,
}
use p2p_netcat_go_wrk.Common.Text.{bytes_eq, bytes_eq→eq, bytes_eq_self}
use p2p_netcat_go_wrk.TunnelConfig.{
  Mode, server, client, Tunnel, find_name, find_port, is_server, claim_port,
}
use p2p_netcat_go_wrk.TunnelConfig.Rules.{IsRunnable}

abbrev pub IsGood : Tunnel → Type 0
IsGood t = IsRunnable t × (length t.name ≢ 0)

-- Two tunnels of a configuration.
abbrev pub Apart : Tunnel → Tunnel → Type 0
Apart t u =
    (t.name ≢ u.name) × (t.mode ≡ server → u.mode ≡ server → t.logical_port ≢ u.logical_port)

abbrev pub Separate : List Tunnel → Type 0
Separate [] = Unit
Separate (t ∷ ts) = All (Apart t) ts × Separate ts

-- A tunnel that the maps have nothing against.
abbrev pub Clear : List (Bytes × ℕ) → List (ℕ × Bytes) → Tunnel → Type 0
Clear names ports u =
    (find_name u.name names ≡ none) × (u.mode ≡ server → find_port u.logical_port ports ≡ none)

abbrev pub with_port : Tunnel → List (ℕ × Bytes) → List (ℕ × Bytes)
with_port t ports = if is_server t.mode then (t.logical_port, t.name) ∷ ports else ports

find_name_iff :
    (n m : Bytes) (i : ℕ) (names : List (Bytes × ℕ))
    → (find_name n ((m, i) ∷ names) ≡ none) ↔ ((m ≢ n) × (find_name n names ≡ none))
unfolding find_name
find_name_iff n m i names = elim (Bool-cases (bytes_eq m n)) [
  | inl same ↦ (λ h. cc (rw same at h), λ (apart, _). elim (apart (bytes_eq→eq m n same)) [ ])
  | inr differ ↦ (
    λ h. (λ e. cc (bytes_eq_self n, ap (λ (x : Bytes). bytes_eq x n) e, differ), rw differ at h),
    λ (_, h). rw differ h,
  )
]

find_port_iff :
    (p q : ℕ) (n : Bytes) (ports : List (ℕ × Bytes))
    → (find_port p ((q, n) ∷ ports) ≡ none) ↔ ((q ≢ p) × (find_port p ports ≡ none))
unfolding find_port
find_port_iff p q n ports = (λ h. ground arith, λ h. ground arith)

is_server_iff : (m : Mode) → (is_server m ≡ true) ↔ (m ≡ server)
is_server_iff server = (λ h. refl, λ h. refl)
is_server_iff client = (λ h. cc, λ h. cc)
is_server_iff Mode.unset = (λ h. cc, λ h. cc)
is_server_iff (Mode.unknown x) = (λ h. cc, λ h. cc)

Clear-step :
    (t u : Tunnel) (i : ℕ) (names : List (Bytes × ℕ)) (ports : List (ℕ × Bytes))
    → Clear ((t.name, i) ∷ names) (with_port t ports) u ↔ (Apart t u × Clear names ports u)
Clear-step t u i names ports = elim (Bool-cases (is_server t.mode)) [
  | inl serves ↦
      let ports_iff = find_port_iff u.logical_port t.logical_port t.name ports in
      let names_iff = find_name_iff u.name t.name i names in
      (
        λ (n, p).
            let p' : u.mode ≡ server
                → find_port u.logical_port ((t.logical_port, t.name) ∷ ports) ≡ none =
              rw serves at p in
            (
              ((names_iff.0 n).0, λ _ is. (ports_iff.0 (p' is)).0),
              ((names_iff.0 n).1, λ is. (ports_iff.0 (p' is)).1),
            ),
        λ ((apart, differ), (n, p)). (
          names_iff.1 (apart, n),
          rw serves (λ is. ports_iff.1 (differ ((is_server_iff t.mode).0 serves) is, p is)),
        ),
      )
  | inr other ↦
      let names_iff = find_name_iff u.name t.name i names in
      (
        λ (n, p). (
          ((names_iff.0 n).0, λ is. cc (other, (is_server_iff t.mode).1 is)),
          ((names_iff.0 n).1, rw other at p),
        ),
        λ ((apart, differ), (n, p)). (names_iff.1 (apart, n), rw other p),
      )
]

pub All-step :
    (t : Tunnel) (i : ℕ) (names : List (Bytes × ℕ)) (ports : List (ℕ × Bytes)) (us : List Tunnel)
    → All (Clear ((t.name, i) ∷ names) (with_port t ports)) us
      ↔ (All (Apart t) us × All (Clear names ports) us)
All-step t i names ports [] = (λ h. (tt, tt), λ h. tt)
All-step t i names ports (u ∷ us) =
    let here = Clear-step t u i names ports in
    let there = All-step t i names ports us in
    (
      λ (h, hs). (((here.0 h).0, (there.0 hs).0), ((here.0 h).1, (there.0 hs).1)),
      λ ((a, others), (c, cs)). (here.1 (a, c), there.1 (others, cs)),
    )

pub claim_port_parts :
    (i : ℕ) (t : Tunnel) (ports ports' : List (ℕ × Bytes))
    → claim_port (is_server t.mode) i t ports ≡ ok ports'
    → (t.mode ≡ server → find_port t.logical_port ports ≡ none) × (ports' ≡ with_port t ports)
claim_port_parts i t ports ports' h = elim (Bool-cases (is_server t.mode)) [
  | inl serves ↦ (λ _. ground (arith, serves), ground (arith, serves))
  | inr other ↦ (λ is. cc (other, (is_server_iff t.mode).1 is), ground (arith, other))
]

pub claim_port_whole :
    (i : ℕ) (t : Tunnel) (ports : List (ℕ × Bytes))
    → (t.mode ≡ server → find_port t.logical_port ports ≡ none)
    → claim_port (is_server t.mode) i t ports ≡ ok (with_port t ports)
claim_port_whole i t ports h = elim (Bool-cases (is_server t.mode)) [
  | inl serves ↦ rw (serves, h ((is_server_iff t.mode).0 serves))
  | inr other ↦ rw other
]
