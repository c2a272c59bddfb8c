-- ===== src/Socks/Requests4.antt =====
-- Which byte streams are SOCKS4 and SOCKS4a requests.
use p2p_netcat_go_wrk.Common.{
  ℕ, ◌≤◌, ◌≡◌, ◌↔◌, refl, ap, ◌∙◌, subst, true, false, Bool-cases, inl, inr, [], ◌∷◌, ◌++◌, arith,
  Bytes, length, ◌==◌, ok, bind_ok, fail_if, fail_if_ok, not, wrap,
}
use p2p_netcat_go_wrk.Common.BigEndian.{u16}
use p2p_netcat_go_wrk.Common.Io.{read_full, read_byte}
use p2p_netcat_go_wrk.Socks.{
  io, not_connect, Host, ip, name, Request, announces_name, read_host4, read_socks4_field,
  negotiate_socks4, user_id_too_long, domain_too_long, max_user_id_length, max_domain_length,
}
use p2p_netcat_go_wrk.Socks.Field.{NoZero, read_socks4_field_iff}
use p2p_netcat_go_wrk.Socks.Requests.{full_parts, full_whole}

-- What follows the user id: nothing for an address, and the name of a SOCKS4a request.
pub data Host4 (address : Bytes) (host : Host) (tail rest : Bytes) : Type 0 where
  address4 :
      announces_name address ≡ false
      → host ≡ ip address
      → tail ≡ rest
      → Host4 address host tail rest
  name4 :
      (domain : Bytes)
      → announces_name address ≡ true
      → NoZero domain
      → length domain ≤ max_domain_length
      → host ≡ name domain
      → tail ≡ domain ++ 0 ∷ rest
      → Host4 address host tail rest

read_host4_parts :
    (address s : Bytes) (host : Host) (rest : Bytes)
    → read_host4 address s ≡ ok (host, rest)
    → Host4 address host s rest
read_host4_parts address s host rest h = elim (Bool-cases (announces_name address)) [
  | inl named ↦
      let ((domain, s'), e, h') =
        bind_ok (read_socks4_field max_domain_length domain_too_long s) _ (rw named at h) in
      let (shape, clean, short) =
        (read_socks4_field_iff max_domain_length domain_too_long s domain s').0 e in
      name4 domain named clean short (cc h') (shape ∙ ap (λ (t : Bytes). domain ++ 0 ∷ t) (cc h'))
  | inr plain ↦ let h' = rw plain at h in address4 plain (cc h') (cc h')
]

read_host4_whole :
    (address s : Bytes) (host : Host) (rest : Bytes)
    → Host4 address host s rest
    → read_host4 address s ≡ ok (host, rest)
read_host4_whole address s host rest (address4 plain e e') = rw (plain, e, e')
read_host4_whole address s host rest (name4 domain named clean short e e') = rw (
  named,
  (read_socks4_field_iff max_domain_length domain_too_long s domain rest).1 (e', clean, short),
  e,
)

abbrev pub request4 : Host → Bytes → Bytes → Request
request4 host port_bytes address = record {
  host = host;
  port = u16 port_bytes;
  success = 0 ∷ 0x5a ∷ port_bytes ++ address;
  failure = 0 ∷ 0x5b ∷ port_bytes ++ address;
}

-- The bytes of a request behind the version: CONNECT, the port, the address and the user id.
abbrev pub client4 : Bytes → Bytes → Bytes → Bytes → Bytes
client4 port_bytes address user_id tail = 1 ∷ (port_bytes ++ (address ++ (user_id ++ 0 ∷ tail)))

together4 :
    (command : ℕ) (s s2 s3 tail port_bytes address user_id : Bytes)
    → not (command == 1) ≡ false
    → port_bytes ++ s2 ≡ s
    → address ++ s3 ≡ s2
    → s3 ≡ user_id ++ 0 ∷ tail
    → command ∷ s ≡ client4 port_bytes address user_id tail
together4 command s s2 s3 tail port_bytes address user_id one e e' e'' =
    let command_is : command ≡ 1 = ground arith in cc

parts4 :
    (s : Bytes) (r : Request) (rest : Bytes)
    → negotiate_socks4 s ≡ ok (r, rest)
    → (port_bytes : Bytes) × (address : Bytes) × (user_id : Bytes) × (host : Host) × (tail : Bytes)
      × (length port_bytes ≡ 2)
      × (length address ≡ 4)
      × NoZero user_id
      × (length user_id ≤ max_user_id_length)
      × Host4 address host tail rest
      × (r ≡ request4 host port_bytes address)
      × (s ≡ client4 port_bytes address user_id tail)
unfolding negotiate_socks4 read_byte
parts4 [] r rest h = cc
parts4 (command ∷ s) r rest h =
    let ((port_bytes, s2), e2, h2) = bind_ok (wrap io (read_full 2 s)) _ h in
    let (whole2, len2) = full_parts 2 s port_bytes s2 e2 in
    let ((address, s3), e3, h3) = bind_ok (wrap io (read_full 4 s2)) _ h2 in
    let (whole3, len3) = full_parts 4 s2 address s3 e3 in
    let ((user_id, s4), e4, h4) =
      bind_ok (read_socks4_field max_user_id_length user_id_too_long s3) _ h3 in
    let (shape, clean, short) =
      (read_socks4_field_iff max_user_id_length user_id_too_long s3 user_id s4).0 e4 in
    let (_, f, h5) = bind_ok (fail_if (not (command == 1)) not_connect) _ h4 in
    let is_one = fail_if_ok (not (command == 1)) not_connect f in
    let ((host, s5), e5, h6) = bind_ok (read_host4 address s4) _ h5 in
    let rest_is : s5 ≡ rest = cc h6 in
    (
      port_bytes,
      address,
      user_id,
      host,
      s4,
      len2,
      len3,
      clean,
      short,
      subst (λ (t : Bytes). Host4 address host s4 t) rest_is
          (read_host4_parts address s4 host s5 e5),
      cc h6,
      together4 command s s2 s3 s4 port_bytes address user_id is_one whole2 whole3 shape,
    )

whole4 :
    (port_bytes address user_id tail : Bytes) (host : Host) (rest : Bytes)
    → length port_bytes ≡ 2
    → length address ≡ 4
    → NoZero user_id
    → length user_id ≤ max_user_id_length
    → Host4 address host tail rest
    → negotiate_socks4 (client4 port_bytes address user_id tail)
      ≡ ok (request4 host port_bytes address, rest)
unfolding negotiate_socks4 read_byte
whole4 port_bytes address user_id tail host rest len2 len4 clean short h = rw (
  full_whole 2 (port_bytes ++ (address ++ (user_id ++ 0 ∷ tail))) port_bytes
      (address ++ (user_id ++ 0 ∷ tail)) refl len2,
  full_whole 4 (address ++ (user_id ++ 0 ∷ tail)) address (user_id ++ 0 ∷ tail) refl len4,
  (read_socks4_field_iff max_user_id_length user_id_too_long (user_id ++ 0 ∷ tail) user_id tail).1
      (refl, clean, short),
  read_host4_whole address tail host rest h,
)

-- A SOCKS4 negotiation settles on a request exactly when the client sends a CONNECT with a port, an
-- address, a user id of at most 255 bytes and, if the address is 0.0.0.x with x not 0, a name of at
-- most 255 bytes to connect to in place of the address; both texts end with a NUL. The replies repeat
-- the port and the address, and what the client sends behind the request is left to forward.
pub negotiate_socks4_iff :
    (s : Bytes) (r : Request) (rest : Bytes)
    → (negotiate_socks4 s ≡ ok (r, rest)) ↔ (
        (port_bytes : Bytes) × (address : Bytes) × (user_id : Bytes) × (host : Host)
        × (tail : Bytes) × (length port_bytes ≡ 2)
        × (length address ≡ 4)
        × NoZero user_id
        × (length user_id ≤ max_user_id_length)
        × Host4 address host tail rest
        × (r ≡ request4 host port_bytes address)
        × (s ≡ client4 port_bytes address user_id tail))
negotiate_socks4_iff s r rest = (
  parts4 s r rest,
  λ (port_bytes, address, user_id, host, tail, len2, len4, clean, short, h, e, e').
      rw (e, e') (whole4 port_bytes address user_id tail host rest len2 len4 clean short h),
)
