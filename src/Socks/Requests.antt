-- ===== src/Socks/Requests.antt =====
-- Which byte streams are requests.
use p2p_netcat_go_wrk.Common.{
  ℕ, ◌≡◌, ◌↔◌, refl, sym, ap, Bool, true, false, Bool-cases, inl, inr, [], ◌∷◌, ◌++◌, append_assoc,
  arith, Bytes, length, ◌==◌, Result, ok, err, bind_ok, fail_if, fail_if_ok, not, ◌||◌, wrap,
  wrap_ok,
}
use p2p_netcat_go_wrk.Common.BigEndian.{u16}
use p2p_netcat_go_wrk.Common.Io.{
  read_full, read_byte, read_full-append, read_full_parts, plain, write_once,
}
use p2p_netcat_go_wrk.Socks.{
  Error, io, not_connect, byte_or_zero, Host, ip, name, Request, read_methods, read_name, read_ip,
  read_address, read_request5, offers_none, negotiate_socks5, greeted,
}

-- The address of a SOCKS5 request, with its type in front.
pub data Address5 (host : Host) (enc : Bytes) : Type 0 where
  v4 : (a : Bytes) → length a ≡ 4 → host ≡ ip a → enc ≡ 1 ∷ a → Address5 host enc
  v6 : (a : Bytes) → length a ≡ 16 → host ≡ ip a → enc ≡ 4 ∷ a → Address5 host enc
  domain : (d : Bytes) → host ≡ name d → enc ≡ 3 ∷ length d ∷ d → Address5 host enc

pub full_parts :
    (n : ℕ) (s v rest : Bytes)
    → wrap io (read_full n s) ≡ ok (v, rest)
    → (v ++ rest ≡ s) × (length v ≡ n)
full_parts n s v rest h = read_full_parts n s v rest (wrap_ok io (read_full n s) h)

pub full_whole :
    (n : ℕ) (s v rest : Bytes)
    → s ≡ v ++ rest
    → length v ≡ n
    → wrap io (read_full n s) ≡ ok (v, rest)
full_whole n s v rest e len = rw (e, ← len, read_full-append v rest)

read_methods_parts :
    (s : Bytes) (b : Bool) (rest : Bytes)
    → read_methods s ≡ ok (b, rest)
    → (methods : Bytes) × (s ≡ (length methods ∷ methods) ++ rest) × (offers_none methods ≡ b)
unfolding read_methods read_byte
read_methods_parts [] b rest h = cc
read_methods_parts (count ∷ s) b rest h =
    let ((methods, s'), e, h') = bind_ok (wrap io (read_full count s)) _ h in
    let (whole, len) = full_parts count s methods s' e in (methods, ground arith, ground arith)

read_methods_whole :
    (methods rest : Bytes)
    → read_methods ((length methods ∷ methods) ++ rest) ≡ ok (offers_none methods, rest)
unfolding read_methods read_byte
read_methods_whole methods rest =
    rw (full_whole (length methods) (methods ++ rest) methods rest refl refl)

read_ip_parts :
    (size : ℕ) (s : Bytes) (host : Host) (rest : Bytes)
    → read_ip size s ≡ ok (host, rest)
    → (a : Bytes) × (length a ≡ size) × (host ≡ ip a) × (s ≡ a ++ rest)
unfolding read_ip
read_ip_parts size s host rest h =
    let ((a, s'), e, h') = bind_ok (wrap io (read_full size s)) _ h in
    let (whole, len) = full_parts size s a s' e in (a, len, ground arith, ground arith)

read_name_parts :
    (s : Bytes) (host : Host) (rest : Bytes)
    → read_name s ≡ ok (host, rest)
    → (d : Bytes) × (host ≡ name d) × (s ≡ (length d ∷ d) ++ rest)
unfolding read_name read_byte
read_name_parts [] host rest h = cc
read_name_parts (count ∷ s) host rest h =
    let ((d, s'), e, h') = bind_ok (wrap io (read_full count s)) _ h in
    let (whole, len) = full_parts count s d s' e in (d, ground arith, ground arith)

read_address_parts :
    (kind : ℕ) (s : Bytes) (host : Host) (rest : Bytes)
    → read_address kind s ≡ ok (host, rest)
    → (enc : Bytes) × Address5 host enc × (kind ∷ s ≡ enc ++ rest)
unfolding read_address
read_address_parts kind s host rest h = elim (Bool-cases (kind == 1)) [
  | inl one ↦
      let (a, len, e, e') = read_ip_parts 4 s host rest (rw one at h) in
      (1 ∷ a, v4 a len e refl, ground arith)
  | inr not_one ↦ elim (Bool-cases (kind == 3)) [
    | inl three ↦
        let (d, e, e') = read_name_parts s host rest (rw (not_one, three) at h) in
        (3 ∷ length d ∷ d, domain d e refl, ground arith)
    | inr not_three ↦ elim (Bool-cases (kind == 4)) [
      | inl four ↦
          let (a, len, e, e') = read_ip_parts 16 s host rest (rw (not_one, not_three, four) at h) in
          (4 ∷ a, v6 a len e refl, ground arith)
      | inr not_four ↦ cc (rw (not_one, not_three, not_four) at h)
    ]
  ]
]

read_address_whole :
    (host : Host) (enc rest : Bytes) (kind : ℕ) (s : Bytes)
    → Address5 host enc
    → kind ∷ s ≡ enc ++ rest
    → read_address kind s ≡ ok (host, rest)
unfolding read_address read_byte
read_address_whole host enc rest kind s (v4 a len e e') h = ground (arith, full_whole 4 s a rest)
read_address_whole host enc rest kind s (v6 a len e e') h = ground (arith, full_whole 16 s a rest)
read_address_whole host enc rest kind [] (domain d e e') h = ground arith
read_address_whole host enc rest kind (c ∷ s) (domain d e e') h =
    ground (arith, full_whole c s d rest)

-- What follows the greeting: version, CONNECT, a reserved zero, the address and the port.
abbrev pub request5_bytes : Bytes → Bytes → Bytes
request5_bytes enc port_bytes = 5 ∷ 1 ∷ 0 ∷ enc ++ port_bytes

abbrev pub request5 : Host → Bytes → Request
request5 host port_bytes = record {
  host = host;
  port = u16 port_bytes;
  success = 5 ∷ 0 ∷ 0 ∷ 1 ∷ 0 ∷ 0 ∷ 0 ∷ 0 ∷ 0 ∷ 0 ∷ [];
  failure = 5 ∷ 5 ∷ 0 ∷ 1 ∷ 0 ∷ 0 ∷ 0 ∷ 0 ∷ 0 ∷ 0 ∷ [];
}

header5 :
    (header : Bytes)
    → length header ≡ 4
    → (not (byte_or_zero 0 header == 5)
        || not (byte_or_zero 1 header == 1)
        || not (byte_or_zero 2 header == 0))
      ≡ false
    → header ≡ 5 ∷ 1 ∷ 0 ∷ byte_or_zero 3 header ∷ []
header5 (a ∷ b ∷ c ∷ d ∷ []) len h = ground arith
header5 [] len h = absurd (omega arith)
header5 (a ∷ []) len h = absurd (omega arith)
header5 (a ∷ b ∷ []) len h = absurd (omega arith)
header5 (a ∷ b ∷ c ∷ []) len h = absurd (omega arith)
header5 (a ∷ b ∷ c ∷ d ∷ e ∷ s) len h = absurd (omega arith)

assemble :
    (s header s1 enc s2 port_bytes s3 rest : Bytes) (kind : ℕ)
    → header ++ s1 ≡ s
    → header ≡ 5 ∷ 1 ∷ 0 ∷ kind ∷ []
    → kind ∷ s1 ≡ enc ++ s2
    → port_bytes ++ s3 ≡ s2
    → s3 ≡ rest
    → s ≡ request5_bytes enc port_bytes ++ rest
assemble s header s1 enc s2 port_bytes s3 rest kind e1 e2 e3 e4 e5 =
    cc (append_assoc enc port_bytes rest, e1, e3, e4, e5, ap (λ (t : Bytes). t ++ s1) e2)

read_request5_parts :
    (s : Bytes) (r : Request) (rest : Bytes)
    → read_request5 s ≡ ok (r, rest)
    → (host : Host) × (enc : Bytes) × (port_bytes : Bytes) × Address5 host enc
      × (length port_bytes ≡ 2)
      × (r ≡ request5 host port_bytes)
      × (s ≡ request5_bytes enc port_bytes ++ rest)
unfolding read_request5
read_request5_parts s r rest h =
    let ((header, s1), e, h1) = bind_ok (wrap io (read_full 4 s)) _ h in
    let (whole, len) = full_parts 4 s header s1 e in
    let (_, f, h2) = bind_ok (fail_if _ not_connect) _ h1 in
    let shape = header5 header len (fail_if_ok _ not_connect f) in
    let ((host, s2), e2, h3) = bind_ok (read_address (byte_or_zero 3 header) s1) _ h2 in
    let (enc, a, whole2) = read_address_parts (byte_or_zero 3 header) s1 host s2 e2 in
    let ((port_bytes, s3), e3, h4) = bind_ok (wrap io (read_full 2 s2)) _ h3 in
    let (whole3, len3) = full_parts 2 s2 port_bytes s3 e3 in
    (
      host,
      enc,
      port_bytes,
      a,
      len3,
      cc h4,
      assemble s header s1 enc s2 port_bytes s3 rest (byte_or_zero 3 header) whole shape whole2
          whole3 (cc h4),
    )

read_request5_from :
    (kind : ℕ) (t : Bytes) (host : Host) (port_bytes rest : Bytes)
    → read_address kind t ≡ ok (host, port_bytes ++ rest)
    → length port_bytes ≡ 2
    → read_request5 (5 ∷ 1 ∷ 0 ∷ kind ∷ t) ≡ ok (request5 host port_bytes, rest)
unfolding read_request5
read_request5_from kind t host port_bytes rest e len = rw (
  full_whole 4 (5 ∷ 1 ∷ 0 ∷ kind ∷ t) (5 ∷ 1 ∷ 0 ∷ kind ∷ []) t refl refl,
  e,
  full_whole 2 (port_bytes ++ rest) port_bytes rest refl len,
)

read_request5_typed :
    (kind : ℕ) (body : Bytes) (host : Host) (port_bytes rest : Bytes)
    → Address5 host (kind ∷ body)
    → length port_bytes ≡ 2
    → read_request5 (request5_bytes (kind ∷ body) port_bytes ++ rest)
      ≡ ok (request5 host port_bytes, rest)
read_request5_typed kind body host port_bytes rest a len = rw (append_assoc body port_bytes rest) (
    read_request5_from kind (body ++ (port_bytes ++ rest)) host port_bytes rest
      (read_address_whole host (kind ∷ body) (port_bytes ++ rest) kind
        (body ++ (port_bytes ++ rest)) a refl)
      len)

read_request5_whole :
    (host : Host) (enc port_bytes rest : Bytes)
    → Address5 host enc
    → length port_bytes ≡ 2
    → read_request5 (request5_bytes enc port_bytes ++ rest) ≡ ok (request5 host port_bytes, rest)
read_request5_whole host enc port_bytes rest (v4 a l e e') len =
    rw e' (read_request5_typed 1 a host port_bytes rest (v4 a l e refl) len)
read_request5_whole host enc port_bytes rest (v6 a l e e') len =
    rw e' (read_request5_typed 4 a host port_bytes rest (v6 a l e refl) len)
read_request5_whole host enc port_bytes rest (domain d e e') len =
    rw e' (read_request5_typed 3 (length d ∷ d) host port_bytes rest (domain d e refl) len)

-- A whole SOCKS5 exchange of the client, behind the version byte.
abbrev pub client5 : Bytes → Bytes → Bytes → Bytes
client5 methods enc port_bytes = (length methods ∷ methods) ++ request5_bytes enc port_bytes

together :
    (s s' methods request rest : Bytes)
    → s ≡ (length methods ∷ methods) ++ s'
    → s' ≡ request ++ rest
    → s ≡ ((length methods ∷ methods) ++ request) ++ rest
together s s' methods request rest e e' =
    rw (e, e') (sym (append_assoc (length methods ∷ methods) request rest))

greeted_parts :
    (s out : Bytes) (m : Result Error (Bool × Bytes)) (r : Request) (rest : Bytes)
    → read_methods s ≡ m
    → (greeted m (plain out)).0 ≡ ok (r, rest)
    → (s' : Bytes) × (read_methods s ≡ ok (true, s')) × (read_request5 s' ≡ ok (r, rest))
unfolding write_once
greeted_parts s out (err e) r rest p h = cc
greeted_parts s out (ok (false, s')) r rest p h = cc
greeted_parts s out (ok (true, s')) r rest p h = (s', p, h)

parts5 :
    (s out : Bytes) (r : Request) (rest : Bytes)
    → (negotiate_socks5 s (plain out)).0 ≡ ok (r, rest)
    → (methods : Bytes) × (host : Host) × (enc : Bytes) × (port_bytes : Bytes) × (offers_none
          methods
        ≡ true)
      × Address5 host enc
      × (length port_bytes ≡ 2)
      × (r ≡ request5 host port_bytes)
      × (s ≡ client5 methods enc port_bytes ++ rest)
unfolding negotiate_socks5
parts5 s out r rest h =
    let (s', m, q) = greeted_parts s out (read_methods s) r rest refl h in
    let (methods, e, o) = read_methods_parts s true s' m in
    let (host, enc, port_bytes, a, len, e', e'') = read_request5_parts s' r rest q in
    (
      methods,
      host,
      enc,
      port_bytes,
      o,
      a,
      len,
      e',
      together s s' methods (request5_bytes enc port_bytes) rest e e'',
    )

whole5 :
    (methods : Bytes) (host : Host) (enc port_bytes rest out : Bytes)
    → offers_none methods ≡ true
    → Address5 host enc
    → length port_bytes ≡ 2
    → (negotiate_socks5 (client5 methods enc port_bytes ++ rest) (plain out)).0
      ≡ ok (request5 host port_bytes, rest)
unfolding negotiate_socks5 write_once
whole5 methods host enc port_bytes rest out o a len =
    rw
      (
        append_assoc methods (request5_bytes enc port_bytes) rest,
        read_methods_whole methods (request5_bytes enc port_bytes ++ rest),
        o,
      )
      (read_request5_whole host enc port_bytes rest a len)

-- With a writer that takes every reply, a SOCKS5 negotiation settles on a request exactly when the
-- client sends methods among which is "no authentication", and then a CONNECT to an IPv4 or IPv6
-- address or to a name; then the host, the port and the two replies are those of the request, and what
-- the client sends behind it is left to forward.
pub negotiate_socks5_iff :
    (s out : Bytes) (r : Request) (rest : Bytes)
    → ((negotiate_socks5 s (plain out)).0 ≡ ok (r, rest)) ↔ (
        (methods : Bytes) × (host : Host) × (enc : Bytes) × (port_bytes : Bytes) × (offers_none
            methods
          ≡ true)
        × Address5 host enc
        × (length port_bytes ≡ 2)
        × (r ≡ request5 host port_bytes)
        × (s ≡ client5 methods enc port_bytes ++ rest))
negotiate_socks5_iff s out r rest = (
  parts5 s out r rest,
  λ (methods, host, enc, port_bytes, o, a, len, e, e').
      rw (e, e') (whole5 methods host enc port_bytes rest out o a len),
)
