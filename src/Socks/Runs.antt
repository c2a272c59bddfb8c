-- ===== src/Socks/Runs.antt =====
-- Runs of SOCKS handshakes, and the theorems at concrete ones.
use p2p_netcat_go_wrk.Common.{
  ◌≡◌, ◌≤◌, ◌↔◌, refl, true, false, [], ◌∷◌, ◌++◌, Bytes, length, ok, err,
}
use p2p_netcat_go_wrk.Common.Text.{codes}
use p2p_netcat_go_wrk.Common.Io.{plain, write_once, read_full, read_byte}
use p2p_netcat_go_wrk.Socks.{
  Host, name, Environment, negotiate, negotiate_socks5, negotiate_socks4, read_methods,
  read_request5, read_address, read_socks4_field, socks, no_acceptable_method, offers_none,
  max_user_id_length,
}
use p2p_netcat_go_wrk.Socks.Field.{NoZero}
use p2p_netcat_go_wrk.Socks.Requests.{Address5, request5, client5, negotiate_socks5_iff}
use p2p_netcat_go_wrk.Socks.Requests4.{Host4, request4, client4, negotiate_socks4_iff}

abbrev refusing : Environment
refusing = record { expires = false; dials = λ h p. false }

-- A SOCKS5 client asks for example:80 and sends two bytes more.
abbrev asks5 : Bytes
asks5 = client5 (0 ∷ []) (3 ∷ 7 ∷ codes "example") (0 ∷ 80 ∷ []) ++ codes "hi"

settles5 :
    negotiate_socks5 asks5 (plain [])
    ≡ (ok (request5 (name (codes "example")) (0 ∷ 80 ∷ []), codes "hi"), plain (5 ∷ 0 ∷ []))
unfolding negotiate_socks5 read_methods read_request5 read_address read_byte read_full write_once
settles5 = refl

-- A SOCKS4a client asks for a.b:443.
abbrev asks4 : Bytes
asks4 = client4 (1 ∷ 187 ∷ []) (0 ∷ 0 ∷ 0 ∷ 1 ∷ []) (codes "me") (codes "a.b" ++ 0 ∷ [])

settles4 :
    negotiate_socks4 asks4
    ≡ ok (request4 (name (codes "a.b")) (1 ∷ 187 ∷ []) (0 ∷ 0 ∷ 0 ∷ 1 ∷ []), [])
unfolding negotiate_socks4 read_byte read_full read_socks4_field
settles4 = refl

no_method :
    socks refusing (5 ∷ 1 ∷ 2 ∷ []) (plain []) ≡ (err no_acceptable_method, plain (5 ∷ 0xff ∷ []))
unfolding socks negotiate negotiate_socks5 read_methods read_byte read_full write_once
no_method = refl

negotiate_socks5_iff_example :
    ((negotiate_socks5 asks5 (plain [])).0
      ≡ ok (request5 (name (codes "example")) (0 ∷ 80 ∷ []), codes "hi"))
    ↔ ((methods : Bytes) × (host : Host) × (enc : Bytes) × (port_bytes : Bytes) × (offers_none
            methods
          ≡ true)
        × Address5 host enc
        × (length port_bytes ≡ 2)
        × (request5 (name (codes "example")) (0 ∷ 80 ∷ []) ≡ request5 host port_bytes)
        × (asks5 ≡ client5 methods enc port_bytes ++ codes "hi"))
negotiate_socks5_iff_example =
    negotiate_socks5_iff asks5 [] (request5 (name (codes "example")) (0 ∷ 80 ∷ [])) (codes "hi")

negotiate_socks4_iff_example :
    (negotiate_socks4 asks4
      ≡ ok (request4 (name (codes "a.b")) (1 ∷ 187 ∷ []) (0 ∷ 0 ∷ 0 ∷ 1 ∷ []), []))
    ↔ ((port_bytes : Bytes) × (address : Bytes) × (user_id : Bytes) × (host : Host) × (tail : Bytes)
        × (length port_bytes ≡ 2)
        × (length address ≡ 4)
        × NoZero user_id
        × (length user_id ≤ max_user_id_length)
        × Host4 address host tail []
        × (request4 (name (codes "a.b")) (1 ∷ 187 ∷ []) (0 ∷ 0 ∷ 0 ∷ 1 ∷ [])
            ≡ request4 host port_bytes address)
        × (asks4 ≡ client4 port_bytes address user_id tail))
negotiate_socks4_iff_example =
    negotiate_socks4_iff asks4 (request4 (name (codes "a.b")) (1 ∷ 187 ∷ []) (0 ∷ 0 ∷ 0 ∷ 1 ∷ []))
      []
