-- ===== src/TunnelConfig/Runs.antt =====
-- Runs of the validation, and its theorems at concrete configurations.
use p2p_netcat_go_wrk.Common.{◌≡◌, ◌↔◌, refl, false, none, [], ◌∷◌, ok, err}
use p2p_netcat_go_wrk.Common.Text.{codes, bytes_eq}
use p2p_netcat_go_wrk.Common.Net.{
  is_blank, split_host_port, split_last_colon, split_close, has, too_many_colons,
}
use p2p_netcat_go_wrk.Common.Decimal.{atoi}
use p2p_netcat_go_wrk.TunnelConfig.{
  forward, exec, server, client, tcp, Tunnel, Config, token_required, duplicate_name,
  duplicate_port, check_endpoint, validate_tunnel, valid_port, check_tunnels, check_relays,
  find_name, find_port, validate,
}
use p2p_netcat_go_wrk.TunnelConfig.Rules.{IsRunnable, validate_tunnel_iff}
use p2p_netcat_go_wrk.TunnelConfig.Valid.{IsValid, validate_iff}

abbrev database : Tunnel
database = record {
  name = codes "db";
  type_of = forward;
  mode = server;
  logical_port = 5432;
  protocol = tcp;
  target = codes ":5432";
  listen = [];
  peer = [];
  command = [];
  token_file = [];
  allow_unauthenticated = false;
}

abbrev shell : Tunnel
shell = record database { name = codes "sh"; type_of = exec; command = codes "sh" }

abbrev to_database : Tunnel
to_database = record database {
  name = codes "to db";
  mode = client;
  target = [];
  listen = codes "127.0.0.1:15432";
  peer = codes "12D3";
}

abbrev config : Config
config = record {
  identity = [];
  relays = [];
  fallback_to_public_dht = none;
  upstream_socks = [];
  tunnels = database ∷ to_database ∷ [];
}

accepts : validate config ≡ ok tt
unfolding validate check_tunnels check_relays validate_tunnel check_endpoint split_host_port
    valid_port atoi is_blank find_name find_port bytes_eq split_last_colon has
accepts = refl

refuses_shell : validate_tunnel shell ≡ err token_required
unfolding validate_tunnel is_blank
refuses_shell = refl

refuses_twice :
    validate (record config { tunnels = database ∷ database ∷ [] }) ≡ err (duplicate_name 1 0)
unfolding validate check_tunnels check_relays validate_tunnel check_endpoint split_host_port
    valid_port atoi is_blank find_name find_port bytes_eq split_last_colon has
refuses_twice = refl

refuses_port :
    validate (record config { tunnels = database ∷ record database { name = codes "b" } ∷ [] })
    ≡ err (duplicate_port 1 (codes "db"))
unfolding validate check_tunnels check_relays validate_tunnel check_endpoint split_host_port
    valid_port atoi is_blank find_name find_port bytes_eq split_last_colon has
refuses_port = refl

brackets : split_host_port (codes "[::1]:80") ≡ ok (codes "::1", codes "80")
unfolding split_host_port split_last_colon split_close has
brackets = refl

bare : split_host_port (codes "::1:80") ≡ err too_many_colons
unfolding split_host_port split_last_colon split_close has
bare = refl

validate_tunnel_iff_example : (validate_tunnel shell ≡ ok tt) ↔ IsRunnable shell
validate_tunnel_iff_example = validate_tunnel_iff shell

validate_iff_example : (validate config ≡ ok tt) ↔ IsValid config
validate_iff_example = validate_iff config
