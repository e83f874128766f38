-- ===== src/Address/Tests.antt =====
-- Tests of printing and parsing addresses, and the theorems at concrete inputs.
use sleep_manager.Base.{◌≡◌, refl, true, false, none, some, [], ◌∷◌, Bytes, codes, arith}
use sleep_manager.Text.Number.{to_string, digit_value, scan_digits, scan_sign, skip_space, is_space}
use sleep_manager.Text.Stream.{read_char, read_unsigned, sentry, extract_uint, skip_prefix}
use sleep_manager.Exception.{ok, throws, invalid_address}
use sleep_manager.Address.{
  put_hex, read_ip, read_mac, Junk, parse_mac_address, parse_ip_address, render_mac_address,
  render_ip_address,
}
use sleep_manager.Address.RoundTrip.{
  parse_ip_address-render, parse_mac_address-render, parse_ip_address_wraps,
}
use sleep_manager.Address.Host.{AddrInfo, NetInterface, HostCalls, load_host, load_host_lem}

abbrev junk : Junk
junk = record { ch = b'?'; byte = 77 }

abbrev gateway : Bytes
gateway = 192 ∷ 168 ∷ 0 ∷ 1 ∷ []

abbrev card : Bytes
card = 0 ∷ 27 ∷ 68 ∷ 17 ∷ 58 ∷ 183 ∷ []

rendered :
    (render_ip_address gateway ≡ codes "192.168.0.1")
    × (render_mac_address card ≡ codes "00:1b:44:11:3a:b7")
unfolding render_ip_address render_mac_address put_hex to_string
rendered = (refl, refl)

-- A wrong separator, a missing byte.
refused :
    (parse_ip_address junk (codes "1,2")
      ≡ throws (invalid_address (codes "expected `.` in IPV4 address")))
    × (parse_mac_address junk (codes "00:1b")
        ≡ throws (invalid_address (codes "expected `:` in MAC address")))
unfolding parse_ip_address parse_mac_address read_ip read_mac read_char read_unsigned sentry
    extract_uint skip_space is_space skip_prefix scan_sign scan_digits digit_value
refused = (refl, refl)

parse_ip_address-render_example : parse_ip_address junk (render_ip_address gateway) ≡ ok gateway
parse_ip_address-render_example = parse_ip_address-render junk gateway (omega arith)

parse_mac_address-render_example : parse_mac_address junk (render_mac_address card) ≡ ok card
parse_mac_address-render_example = parse_mac_address-render junk card (omega arith)

-- 256.0.0.300 is read as 0.0.0.44.
parse_ip_address_wraps_example :
    parse_ip_address junk (render_ip_address (256 ∷ 0 ∷ 0 ∷ 300 ∷ [])) ≡ ok (0 ∷ 0 ∷ 0 ∷ 44 ∷ [])
parse_ip_address_wraps_example =
    parse_ip_address_wraps junk (256 ∷ 0 ∷ 0 ∷ 300 ∷ []) refl (omega arith)

-- A host with an IPv6 and an IPv4 address, the loopback interface and a card.
abbrev loopback : NetInterface
loopback = record {
  socket_errno = none;
  if_ip_addr = some (127 ∷ 0 ∷ 0 ∷ 1 ∷ []);
  hwaddr_errno = none;
  hwaddr = 0 ∷ 0 ∷ 0 ∷ 0 ∷ 0 ∷ 0 ∷ [];
}

abbrev ethernet : NetInterface
ethernet = record {
  socket_errno = none;
  if_ip_addr = some gateway;
  hwaddr_errno = none;
  hwaddr = card;
}

abbrev inet6 : AddrInfo
inet6 = record { is_inet = false; address = [] }

abbrev inet : AddrInfo
inet = record { is_inet = true; address = gateway }

abbrev calls : HostCalls
calls = record {
  gethostname_errno = none;
  gethostname = codes "desk";
  getaddrinfo_errno = none;
  getaddrinfo = λ _. inet6 ∷ inet ∷ [];
  getifaddrs = loopback ∷ ethernet ∷ [];
}

load_host_lem_example :
    load_host calls ≡ ok (record { mac = card; ip = gateway; hostname = codes "desk" })
load_host_lem_example =
    load_host_lem calls (inet6 ∷ []) inet [] (loopback ∷ []) ethernet [] refl refl refl (refl, tt)
      refl refl ((refl, (λ e. cc)), tt) refl refl refl
