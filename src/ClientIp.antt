-- ===== src/ClientIp.antt =====
-- src/utils/ip.go and src/config/trusted_proxies.go: the address that a request is counted under.
pub mod Trust
mod Examples
use bincrypt.Prelude.{
  ℕ, Bool, true, false, ◌&&◌, ◌||◌, List, [], ◌∷◌, Option, none, some, Bytes, bytes_eq, codes,
  if◌then◌else◌, is_empty,
}
use bincrypt.Text.{trim_space, split}
use mathlib.Core.List.{map}

-- net.IPNet
pub record IpNet : Type 0 where
  pub ip : Bytes
  pub mask : Bytes

-- What the code takes from package net: ParseIP (`none` for nil), whether To4 is not nil, ParseCIDR,
-- CIDRMask, IPNet.Contains, and the host of SplitHostPort.
pub record Net : Type 0 where
  pub parse_ip : Bytes → Option Bytes
  pub is_v4 : Bytes → Bool
  pub parse_cidr : Bytes → Option IpNet
  pub cidr_mask : ℕ → ℕ → Bytes
  pub contains : IpNet → Bytes → Bool
  pub split_host : Bytes → Option Bytes

-- The variables of the environment that are read; an unset one is empty.
pub record Env : Type 0 where
  pub k_service : Bytes
  pub trusted_proxies_enabled : Bytes
  pub trusted_proxies : Bytes
  pub trusted_headers : Bytes

pub record TrustedProxyConfig : Type 0 where
  pub enabled : Bool
  pub trusted_cidrs : List IpNet
  pub headers : List Bytes

abbrev pub forwarded_for : Bytes
forwarded_for = codes "X-Forwarded-For"

abbrev pub disabled : TrustedProxyConfig
disabled = record { enabled = false; trusted_cidrs = []; headers = [] }

module _ (n : Net) where
  -- A single address is a network of its own.
  host_network : Option Bytes → Option IpNet
  host_network none = none
  host_network (some ip) =
      some
        (record { ip = ip; mask = if n.is_v4 ip then n.cidr_mask 32 32 else n.cidr_mask 128 128 })

  cidr_or_ip : Bytes → Option IpNet → Option IpNet
  unfolding host_network
  cidr_or_ip cidr none = host_network (n.parse_ip cidr)
  cidr_or_ip cidr (some network) = some network

  unfoldable pub network_of : Bytes → Option IpNet
  unfolding cidr_or_ip
  network_of cidr = cidr_or_ip cidr (n.parse_cidr cidr)

  -- The loop over TRUSTED_PROXIES: what is no network is left out.
  unfoldable pub networks : List Bytes → List IpNet
  unfolding network_of
  networks [] = []
  networks (cidr ∷ cidrs) = elim (network_of (trim_space cidr)) [
    | none ↦ networks cidrs
    | some network ↦ network ∷ networks cidrs
  ]

  -- mustParseCIDR of both ranges of Cloud Run; `none` is its panic.
  cloud_run : Option IpNet → Option IpNet → Option TrustedProxyConfig
  cloud_run (some a) (some b) =
      some (record { enabled = true; trusted_cidrs = a ∷ b ∷ []; headers = forwarded_for ∷ [] })
  cloud_run _ _ = none

  unfoldable pub load_trusted_proxy_config : Env → Option TrustedProxyConfig
  unfolding cloud_run networks
  load_trusted_proxy_config env =
      if is_empty env.k_service
      then (if bytes_eq env.trusted_proxies_enabled (codes "true")
          then (if is_empty env.trusted_proxies
              then some disabled
              else some (record {
                enabled = true;
                trusted_cidrs = networks (split b',' env.trusted_proxies);
                headers =
                    if is_empty env.trusted_headers
                    then forwarded_for ∷ []
                    else map trim_space (split b',' env.trusted_headers);
              }))
          else some disabled)
      else cloud_run (n.parse_cidr (codes "35.191.0.0/16")) (n.parse_cidr (codes "130.211.0.0/22"))

  unfoldable pub any_contains : List IpNet → Bytes → Bool
  any_contains [] ip = false
  any_contains (network ∷ networks) ip = n.contains network ip || any_contains networks ip

  unfoldable pub is_trusted_proxy : TrustedProxyConfig → Bytes → Bool
  unfolding any_contains
  is_trusted_proxy config ip =
      if config.enabled
      then elim (n.parse_ip ip) [
        | none ↦ false
        | some parsed ↦ any_contains config.trusted_cidrs parsed
      ]
      else false

  -- parseIP
  unfoldable pub remote_ip : Bytes → Bytes
  remote_ip addr = elim (n.split_host addr) [
    | some host ↦ host
    | none ↦ elim (n.parse_ip addr) [ some _ ↦ addr | none ↦ codes "127.0.0.1" ]
  ]

  -- The first part of a list of addresses; strings.Split gives at least one.
  abbrev first_part : List Bytes → Bytes
  first_part [] = []
  first_part (part ∷ parts) = part

  -- What a header names as the client.
  unfoldable pub candidate : Bytes → Bytes → Bytes
  candidate header value =
      if bytes_eq header forwarded_for
      then trim_space (first_part (split b',' value))
      else trim_space value

  -- The loop over the trusted headers; `get` is r.Header.Get.
  unfoldable pub find_forwarded : (Bytes → Bytes) → List Bytes → Option Bytes
  unfolding candidate
  find_forwarded get [] = none
  find_forwarded get (header ∷ headers) =
      let rest = find_forwarded get headers in
      if is_empty (get header) then rest else elim (n.parse_ip (candidate header (get header))) [
        | some _ ↦ some (candidate header (get header))
        | none ↦ rest
      ]

  or_remote : Bytes → Option Bytes → Bytes
  or_remote ip none = ip
  or_remote ip (some client) = client

  -- GetClientIP; a nil configuration is `none`.
  unfoldable pub get_client_ip : Option TrustedProxyConfig → Bytes → (Bytes → Bytes) → Bytes
  unfolding remote_ip is_trusted_proxy find_forwarded or_remote
  get_client_ip none addr get = remote_ip addr
  get_client_ip (some config) addr get =
      if config.enabled && is_trusted_proxy config (remote_ip addr)
      then or_remote (remote_ip addr) (find_forwarded get config.headers)
      else remote_ip addr
