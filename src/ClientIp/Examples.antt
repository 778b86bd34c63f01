-- ===== src/ClientIp/Examples.antt =====
-- One proxy is trusted, and a request that it forwards.
use bincrypt.Prelude.{
  ◌≡◌, refl, ◌⊎◌, true, false, [], ◌∷◌, none, some, Bytes, bytes_eq, codes, is_empty, if◌then◌else◌,
}
use bincrypt.Text.{split, trim_space}
use bincrypt.ClientIp.{
  Net, Env, TrustedProxyConfig, forwarded_for, load_trusted_proxy_config, is_trusted_proxy,
  remote_ip, get_client_ip,
}
use bincrypt.ClientIp.Trust.{IsForwarded, get_client_ip-source}

-- Every text is an address, and no text is a range.
abbrev net : Net
net = record {
  parse_ip = λ s. if is_empty s then none else some s;
  is_v4 = λ ip. true;
  parse_cidr = λ s. none;
  cidr_mask = λ ones bits. [];
  contains = λ network ip. bytes_eq network.ip ip;
  split_host = λ s. none;
}

abbrev env : Env
env = record {
  k_service = [];
  trusted_proxies_enabled = codes "true";
  trusted_proxies = codes "10.0.0.1, 10.0.0.2";
  trusted_headers = [];
}

abbrev config : TrustedProxyConfig
config = record {
  enabled = true;
  trusted_cidrs =
      record { ip = codes "10.0.0.1"; mask = [] }
      ∷ record { ip = codes "10.0.0.2"; mask = [] }
      ∷ [];
  headers = forwarded_for ∷ [];
}

loads : load_trusted_proxy_config net env ≡ some config
unfolding load_trusted_proxy_config split trim_space bytes_eq
loads = refl

trusts : is_trusted_proxy net config (codes "10.0.0.2") ≡ true
unfolding is_trusted_proxy bytes_eq
trusts = refl

distrusts : is_trusted_proxy net config (remote_ip net (codes "8.8.8.8")) ≡ false
unfolding is_trusted_proxy remote_ip bytes_eq
distrusts = refl

abbrev header_get : Bytes → Bytes
header_get header = codes "9.9.9.9, 10.0.0.1"

client : get_client_ip net (some config) (codes "10.0.0.1") header_get ≡ codes "9.9.9.9"
unfolding get_client_ip bytes_eq split trim_space
client = refl

get_client_ip-source_example :
    (get_client_ip net (some config) (codes "10.0.0.1") header_get
      ≡ remote_ip net (codes "10.0.0.1"))
    ⊎ ((is_trusted_proxy net config (remote_ip net (codes "10.0.0.1")) ≡ true)
        × IsForwarded net config header_get
            (get_client_ip net (some config) (codes "10.0.0.1") header_get))
get_client_ip-source_example = get_client_ip-source net config (codes "10.0.0.1") header_get
