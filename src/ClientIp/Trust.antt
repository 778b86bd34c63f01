-- ===== src/ClientIp/Trust.antt =====
-- Whose headers are believed: where the address of a request can come from, and which proxies a
-- configuration trusts.
use mathlib.Core.List.{Memᴰ}
use mathlib.Core.List.Memᴰ.{head, tail}
use bincrypt.Prelude.{
  ◌≡◌, refl, true, false, List, [], ◌∷◌, some, Bytes, bytes_eq, bytes_eq_iff, codes, arith,
  is_empty, ◌⊎◌, inl, inr, Bool-cases, Option-cases, sym,
}
use bincrypt.Text.{trim_space, split}
use bincrypt.ClientIp.{
  IpNet, Net, Env, TrustedProxyConfig, network_of, networks, load_trusted_proxy_config,
  any_contains, is_trusted_proxy, remote_ip, candidate, find_forwarded, get_client_ip,
}

module _ (n : Net) where
  -- A trusted header names this address, and the address parses.
  pub record IsForwarded (config : TrustedProxyConfig) (get : Bytes → Bytes) (client : Bytes)
      : Type 0 where
    pub header : Bytes
    pub listed : Memᴰ header config.headers
    pub named : client ≡ candidate n header (get header)
    pub parsed : (ip : Bytes) × (n.parse_ip client ≡ some ip)

  IsForwarded-tail :
      (config : TrustedProxyConfig) (header : Bytes) (get : Bytes → Bytes) (client : Bytes)
      → IsForwarded config get client
      → IsForwarded (record config { headers = header ∷ config.headers }) get client
  IsForwarded-tail config header get client f = record {
    header = f.header;
    listed = tail f.listed;
    named = f.named;
    parsed = f.parsed;
  }

  find_forwarded-IsForwarded :
      (cidrs : List IpNet) (headers : List Bytes) (get : Bytes → Bytes) (client : Bytes)
      → find_forwarded n get headers ≡ some client
      → IsForwarded (record { enabled = true; trusted_cidrs = cidrs; headers = headers }) get client
  unfolding find_forwarded
  find_forwarded-IsForwarded cidrs [] get client h = cc
  find_forwarded-IsForwarded cidrs (header ∷ headers) get client h =
      let later = λ (k : find_forwarded n get headers ≡ some client).
        IsForwarded-tail (record { enabled = true; trusted_cidrs = cidrs; headers = headers })
          header get client (find_forwarded-IsForwarded cidrs headers get client k) in
      elim (Bool-cases (is_empty (get header))) [
        | inl unset ↦ later (rw unset at h)
        | inr set ↦ elim (Option-cases (n.parse_ip (candidate n header (get header)))) [
          | inl bad ↦ later (rw (set, bad) at h)
          | inr (ip, good) ↦
              let same : candidate n header (get header) ≡ client = ground arith in
              record {
                header = header;
                listed = head refl;
                named = sym same;
                parsed = (ip, rw (← same) good);
              }
        ]
      ]

  -- The address of a request is that of the connection, unless the configuration is enabled and
  -- trusts that address: then it can also be a valid address named by one of the trusted headers.
  pub get_client_ip-source :
      (config : TrustedProxyConfig) (addr : Bytes) (get : Bytes → Bytes)
      → (get_client_ip n (some config) addr get ≡ remote_ip n addr)
        ⊎ ((is_trusted_proxy n config (remote_ip n addr) ≡ true)
            × IsForwarded config get (get_client_ip n (some config) addr get))
  unfolding get_client_ip
  get_client_ip-source config addr get =
      elim (Bool-cases (is_trusted_proxy n config (remote_ip n addr))) [
        | inl trusted ↦ elim (Bool-cases config.enabled) [
          | inl on ↦ elim (Option-cases (find_forwarded n get config.headers)) [
            | inl nothing ↦ inl (ground arith)
            | inr (client, found) ↦
                let same : get_client_ip n (some config) addr get ≡ client = ground arith in
                let f =
                  find_forwarded-IsForwarded config.trusted_cidrs config.headers get client found in
                inr (
                  trusted,
                  rw same (record {
                    header = f.header;
                    listed = f.listed;
                    named = f.named;
                    parsed = f.parsed;
                  }),
                )
          ]
          | inr off ↦ inl (ground arith)
        ]
        | inr distrusted ↦ inl (ground arith)
      ]

  -- For a connection from an address that the configuration does not trust, the address of the
  -- request is that of the connection, whatever the headers say.
  pub get_client_ip-untrusted :
      (config : TrustedProxyConfig) (addr : Bytes) (get : Bytes → Bytes)
      → is_trusted_proxy n config (remote_ip n addr) ≡ false
      → get_client_ip n (some config) addr get ≡ remote_ip n addr
  unfolding get_client_ip
  get_client_ip-untrusted config addr get h = ground arith

  -- An entry of TRUSTED_PROXIES whose network contains the address.
  pub record IsAllowed (env : Env) (ip : Bytes) : Type 0 where
    pub entry : Bytes
    pub listed : Memᴰ entry (split b',' env.trusted_proxies)
    pub network : IpNet
    pub read : network_of n (trim_space entry) ≡ some network
    pub parsed : Bytes
    pub address : n.parse_ip ip ≡ some parsed
    pub inside : n.contains network parsed ≡ true

  networks-contains :
      (cidrs : List Bytes) (parsed : Bytes)
      → any_contains n (networks n cidrs) parsed ≡ true
      → (entry : Bytes) × Memᴰ entry cidrs
        × ((network : IpNet) × (network_of n (trim_space entry) ≡ some network)
            × (n.contains network parsed ≡ true))
  unfolding any_contains networks
  networks-contains [] parsed h = cc
  networks-contains (cidr ∷ cidrs) parsed h = elim (Option-cases (network_of n (trim_space cidr))) [
    | inl bad ↦
        let (entry, listed, found) = networks-contains cidrs parsed (ground arith) in
        (entry, tail listed, found)
    | inr (network, good) ↦ elim (Bool-cases (n.contains network parsed)) [
      | inl inside ↦ (cidr, head refl, (network, good, inside))
      | inr outside ↦
          let (entry, listed, found) = networks-contains cidrs parsed (ground arith) in
          (entry, tail listed, found)
    ]
  ]

  loaded :
      (env : Env) (config : TrustedProxyConfig)
      → env.k_service ≡ []
      → load_trusted_proxy_config n env ≡ some config
      → (config.enabled ≡ true)
      → (config.trusted_cidrs ≡ networks n (split b',' env.trusted_proxies))
        × (bytes_eq env.trusted_proxies_enabled (codes "true") ≡ true)
  unfolding load_trusted_proxy_config
  loaded env config local load on = (ground arith, ground arith)

  -- Outside Cloud Run, a loaded configuration trusts an address only if TRUSTED_PROXIES_ENABLED is
  -- "true" and an entry of TRUSTED_PROXIES is a network, or an address, that contains it.
  pub is_trusted_proxy-IsAllowed :
      (env : Env) (config : TrustedProxyConfig) (ip : Bytes)
      → env.k_service ≡ []
      → load_trusted_proxy_config n env ≡ some config
      → is_trusted_proxy n config ip ≡ true
      → (env.trusted_proxies_enabled ≡ codes "true") × IsAllowed env ip
  unfolding is_trusted_proxy
  is_trusted_proxy-IsAllowed env config ip local load trusted =
      let on : config.enabled ≡ true = ground arith in
      let (cidrs, enabled) = loaded env config local load on in
      elim (Option-cases (n.parse_ip ip)) [
        | inl bad ↦ absurd (ground arith)
        | inr (parsed, good) ↦
            let (entry, listed, (network, read, inside)) =
              networks-contains (split b',' env.trusted_proxies) parsed (ground arith) in
            (
              (bytes_eq_iff env.trusted_proxies_enabled (codes "true")).0 enabled,
              record {
                entry = entry;
                listed = listed;
                network = network;
                read = read;
                parsed = parsed;
                address = good;
                inside = inside;
              },
            )
      ]
