-- ===== src/CloudInit.antt =====
-- What a new machine is told: internal/cloudinit/generator.go and network_config.go.

use casper_cloud.Prelude.{
  ◌||◌, ltb, ℕ, ◌+◌, ◌/◌, ◌%◌, List, [], ◌∷◌, ◌++◌, Text, codes, map, is_empty, trim_space,
  to_lower, if◌then◌else◌,
}
use casper_cloud.Data.{Inet, missing_cloud_init_field, invalid_network_config}
use casper_cloud.Exec.{Result, ok, err}
use casper_cloud.Repository.Hosts.{Address, v4, v6}

-- Each line, with its end.
unfoldable pub unlines : List Text → Text
unlines [] = []
unlines (l ∷ ls) = l ++ 10 ∷ unlines ls

-- `cloudinit.Data`
pub record CloudData : Type 0 where
  pub hostname : Text
  pub username : Text
  pub ssh_public_key : Text
  pub packages : List Text
  pub run_commands : List Text

abbrev item : Text → Text
item s = codes "  - " ++ s

-- The lines behind the host name.
abbrev pub later_lines : CloudData → List Text
later_lines c =
    codes "users:"
    ∷ (codes "  - name: " ++ c.username)
    ∷ codes "    sudo: ALL=(ALL) NOPASSWD:ALL"
    ∷ codes "    shell: /bin/bash"
    ∷ codes "    ssh_authorized_keys:"
    ∷ (codes "      - " ++ c.ssh_public_key)
    ∷ codes "package_update: true"
    ∷ codes "packages:"
    ∷ (map item c.packages ++ codes "runcmd:" ∷ map item c.run_commands)

-- `userDataTemplate`, filled in.
unfoldable pub user_data_of : CloudData → Text
unfolding unlines
user_data_of c =
    unlines (codes "#cloud-config" ∷ (codes "hostname: " ++ c.hostname) ∷ later_lines c)

unfoldable pub render_user_data : CloudData → Result Text
unfolding user_data_of
render_user_data c =
    if is_empty c.hostname || is_empty c.username || is_empty c.ssh_public_key
    then err missing_cloud_init_field
    else ok (user_data_of c)

abbrev digit : ℕ → ℕ
digit n = 48 + n % 10

-- A number below 1000 in decimal.
abbrev decimal : ℕ → Text
decimal n =
    if ltb n 10
    then digit n ∷ []
    else if ltb n 100
    then digit (n / 10) ∷ digit n ∷ []
    else digit (n / 100) ∷ digit (n / 10) ∷ digit n ∷ []

-- `addr.String()` of an IPv4 address.
unfoldable pub dotted : Inet → Text
dotted a =
    decimal (a / 16777216 % 256)
    ++ 46 ∷ (decimal (a / 65536 % 256) ++ 46 ∷ (decimal (a / 256 % 256) ++ 46 ∷ decimal (a % 256)))

unfoldable pub network_config_of : Text → Inet → Inet → ℕ → Text
unfolding unlines dotted
network_config_of m addr gateway bits = unlines (
    codes "version: 2"
    ∷ codes "ethernets:"
    ∷ codes "  casper0:"
    ∷ codes "    match:"
    ∷ (codes "      macaddress: '" ++ (m ++ 39 ∷ []))
    ∷ codes "    dhcp4: false"
    ∷ codes "    addresses:"
    ∷ (codes "      - " ++ (dotted addr ++ 47 ∷ decimal bits))
    ∷ (codes "    gateway4: " ++ dotted gateway)
    ∷ codes "    nameservers:"
    ∷ codes "      addresses: [8.8.8.8, 8.8.4.4]"
    ∷ [])

abbrev with_mac : Text → Inet → Inet → ℕ → Result Text
with_mac m addr gateway bits =
    if is_empty m then err invalid_network_config else ok (network_config_of m addr gateway bits)

-- The bits of a netip.Prefix are not negative.
unfoldable pub render_network_config_v2 : Text → Address → Address → ℕ → Result Text
unfolding network_config_of trim_space to_lower
render_network_config_v2 mac (v4 a) (v4 g) bits =
    if ltb 32 bits
    then err invalid_network_config
    else with_mac (to_lower (trim_space mac)) a g bits
render_network_config_v2 mac (v6 t) gateway bits = err invalid_network_config
render_network_config_v2 mac (v4 a) (v6 t) bits = err invalid_network_config
